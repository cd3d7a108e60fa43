-- ===== src/Schedule/Ticks.antt =====
-- The edge trigger (agent/weekly.go): when `tick` fires.
use sideshow.Base.{
  ℕ, ◌≤◌, ◌<◌, ◌≡◌, refl, sym, ◌∙◌, ◌⊎◌, inl, inr, Bool, true, false, not, ◌&&◌, Option, none, some,
  List, [], leb, ◌∷◌, if◌then◌else◌, All, Bool-cases, arith, Text, text_eq, text_eq_refl,
}
use sideshow.Schedule.{Entry}
use sideshow.Schedule.Calendar.{Date, Time, day_before}
use sideshow.Schedule.Sanitize.{minute}
use sideshow.Schedule.Timeline.{
  Scheduler, Transition, day_entries, merged_entries, effective_entries, now_minute, desired,
}
use sideshow.Schedule.Engine.{fire, tick}
use sideshow.Schedule.Picked.{latest}
use sideshow.Schedule.Latest.{desired-latest}

desired_keyless :
    (s : Scheduler) (k : Text) (t : Time) → desired (record s { last_key = k }) t ≡ desired s t
unfolding desired effective_entries merged_entries day_entries
desired_keyless s k t = refl

fire_twice : (s : Scheduler) (o : Option Transition) → fire o (fire o s).0 ≡ ((fire o s).0, none)
fire_twice s none = refl
fire_twice s (some tr) = elim (Bool-cases (text_eq tr.key s.last_key)) [
  | inl b ↦ rw (b, b) refl
  | inr b ↦ rw (b, text_eq_refl tr.key) refl
]

merged_off :
    (s : Scheduler) (d : Date)
    → s.enabled ≡ false
    → s.nightly_enabled ≡ false
    → merged_entries s d ≡ []
unfolding merged_entries
merged_off s d he hn = rw (he, hn) refl

desired_off :
    (s : Scheduler) (t : Time) → s.enabled ≡ false → s.nightly_enabled ≡ false → desired s t ≡ none
unfolding latest
desired_off s t he hn =
    desired-latest s t ∙ rw (merged_off s t.date he hn, merged_off s (day_before t.date) he hn) refl

guard_off {ℓ} :
    {A : Type ℓ} (a b : Bool) (x y : A)
    → (a ≡ false → b ≡ false → x ≡ y)
    → (if not a && not b then x else y) ≡ y
guard_off true b x y h = refl
guard_off false true x y h = refl
guard_off false false x y h = h refl refl

-- The guard in front of the trigger changes nothing: with both switched off there is no transition.
pub tick-fire : (s : Scheduler) (t : Time) → tick t s ≡ fire (desired s t) s
unfolding tick
tick-fire s t =
    guard_off s.enabled s.nightly_enabled (s, none) (fire (desired s t) s)
      (λ he hn. rw (desired_off s t he hn) refl)

fire_keyless :
    (o : Option Transition) (s : Scheduler) (u : Time) → desired (fire o s).0 u ≡ desired s u
fire_keyless none s u = refl
fire_keyless (some tr) s u = elim (Bool-cases (text_eq tr.key s.last_key)) [
  | inl b ↦ rw b refl
  | inr b ↦ rw b (desired_keyless s tr.key u)
]

tick_keyless : (s : Scheduler) (t u : Time) → desired (tick t s).0 u ≡ desired s u
tick_keyless s t u = rw (tick-fire s t) (fire_keyless (desired s t) s u)

-- While the transition in force stays the same, a second tick fires nothing and changes nothing.
pub tick_once :
    (s : Scheduler) (t u : Time)
    → desired s t ≡ desired s u
    → tick u (tick t s).0 ≡ ((tick t s).0, none)
tick_once s t u h =
    tick-fire (tick t s).0 u
    ∙ rw (tick_keyless s t u, sym h, tick-fire s t) (fire_twice s (desired s t))

same_test : (k m n : ℕ) → m ≤ n → (k ≤ m) ⊎ (n < k) → leb k m ≡ leb k n
same_test k m n l (inl a) = ground arith
same_test k m n l (inr a) = ground arith

latest_quiet :
    (m n : ℕ) (es : List Entry)
    → m ≤ n
    → All (λ e. (minute e ≤ m) ⊎ (n < minute e)) es
    → latest m es ≡ latest n es
unfolding latest
latest_quiet m n [] l h = refl
latest_quiet m n (e ∷ es) l h = rw (latest_quiet m n es l h.1, same_test (minute e) m n l h.0) refl

-- Between the transitions of a day nothing fires: when no transition of the merged timeline lies
-- after the first tick and up to the second, the second tick fires nothing, so a mode that was
-- switched to by hand in between stays.
pub quiet_between :
    (s : Scheduler) (t u : Time)
    → t.date ≡ u.date
    → now_minute t ≤ now_minute u
    → All (λ e. (minute e ≤ now_minute t) ⊎ (now_minute u < minute e)) (merged_entries s u.date)
    → tick u (tick t s).0 ≡ ((tick t s).0, none)
quiet_between s t u hd l h = tick_once s t u (
    desired-latest s t
    ∙ rw (hd, latest_quiet (now_minute t) (now_minute u) (merged_entries s u.date) l h)
        (sym (desired-latest s u)))
