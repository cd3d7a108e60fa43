-- ===== src/Schedule/Installed.antt =====
-- What `Set` makes of an accepted schedule (agent/weekly.go).
use sideshow.Base.{
  ℕ, zero, suc, ◌≤◌, ◌≡◌, refl, subst, ap, last?, ◌∙◌, true, false, ◌&&◌, Option, none, some, List,
  [], ◌∷◌, map, length, All, Bool-cases, inl, inr, arith, Text, is_empty, is_some, text_eq,
  trim_space,
}
use sideshow.Schedule.{Entry, Nightly, Weekday, Info}
use sideshow.Schedule.Clock.{parse_hhmm}
use sideshow.Schedule.Calendar.{Date, Time, format_date, padded, day_before}
use sideshow.Schedule.Sanitize.{
  max_schedule_entries, trimmed, is_usable, collect_entries, sort_entries_by_time, sanitize_entries,
  time_or_empty, sanitize_nightly,
}
use sideshow.Schedule.Timeline.{
  Store, Scheduler, Transition, key_of, transition, or_carry, carried_over, pick_from,
  effective_entries, now_minute, desired,
}
use sideshow.Schedule.Engine.{is_time, save, fire, tick, check, install, set, info_of}
use sideshow.Schedule.Accept.{IsAccepted, IsAcceptableNightly, check_iff}
use sideshow.Schedule.Ticks.{tick-fire}

-- A field other than the store is what it was before a save.
pub save-field {ℓ} :
    {A : Type ℓ} (f : Scheduler → A) (s : Scheduler)
    → ((st : Store) → f (record s { store = st }) ≡ f s)
    → f (save s) ≡ f s
unfolding save
save-field f s h = elim (Bool-cases (s.store.has_path && s.store.writable)) [
  | inl b ↦ rw b (h _)
  | inr b ↦ rw b refl
]

usable : (e : Entry) → IsAccepted e → is_usable (trimmed e) ≡ true
unfolding is_usable trimmed
usable e h = rw (h.0, h.1) refl

collect_accepted :
    (room : ℕ) (es : List Entry)
    → length es ≤ room
    → All IsAccepted es
    → collect_entries room es ≡ map trimmed es
unfolding collect_entries
collect_accepted zero [] l h = refl
collect_accepted zero (e ∷ es) l h = ground arith
collect_accepted (suc room) [] l h = refl
collect_accepted (suc room) (e ∷ es) l h =
    rw (usable e h.0) (ap (λ r. trimmed e ∷ r) (collect_accepted room es (omega arith) h.1))

time_of_accepted : (s : Text) → is_time s ≡ true → time_or_empty s ≡ trim_space s
unfolding time_or_empty
time_of_accepted s h = rw h refl

empty_time : (s : Text) → is_some (parse_hhmm s) ≡ true → is_empty s ≡ false
unfolding parse_hhmm
empty_time [] h = ground arith
empty_time (c ∷ s) h = refl

nightly_of_accepted :
    (n : Nightly) → IsAcceptableNightly n → (sanitize_nightly n).enabled ≡ n.enabled
unfolding sanitize_nightly
nightly_of_accepted n h = elim (Bool-cases n.enabled) [
  | inl b ↦
      rw
        (
          time_of_accepted n.sleep (h b).0,
          time_of_accepted n.wake (h b).1.0,
          empty_time (trim_space n.sleep) (h b).0,
          empty_time (trim_space n.wake) (h b).1.0,
          (h b).1.1,
          b,
        )
        refl
  | inr b ↦ rw b refl
]

-- An accepted schedule is in force as it was submitted: the nightly window is on when it was asked
-- for, and each day with at most 48 entries has all of them, trimmed and in the order of time, with
-- entries of one minute in the order in which they were submitted.
pub set_keeps :
    (i : Info) (s : Scheduler) (d : Weekday)
    → check i ≡ none
    → length (i.days d) ≤ max_schedule_entries
    → ((info_of (set i s).1).days d ≡ sort_entries_by_time (map trimmed (i.days d)))
      × ((info_of (set i s).1).nightly.enabled ≡ i.nightly.enabled)
unfolding set info_of install sanitize_entries
set_keeps i s d hc l =
    let ok = (check_iff i).0 hc in
    (
      rw hc (
          save-field (λ x. x.days d) (install i s) (λ st. refl)
          ∙ ap sort_entries_by_time
              (collect_accepted max_schedule_entries (i.days d) l (ok.entries d))),
      rw hc (
          save-field (λ x. x.nightly_enabled) (install i s) (λ st. refl)
          ∙ nightly_of_accepted i.nightly ok.nightly),
    )

-- A key is never the empty one of a scheduler that was armed.
abbrev IsKeyed : Option Transition → Type 0
IsKeyed none = Unit
IsKeyed (some tr) = text_eq tr.key [] ≡ false

key_of-text_eq : (d : Date) (e : Entry) → text_eq (key_of d e) [] ≡ false
unfolding key_of format_date padded text_eq
key_of-text_eq d e = refl

carried-IsKeyed : (d : Date) (o : Option Entry) → IsKeyed (carried_over d o)
unfolding transition
carried-IsKeyed d none = tt
carried-IsKeyed d (some e) = key_of-text_eq d e

or_carry-IsKeyed :
    (d : Date) (o : Option Entry) (c : Option Transition) → IsKeyed c → IsKeyed (or_carry d o c)
unfolding transition
or_carry-IsKeyed d none c h = h
or_carry-IsKeyed d (some e) c h = key_of-text_eq d e

desired-IsKeyed : (s : Scheduler) (t : Time) → IsKeyed (desired s t)
unfolding desired
desired-IsKeyed s t =
    or_carry-IsKeyed t.date (pick_from none (now_minute t) (effective_entries s t.date))
      (carried_over (day_before t.date) (last? (effective_entries s (day_before t.date))))
      (carried-IsKeyed (day_before t.date) (last? (effective_entries s (day_before t.date))))

fire_armed :
    (s : Scheduler) (tr : Transition)
    → s.last_key ≡ []
    → s.can_fire ≡ true
    → text_eq tr.key [] ≡ false
    → (fire (some tr) s).1 ≡ some tr.action
fire_armed s tr hk hf h = rw (hk, h, hf) refl

set-last_key : (i : Info) (s : Scheduler) → check i ≡ none → (set i s).1.last_key ≡ []
unfolding set install
set-last_key i s hc = rw hc (save-field (λ x. x.last_key) (install i s) (λ st. refl))

set-can_fire : (i : Info) (s : Scheduler) → check i ≡ none → (set i s).1.can_fire ≡ s.can_fire
unfolding set install
set-can_fire i s hc = rw hc (save-field (λ x. x.can_fire) (install i s) (λ st. refl))

-- The first tick after an accepted schedule fires the transition in force at that time, also when it
-- is the one that fired last before.
pub set_arms :
    (i : Info) (s : Scheduler) (t : Time) (tr : Transition)
    → check i ≡ none
    → s.can_fire ≡ true
    → desired (set i s).1 t ≡ some tr
    → (tick t (set i s).1).1 ≡ some tr.action
set_arms i s t tr hc hf hd =
    rw (tick-fire (set i s).1 t, hd)
      (fire_armed (set i s).1 tr (set-last_key i s hc) (set-can_fire i s hc ∙ hf)
        (subst IsKeyed hd (desired-IsKeyed (set i s).1 t)))
