-- ===== src/Schedule/Latest.antt =====
-- What `desiredLocked` resolves to (agent/weekly.go), against a reading of the unsorted timeline.
use sideshow.Base.{
  ℕ, ◌≤◌, ◌<◌, ◌≡◌, ◌⊎◌, refl, ◌∙◌, true, some, List, [], ◌∷◌, ◌++◌, All, inl, inr, arith,
}
use sideshow.Schedule.{Entry}
use sideshow.Schedule.Calendar.{Time, day_before}
use sideshow.Schedule.Sanitize.{minute}
use sideshow.Schedule.Timeline.{
  Scheduler, transition, nightly_pair, day_entries, merged_entries, effective_entries, now_minute,
  carried_over, or_carry, desired,
}
use sideshow.Schedule.Picked.{consider, latest, pick-sort, last-sort}

-- The transition in force at a time is the latest one of the merged timeline up to that minute, and
-- before the first one of the day the latest of the day before. Among transitions of one minute
-- the one further behind counts, and a day's own entries stand behind the nightly pair.
pub desired-latest :
    (s : Scheduler) (t : Time)
    → desired s t
      ≡ or_carry t.date
          (latest (now_minute t) (merged_entries s t.date))
          (carried_over (day_before t.date) (latest 1439 (merged_entries s (day_before t.date))))
unfolding desired effective_entries
desired-latest s t =
    rw
      (
        pick-sort (now_minute t) (merged_entries s t.date),
        last-sort (merged_entries s (day_before t.date)),
      )
      refl

passed_over :
    (m : ℕ) (x e : Entry) → (minute x ≤ minute e) ⊎ (m < minute x) → consider m x (some e) ≡ some e
passed_over m x e (inl a) = ground arith
passed_over m x e (inr a) = ground arith

latest-append :
    (m : ℕ) (xs ys : List Entry) (e : Entry)
    → latest m ys ≡ some e
    → All (λ x. (minute x ≤ minute e) ⊎ (m < minute x)) xs
    → latest m (xs ++ ys) ≡ some e
unfolding latest
latest-append m [] ys e h hs = h
latest-append m (x ∷ xs) ys e h hs = rw (latest-append m xs ys e h hs.1) (passed_over m x e hs.0)

-- A day's own entry wins over the nightly pair: when the latest of the day's own entries is no
-- earlier than the nightly transitions that have passed, it is the transition in force.
pub explicit_wins :
    (s : Scheduler) (t : Time) (e : Entry)
    → s.enabled ≡ true
    → latest (now_minute t) (day_entries s t.date) ≡ some e
    → All (λ x. (minute x ≤ minute e) ⊎ (now_minute t < minute x)) (nightly_pair s)
    → desired s t ≡ some (transition t.date e)
unfolding merged_entries
explicit_wins s t e he hl hs =
    desired-latest s t
    ∙ rw (he, latest-append (now_minute t) (nightly_pair s) (day_entries s t.date) e hl hs) refl
