-- ===== src/Tests/Schedule.antt =====
-- The weekly scheduler (agent/weekly.go).
use sideshow.Base.{ℕ, ◌≡◌, refl, inl, inr, arith, true, none, some, [], ◌∷◌, map, Text, text}
use sideshow.Schedule.{Entry, Info, monday}
use sideshow.Schedule.Clock.{parse_hhmm}
use sideshow.Schedule.Calendar.{Date, Time, weekday, day_before}
use sideshow.Schedule.Sanitize.{trimmed}
use sideshow.Schedule.Timeline.{
  Store, Scheduler, desired, transition, merged_entries, or_carry, carried_over, now_minute,
}
use sideshow.Schedule.Engine.{new_scheduler, set, tick}
use sideshow.Schedule.Picked.{latest}
use sideshow.Schedule.Latest.{desired-latest}
use sideshow.Schedule.Ticks.{quiet_between}
use sideshow.Schedule.Restart.{set_restart}
use sideshow.Schedule.Installed.{set_arms}
use sideshow.Schedule.Keys.{HasNoBar}
use sideshow.Schedule.Reach.{Reach}
use sideshow.Tests.Open.{schedule_open}

abbrev entry : Text → Text → Entry
entry at action = record { at = at; action = action }

abbrev lobby : Entry
lobby = entry (text " 08:00") (text "lobby ")

abbrev evening : Entry
evening = entry (text "22:00") (text "film")

abbrev week : Info
week = record {
  enabled = true;
  days = λ d. evening ∷ lobby ∷ [];
  exceptions = [];
  nightly = record { enabled = true; sleep = text "22:00"; wake = text "6:30" };
}

abbrev disk : Store
disk = record { has_path = true; writable = true; file = none }

abbrev engine : Scheduler
engine = new_scheduler true disk

abbrev planned : Scheduler
planned = (set week engine).1

abbrev a_monday : Date
a_monday = record { year = 2024; month = 1; day = 1 }

abbrev at_time : ℕ → ℕ → Time
at_time h m = record { date = a_monday; hour = h; minute = m }

-- What `Sscanf` lets through.
loose_times :
    map parse_hhmm (text "08:30" ∷ text "8:5" ∷ text "+8:-0x" ∷ text "8 :30" ∷ text "24:00" ∷ [])
    ≡ some 510 ∷ some 485 ∷ some 480 ∷ none ∷ none ∷ []
unfolding schedule_open
loose_times = refl

monday_is_monday : weekday a_monday ≡ monday
unfolding schedule_open
monday_is_monday = refl

leap_day :
    day_before (record { year = 2024; month = 3; day = 1 })
    ≡ record { year = 2024; month = 2; day = 29 }
unfolding schedule_open
leap_day = refl

morning : (tick (at_time 9 0) planned).1 ≡ some (text "lobby")
unfolding schedule_open
morning = refl

-- At the same minute the entry of the day wins over the nightly one.
tie : (tick (at_time 22 0) planned).1 ≡ some (text "film")
unfolding schedule_open
tie = refl

-- In the early hours the last transition of the day before is in force.
carried : (tick (at_time 5 0) planned).1 ≡ some (text "film")
unfolding schedule_open
carried = refl

desired-latest_example :
    desired planned (at_time 9 0)
    ≡ or_carry a_monday (latest (now_minute (at_time 9 0)) (merged_entries planned a_monday)) (
        carried_over
          (day_before a_monday)
          (latest 1439 (merged_entries planned (day_before a_monday))))
desired-latest_example = desired-latest planned (at_time 9 0)

quiet_between_example :
    tick (at_time 21 59) (tick (at_time 9 0) planned).0 ≡ ((tick (at_time 9 0) planned).0, none)
unfolding schedule_open
quiet_between_example =
    quiet_between planned (at_time 9 0) (at_time 21 59) refl (omega arith)
      (inr (omega arith), (inl (omega arith), (inl (omega arith), (inr (omega arith), tt))))

set_restart_example : new_scheduler true (set week engine).1.store ≡ (set week engine).1
unfolding schedule_open
set_restart_example = set_restart week engine refl refl refl

set_arms_example : (tick (at_time 9 0) (set week engine).1).1 ≡ some (text "lobby")
unfolding schedule_open
set_arms_example =
    set_arms week engine (at_time 9 0) (transition a_monday (trimmed lobby)) refl refl refl

no_bar : HasNoBar (text "22:00")
no_bar = (omega arith, (omega arith, (omega arith, (omega arith, (omega arith, tt)))))
