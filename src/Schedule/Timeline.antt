-- ===== src/Schedule/Timeline.antt =====
-- The timeline of a day (agent/weekly.go): `dayEntriesLocked`, `effectiveEntriesLocked` and
-- `desiredLocked`, with the state that they read.
use sideshow.Base.{
  ℕ, ◌+◌, ◌*◌, Bool, Option, none, some, List, [], ◌∷◌, ◌++◌, leb, if◌then◌else◌, last?, Text, text,
  text_eq,
}
use sideshow.Schedule.{Entry, Exception, Days, Persisted}
use sideshow.Schedule.Calendar.{Date, Time, format_date, weekday, day_before}
use sideshow.Schedule.Sanitize.{minute, sort_entries_by_time}

-- `schedule.json`: whether there is a path and whether a write gets through, and what it holds, where
-- `none` is a file that cannot be read or decoded.
pub record Store : Type 0 where
  pub has_path : Bool
  pub writable : Bool
  pub file : Option Persisted

-- The fields of `Scheduler`; `can_fire` is `s.fire != nil`.
pub record Scheduler : Type 0 where
  pub can_fire : Bool
  pub enabled : Bool
  pub days : Days
  pub exceptions : List Exception
  pub last_key : Text
  pub nightly_enabled : Bool
  pub nightly_sleep : Text
  pub nightly_wake : Text
  pub nightly_loaded : Bool
  pub store : Store

abbrev pub schedule_sleep_action : Text
schedule_sleep_action = text "@sleep"

abbrev pub schedule_wake_action : Text
schedule_wake_action = text "@wake"

-- The first exception for the date, or else the entries of the weekday.
unfoldable pub entries_for : Text → List Exception → List Entry → List Entry
unfolding text_eq
entries_for ds [] usual = usual
entries_for ds (ex ∷ exs) usual =
    if text_eq ex.date ds then ex.entries else entries_for ds exs usual

unfoldable pub day_entries : Scheduler → Date → List Entry
unfolding entries_for format_date weekday
day_entries s d = entries_for (format_date d) s.exceptions (s.days (weekday d))

abbrev pub nightly_pair : Scheduler → List Entry
nightly_pair s =
    if s.nightly_enabled
    then record { at = s.nightly_sleep; action = schedule_sleep_action }
      ∷ record { at = s.nightly_wake; action = schedule_wake_action }
      ∷ []
    else []

-- What is merged for a day, the nightly pair first.
unfoldable pub merged_entries : Scheduler → Date → List Entry
unfolding day_entries
merged_entries s d = nightly_pair s ++ (if s.enabled then day_entries s d else [])

unfoldable pub effective_entries : Scheduler → Date → List Entry
unfolding merged_entries sort_entries_by_time
effective_entries s d = sort_entries_by_time (merged_entries s d)

-- The loop of `desiredLocked`, with its pick so far.
unfoldable pub pick_from : Option Entry → ℕ → List Entry → Option Entry
unfolding minute
pick_from best now [] = best
pick_from best now (e ∷ es) =
    let later = pick_from (some e) now es in if leb (minute e) now then later else best

pub record Transition : Type 0 where
  pub key : Text
  pub action : Text

-- `t.Format("2006-01-02") + "T" + e.At + "|" + e.Action`
unfoldable pub key_of : Date → Entry → Text
unfolding format_date
key_of d e = format_date d ++ text "T" ++ e.at ++ text "|" ++ e.action

unfoldable pub transition : Date → Entry → Transition
unfolding key_of
transition d e = record { key = key_of d e; action = e.action }

-- The day and the entry in force: of the day, or carried over from the day before.
abbrev pub carried_over : Date → Option Entry → Option Transition
carried_over d none = none
carried_over d (some e) = some (transition d e)

abbrev pub or_carry : Date → Option Entry → Option Transition → Option Transition
or_carry d none carried = carried
or_carry d (some e) carried = some (transition d e)

abbrev pub now_minute : Time → ℕ
now_minute t = t.hour * 60 + t.minute

unfoldable pub desired : Scheduler → Time → Option Transition
unfolding effective_entries pick_from transition day_before
desired s t =
    let y = day_before t.date in
    or_carry t.date (pick_from none (now_minute t) (effective_entries s t.date))
      (carried_over y (last? (effective_entries s y)))
