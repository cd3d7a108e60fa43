-- ===== src/Schedule/Sanitize.antt =====
-- `sanitizeEntries`, `sanitizeExceptions` and `sanitizeNightly` (agent/weekly.go).
use sideshow.Base.{
  ℕ, zero, suc, Bool, not, ◌&&◌, List, [], ◌∷◌, leb, if◌then◌else◌, is_some, Text, is_empty,
  text_eq, trim_space,
}
use sideshow.Schedule.{Entry, Exception, Nightly}
use sideshow.Schedule.Clock.{parse_hhmm, minute_of}
use sideshow.Schedule.Calendar.{valid_schedule_date}

abbrev pub max_schedule_entries : ℕ
max_schedule_entries = 48

unfoldable pub minute : Entry → ℕ
unfolding minute_of
minute e = minute_of e.at

unfoldable pub insert_by_time : Entry → List Entry → List Entry
insert_by_time e [] = e ∷ []
insert_by_time e (x ∷ xs) =
    let rest = insert_by_time e xs in if leb (minute e) (minute x) then e ∷ (x ∷ xs) else x ∷ rest

-- `sort.SliceStable` by the time of day
unfoldable pub sort_entries_by_time : List Entry → List Entry
unfolding insert_by_time minute
sort_entries_by_time [] = []
sort_entries_by_time (e ∷ es) = insert_by_time e (sort_entries_by_time es)

unfoldable pub trimmed : Entry → Entry
trimmed e = record { at = trim_space e.at; action = trim_space e.action }

unfoldable pub is_usable : Entry → Bool
unfolding parse_hhmm
is_usable e = not (is_empty e.action) && is_some (parse_hhmm e.at)

-- The loop of `sanitizeEntries`, with the room that is left before it breaks off.
unfoldable pub collect_entries : ℕ → List Entry → List Entry
unfolding trimmed is_usable
collect_entries zero es = []
collect_entries (suc room) [] = []
collect_entries (suc room) (e ∷ es) =
    let taken = collect_entries room es in
    let skipped = collect_entries (suc room) es in
    if is_usable (trimmed e) then trimmed e ∷ taken else skipped

unfoldable pub sanitize_entries : List Entry → List Entry
unfolding sort_entries_by_time collect_entries
sanitize_entries es = sort_entries_by_time (collect_entries max_schedule_entries es)

unfoldable pub sanitize_exceptions : List Exception → List Exception
unfolding sanitize_entries valid_schedule_date
sanitize_exceptions [] = []
sanitize_exceptions (ex ∷ exs) =
    let rest = sanitize_exceptions exs in
    if valid_schedule_date ex.date
    then record { date = ex.date; entries = sanitize_entries ex.entries } ∷ rest
    else rest

-- A time that is not one is dropped.
unfoldable pub time_or_empty : Text → Text
unfolding trim_space parse_hhmm
time_or_empty s = if is_some (parse_hhmm (trim_space s)) then trim_space s else []

unfoldable pub sanitize_nightly : Nightly → Nightly
unfolding time_or_empty
sanitize_nightly n =
    let sleep_at = time_or_empty n.sleep in
    let wake_at = time_or_empty n.wake in
    record {
      enabled =
          n.enabled
          && not (is_empty sleep_at)
          && not (is_empty wake_at)
          && not (text_eq sleep_at wake_at);
      sleep = sleep_at;
      wake = wake_at;
    }
