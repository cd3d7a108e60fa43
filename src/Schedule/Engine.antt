-- ===== src/Schedule/Engine.antt =====
-- The engine of the scheduler (agent/weekly.go): `load`, `save`, `Set`, `Info`, `tick` and
-- `MigrateNightly`.
use sideshow.Base.{
  Bool, true, false, not, ◌&&◌, ◌||◌, Option, none, some, List, [], ◌∷◌, if◌then◌else◌, is_some,
  Text, is_empty, text_eq, trim_space,
}
use sideshow.Schedule.{Entry, Exception, Nightly, Weekday, Days, weekdays, Info, Persisted}
use sideshow.Schedule.Clock.{parse_hhmm}
use sideshow.Schedule.Calendar.{Time, valid_schedule_date}
use sideshow.Schedule.Sanitize.{sanitize_entries, sanitize_exceptions, sanitize_nightly}
use sideshow.Schedule.Timeline.{Store, Scheduler, Transition, desired}

abbrev pub nightly_of : Scheduler → Nightly
nightly_of s = record {
  enabled = s.nightly_enabled;
  sleep = s.nightly_sleep;
  wake = s.nightly_wake;
}

abbrev pub with_nightly : Nightly → Scheduler → Scheduler
with_nightly n s = record s {
  nightly_enabled = n.enabled;
  nightly_sleep = n.sleep;
  nightly_wake = n.wake;
  nightly_loaded = true;
}

unfoldable pub persisted : Scheduler → Persisted
persisted s = record {
  enabled = s.enabled;
  days = s.days;
  exceptions = s.exceptions;
  nightly = if s.nightly_loaded then some (nightly_of s) else none;
}

-- A write that fails leaves the file as it was, since it is replaced by a rename.
unfoldable pub save : Scheduler → Scheduler
unfolding persisted
save s =
    if s.store.has_path && s.store.writable
    then record s { store = record s.store { file = some (persisted s) } }
    else s

abbrev pub load_nightly : Option Nightly → Scheduler → Scheduler
load_nightly none s = s
load_nightly (some n) s = with_nightly (sanitize_nightly n) s

abbrev pub load_persisted : Option Persisted → Scheduler → Scheduler
load_persisted none s = s
load_persisted (some p) s = load_nightly p.nightly (record s {
  enabled = p.enabled;
  days = λ d. sanitize_entries (p.days d);
  exceptions = sanitize_exceptions p.exceptions;
})

unfoldable pub load : Scheduler → Scheduler
unfolding sanitize_entries sanitize_exceptions sanitize_nightly
load s = if s.store.has_path then load_persisted s.store.file s else s

abbrev pub fresh_scheduler : Bool → Store → Scheduler
fresh_scheduler can_fire store = record {
  can_fire = can_fire;
  enabled = false;
  days = λ d. [];
  exceptions = [];
  last_key = [];
  nightly_enabled = false;
  nightly_sleep = [];
  nightly_wake = [];
  nightly_loaded = false;
  store = store;
}

-- `NewScheduler`
unfoldable pub new_scheduler : Bool → Store → Scheduler
unfolding load
new_scheduler can_fire store = load (fresh_scheduler can_fire store)

-- The errors of `Set`, each with the code 400.
pub data ScheduleError : Type 0 where
  bad_time no_action bad_date bad_sleep bad_wake equal_times : ScheduleError

abbrev pub first_error : Option ScheduleError → Option ScheduleError → Option ScheduleError
first_error none next = next
first_error (some e) next = some e

abbrev pub refuse : Bool → ScheduleError → Option ScheduleError
refuse true e = some e
refuse false e = none

abbrev pub is_time : Text → Bool
is_time s = is_some (parse_hhmm (trim_space s))

unfoldable pub check_entries : List Entry → Option ScheduleError
unfolding parse_hhmm trim_space
check_entries [] = none
check_entries (e ∷ es) =
    first_error (refuse (not (is_time e.at)) bad_time)
      (first_error (refuse (is_empty (trim_space e.action)) no_action) (check_entries es))

unfoldable pub check_days : List Weekday → Days → Option ScheduleError
unfolding check_entries
check_days [] days = none
check_days (d ∷ ds) days = first_error (check_entries (days d)) (check_days ds days)

unfoldable pub check_exceptions : List Exception → Option ScheduleError
unfolding valid_schedule_date
check_exceptions [] = none
check_exceptions (ex ∷ exs) =
    first_error (refuse (not (valid_schedule_date ex.date)) bad_date) (check_exceptions exs)

unfoldable pub check_nightly : Nightly → Option ScheduleError
unfolding parse_hhmm trim_space text_eq
check_nightly n =
    if n.enabled
    then first_error (refuse (not (is_time n.sleep)) bad_sleep) (
        first_error (refuse (not (is_time n.wake)) bad_wake)
          (refuse (text_eq (trim_space n.sleep) (trim_space n.wake)) equal_times))
    else none

unfoldable pub check : Info → Option ScheduleError
unfolding check_days check_exceptions check_nightly
check i =
    first_error (check_days weekdays i.days)
      (first_error (check_exceptions i.exceptions) (check_nightly i.nightly))

-- What `Set` assigns before it saves.
unfoldable pub install : Info → Scheduler → Scheduler
unfolding sanitize_entries sanitize_exceptions sanitize_nightly
install i s = with_nightly (sanitize_nightly i.nightly) (record s {
  enabled = i.enabled;
  days = λ d. sanitize_entries (i.days d);
  exceptions = sanitize_exceptions i.exceptions;
  last_key = [];
})

abbrev pub set_after : Option ScheduleError → Info → Scheduler → Option ScheduleError × Scheduler
set_after (some e) i s = (some e, s)
set_after none i s = (none, save (install i s))

-- `Set`, which on success answers with `info_of` of the new state
unfoldable pub set : Info → Scheduler → Option ScheduleError × Scheduler
unfolding check save install
set i s = set_after (check i) i s

-- `Info`
unfoldable pub info_of : Scheduler → Info
info_of s = record {
  enabled = s.enabled;
  days = s.days;
  exceptions = s.exceptions;
  nightly = nightly_of s;
}

abbrev pub fire : Option Transition → Scheduler → Scheduler × Option Text
fire none s = (s, none)
fire (some tr) s =
    if text_eq tr.key s.last_key
    then (s, none)
    else (record s { last_key = tr.key }, if s.can_fire then some tr.action else none)

-- `tick`, with the action that it fires. The error of the action is only logged.
unfoldable pub tick : Time → Scheduler → Scheduler × Option Text
unfolding desired text_eq
tick now s = if not s.enabled && not s.nightly_enabled then (s, none) else fire (desired s now) s

-- `MigrateNightly`
unfoldable pub migrate_nightly : Nightly → Scheduler → Scheduler
unfolding save sanitize_nightly
migrate_nightly n s =
    if s.nightly_loaded || (is_empty n.sleep && is_empty n.wake)
    then s
    else save (with_nightly (sanitize_nightly n) (record s { last_key = [] }))
