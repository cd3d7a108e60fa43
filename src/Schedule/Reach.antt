-- ===== src/Schedule/Reach.antt =====
-- The scheduler through its operations, in any order (agent/weekly.go).
use sideshow.Base.{◌≡◌, Bool, true, All}
use sideshow.Schedule.{Exception, Nightly, Weekday, Info}
use sideshow.Schedule.Calendar.{Time, valid_schedule_date}
use sideshow.Schedule.Clean.{IsClean, IsWindow}
use sideshow.Schedule.Timeline.{Store, Scheduler}
use sideshow.Schedule.Engine.{nightly_of, new_scheduler, set, tick, migrate_nightly}

abbrev pub IsCleanException : Exception → Type 0
IsCleanException ex = (valid_schedule_date ex.date ≡ true) × IsClean ex.entries

-- What an engine that holds its schedule clean promises to the timeline and to a restart.
pub record IsReady (s : Scheduler) : Type 0 where
  pub days : (d : Weekday) → IsClean (s.days d)
  pub exceptions : All IsCleanException s.exceptions
  pub nightly : IsWindow (nightly_of s)

-- An operation of the engine, a restart of the agent, or a change of the disk from outside.
pub data Step : Scheduler → Scheduler → Type 0 where
  setting : {s : Scheduler} (i : Info) → Step s (set i s).1
  ticking : {s : Scheduler} (t : Time) → Step s (tick t s).0
  migrating : {s : Scheduler} (n : Nightly) → Step s (migrate_nightly n s)
  restarting : {s : Scheduler} → Step s (new_scheduler s.can_fire s.store)
  disk_changing : {s : Scheduler} (st : Store) → Step s (record s { store = st })

pub data Reach : Scheduler → Type 0 where
  started : (can_fire : Bool) (st : Store) → Reach (new_scheduler can_fire st)
  then_step : {s s' : Scheduler} → Reach s → Step s s' → Reach s'
