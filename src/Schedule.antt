-- ===== src/Schedule.antt =====
-- The weekly scheduler (agent/weekly.go): its data. The children have its operations, in the order
-- of the file: the clock and the calendar, the cleaning of what an operator submits, the timeline
-- of a day, and the engine with its edge trigger.
pub mod Clock
pub mod Calendar
pub mod Sanitize
pub mod Timeline
pub mod Engine
pub mod Hours
pub mod Sorted
pub mod Clean
pub mod Picked
pub mod Latest
pub mod Restart
pub mod Ticks
pub mod Accept
pub mod Installed
pub mod Dates
pub mod Keys
pub mod Reach
use sideshow.Base.{Bool, Option, List, [], ◌∷◌, Text}

pub record Entry : Type 0 where
  pub at : Text
  pub action : Text

pub record Exception : Type 0 where
  pub date : Text
  pub entries : List Entry

pub record Nightly : Type 0 where
  pub enabled : Bool
  pub sleep : Text
  pub wake : Text

-- `time.Weekday`
pub data Weekday : Type 0 where
  sunday monday tuesday wednesday thursday friday saturday : Weekday

abbrev pub weekdays : List Weekday
weekdays = sunday ∷ monday ∷ tuesday ∷ wednesday ∷ thursday ∷ friday ∷ saturday ∷ []

-- `[7][]ScheduleEntry`
abbrev pub Days : Type 0
Days = Weekday → List Entry

pub record Info : Type 0 where
  pub enabled : Bool
  pub days : Days
  pub exceptions : List Exception
  pub nightly : Nightly

-- `persistedWeekly`: an absent block of the nightly window is `none`.
pub record Persisted : Type 0 where
  pub enabled : Bool
  pub days : Days
  pub exceptions : List Exception
  pub nightly : Option Nightly
