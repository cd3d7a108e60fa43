-- ===== src/Actions.antt =====
-- The saved actions of a node (agent/actions.go): named modes that are fired by their slug. The
-- children have the slugs, the store with its operations, and what holds of them.
pub mod Slugs
pub mod Unique
pub mod Store
pub mod Ops
pub mod Distinct
pub mod Words
pub mod Ascending
pub mod Fitting
pub mod Tidy
pub mod Reach
pub mod Found
use sideshow.Base.{ℕ, Bool, Option, List, Text, ℤ}
use sideshow.Mode.{Mode}
use sideshow.Playlist.{PlaylistItem}

-- `ActionPlaylist`
pub record ActionPlaylist : Type 0 where
  pub items : List PlaylistItem
  pub interval_s : ℤ
  pub loop : Bool
  pub shuffle : Bool
  pub transition : Text

-- `Action`. Its index is set by the store, whatever it is given.
pub record Action : Type 0 where
  pub id : Text
  pub slug : Text
  pub index : ℕ
  pub name : Text
  pub mode : Mode
  pub playlist : Option ActionPlaylist

-- `actions.json`: one that is absent, that does not decode, and one that holds actions.
pub data ActionsFile : Type 0 where
  absent garbled : ActionsFile
  holds : List Action → ActionsFile

pub record Disk : Type 0 where
  pub has_path : Bool
  pub writable : Bool
  pub file : ActionsFile

-- `Actions`
pub record Actions : Type 0 where
  pub items : List Action
  pub file_seen : Bool
  pub local_base : Text
  pub disk : Disk
