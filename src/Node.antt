-- ===== src/Node.antt =====
-- The state of a node (agent/state.go): the active mode, the history of what was shown, and the
-- saved custom modes. The children have the operations and what holds of them.
pub mod Ident
pub mod Ops
pub mod Launchers
pub mod Reread
pub mod Lists
pub mod History
pub mod Reboot
pub mod Lookup
pub mod Custom
pub mod Launch
use sideshow.Base.{Bool, Option, List, Text}
use sideshow.Mode.{Mode}

pub record HistoryItem : Type 0 where
  pub id : Text
  pub at : Text
  pub type : Text
  pub label : Text
  pub mode : Mode

pub record CustomMode : Type 0 where
  pub id : Text
  pub name : Text
  pub command : Text
  pub args : List Text
  pub display : Text
  pub env : List (Text × Text)

-- What `persistedState` holds, and with it the fields of `State` that a restart keeps.
pub record Kept : Type 0 where
  pub active : Option Mode
  pub setup_complete : Bool
  pub history : List HistoryItem
  pub custom_modes : List CustomMode
  pub local_input : Option Bool

-- `state.json`: whether there is a path and whether a write gets through, and what it holds, where
-- `none` is a file that cannot be read or decoded.
pub record Disk : Type 0 where
  pub has_path : Bool
  pub writable : Bool
  pub file : Option Kept

-- `State`
pub record State : Type 0 where
  pub kept : Kept
  pub disk : Disk
