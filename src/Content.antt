-- ===== src/Content.antt =====
-- What the web kiosk shows besides its page (agent/content.go): the periodic reload, a document, and
-- the content of the outputs. Its calls of the supervisor are those of the modules under Supervisor.
-- Times are milliseconds of a clock, and `none` is the zero time.
pub mod Manage
pub mod Owner
pub mod Restart
use sideshow.Base.{ℕ, Bool, Option, List, Text, ℤ}

-- `OutputContent`
pub record OutputContent : Type 0 where
  pub type : Text
  pub url : Text
  pub path : Text

-- `persistedContent`
pub record Kept : Type 0 where
  pub reload_min : ℤ
  pub src : Text
  pub auto_advance_s : ℤ
  pub enabled : Bool
  pub outputs : List (Text × OutputContent)

-- `content.json`: whether there is a path, whether a write gets through, and what it holds, `none`
-- where it cannot be read or decoded.
pub record Disk : Type 0 where
  pub has_path : Bool
  pub writable : Bool
  pub file : Option Kept

-- `Content`
pub record Content : Type 0 where
  pub kept : Kept
  pub last_reload : Option ℕ
  pub last_advance : Option ℕ
  pub docs_dir : Text
  pub local_base : Text
  pub disk : Disk
