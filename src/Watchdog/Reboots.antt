-- ===== src/Watchdog/Reboots.antt =====
-- The reboots on record (`allowReboot`, `saveLedger`, `clearLedger` of agent/watchdog.go). Times are
-- seconds.
use sideshow.Base.{
  ℕ, ◌+◌, Bool, true, false, ◌&&◌, Option, none, some, List, [], ◌∷◌, ◌++◌, keep_if, length, leb,
  if◌then◌else◌,
}

abbrev pub max_reboots_per_window : ℕ
max_reboots_per_window = 3

abbrev pub reboot_window : ℕ
reboot_window = 3600

-- `watchdog-reboots.json`: whether the node has a state file beside which it stands, whether a
-- write or a removal gets through, and the times in it, `none` where there is no file.
pub record Ledger : Type 0 where
  pub has_path : Bool
  pub writable : Bool
  pub file : Option (List ℕ)

-- The times that are read; a file that is missing reads as none.
abbrev pub times_of : Option (List ℕ) → List ℕ
times_of none = []
times_of (some ts) = ts

abbrev pub read_times : Ledger → List ℕ
read_times l = if l.has_path then times_of l.file else []

-- `t >= cutoff`
abbrev pub is_kept : ℕ → ℕ → Bool
is_kept now t = leb now (t + reboot_window)

unfoldable pub save_ledger : List ℕ → Ledger → Ledger
save_ledger ts l = if l.has_path && l.writable then record l { file = some ts } else l

unfoldable pub clear_ledger : Ledger → Ledger
clear_ledger l = if l.has_path && l.writable then record l { file = none } else l

-- Whether a reboot may be made, and the ledger after that. The clock is read for the cutoff and
-- then for the record.
unfoldable pub allow_reboot : ℕ → ℕ → Ledger → Ledger × Bool
allow_reboot now stamp l =
    let kept = keep_if (is_kept now) (read_times l) in
    if leb max_reboots_per_window (length kept)
    then (save_ledger kept l, false)
    else (save_ledger (kept ++ stamp ∷ []) l, true)
