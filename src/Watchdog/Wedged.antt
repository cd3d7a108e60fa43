-- ===== src/Watchdog/Wedged.antt =====
-- A kiosk that stays wedged (agent/watchdog.go): how the calls escalate, and that its reboots escape
-- the ceiling.
use sideshow.Base.{ℕ, ◌+◌, ◌*◌, ◌≤◌, ◌≡◌, true, false, List, []}
use sideshow.Watchdog.{Watch, Round, is_wedged}
use sideshow.Watchdog.Reboots.{Ledger, read_times}

-- The kiosk is wedged, and a re-attach does not help.
abbrev pub IsStuck : Round → Type 0
IsStuck r = (is_wedged r ≡ true) × (r.reattached ≡ false)

-- A ledger without reboots on record that can be written.
abbrev pub IsFree : Ledger → Type 0
IsFree l = (l.writable ≡ true) × (read_times l ≡ [])

-- The stuck rounds since the last reboot, or since the begin.
abbrev pub stuck_for : Watch → ℕ
stuck_for w = w.wedge + 4 * w.wedge_restarts

abbrev IsAhead : Watch → Type 0
IsAhead w = (w.wedge ≤ 3) × (w.wedge_restarts ≤ 2) × (w.ledger.writable ≡ true)

abbrev pub IsStreak : Watch → Type 0
IsStreak w = (w.wedge ≤ 3) × (w.wedge_restarts ≤ 2) × IsFree w.ledger
