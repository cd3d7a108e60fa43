-- ===== src/Watchdog.antt =====
-- The watchdog (agent/watchdog.go): the body of its loop on the counters it keeps, the ledger of
-- reboots that is kept in a file, and the calls it makes. The network probe, the clock, the status
-- of the supervisor and the answer of a re-attach are what a round is given.
pub mod Reboots
pub mod Window
pub mod Wedged
pub mod Calm
use sideshow.Base.{
  ℕ, suc, ◌+◌, Bool, true, false, ◌&&◌, not, List, [], ◌∷◌, ◌++◌, leb, if◌then◌else◌, Text, text,
  text_eq,
}
use sideshow.Mode.{web, kms, kind, is_kind, surface, is_surface}
use sideshow.Supervisor.World.{RunState, starting, running, crashed, stopped}
use sideshow.Watchdog.Reboots.{Ledger, allow_reboot, clear_ledger}

-- The calls with an effect outside: `ReloadWeb`, `ReattachWeb`, `RestartMode`, and `systemctl reboot`
-- with the time at which the ledger has it.
pub data Call : Type 0 where
  reload reattach restart : Call
  reboot : ℕ → Call

-- The locals of `loop`, and the ledger.
pub record Watch : Type 0 where
  pub online : Bool
  pub wedge : ℕ
  pub down_streak : ℕ
  pub wedge_restarts : ℕ
  pub ledger : Ledger

-- What one round reads: the probe, the status, whether the browser is attached before and after a
-- re-attach and whether that failed, and the clock at the two places that read it.
pub record Round : Type 0 where
  pub up : Bool
  pub type : Text
  pub display : Text
  pub state : RunState
  pub attached : Bool
  pub reattach_fails : Bool
  pub reattached : Bool
  pub now : ℕ
  pub stamp : ℕ

pub data Health : Type 0 where
  ok degraded down : Health

-- `health(st)`
abbrev pub health : RunState → Health
health running = ok
health starting = degraded
health crashed = down
health stopped = ok

abbrev pub is_down : Health → Bool
is_down down = true
is_down _ = false

abbrev pub is_running : RunState → Bool
is_running running = true
is_running _ = false

-- A web kiosk runs that the agent should be able to drive and cannot.
unfoldable pub is_wedged : Round → Bool
is_wedged r =
    r.up
    && is_kind (kind r.type) web
    && not (is_surface (surface r.display) kms)
    && is_running r.state
    && not r.attached

-- The recovery of the network.
unfoldable pub note_network : Round → Watch → Watch × List Call
note_network r w = (record w { online = r.up }, if r.up && not w.online then reload ∷ [] else [])

-- A reboot that the ledger allows.
unfoldable pub try_reboot : Round → Watch → Watch × List Call
try_reboot r w =
    let asked = allow_reboot r.now r.stamp w.ledger in
    (record w { ledger = asked.0 }, if asked.1 then reboot r.stamp ∷ [] else [])

-- `case wedge >= 4`
unfoldable pub relaunch : Bool → Round → Watch → Watch × List Call
relaunch may_reboot r w =
    let w' : Watch = record w { wedge = 0; wedge_restarts = suc w.wedge_restarts } in
    if may_reboot && leb 3 w'.wedge_restarts
    then (record (try_reboot r w').0 { wedge_restarts = 0 }, restart ∷ (try_reboot r w').1)
    else (w', restart ∷ [])

-- `case wedge >= 2`
unfoldable pub try_reattach : Round → Watch → Watch × List Call
try_reattach r w =
    (if not r.reattach_fails && r.reattached then record w { wedge = 0 } else w, reattach ∷ [])

-- The escalation of a wedge that was counted.
unfoldable pub escalate : Bool → Round → Watch → Watch × List Call
escalate may_reboot r w =
    if leb 4 w.wedge
    then relaunch may_reboot r w
    else if leb 2 w.wedge
    then try_reattach r w
    else (w, [])

unfoldable pub check_wedge : Bool → Round → Watch → Watch × List Call
check_wedge may_reboot r w =
    if is_wedged r
    then escalate may_reboot r (record w { wedge = suc w.wedge })
    else (record w { wedge = 0; wedge_restarts = 0 }, [])

unfoldable pub count_down : Round → Watch → Watch
count_down r w =
    if is_down (health r.state)
    then record w { down_streak = suc w.down_streak }
    else record w { down_streak = 0; ledger = clear_ledger w.ledger }

unfoldable pub check_down : Bool → Round → Watch → Watch × List Call
check_down may_reboot r w =
    if may_reboot && leb 10 w.down_streak
    then (record (try_reboot r w).0 { down_streak = 0 }, (try_reboot r w).1)
    else (w, [])

-- One round of the loop, with the calls it makes in their order.
unfoldable pub watch_step : Bool → Round → Watch → Watch × List Call
watch_step may_reboot r w =
    let a = note_network r w in
    let b = check_wedge may_reboot r a.0 in
    let c = check_down may_reboot r (count_down r b.0) in (c.0, a.1 ++ b.1 ++ c.1)

-- Round after round.
unfoldable pub watch_rounds : Bool → List Round → Watch → Watch × List Call
watch_rounds may_reboot [] w = (w, [])
watch_rounds may_reboot (r ∷ rs) w =
    let a = watch_step may_reboot r w in let b = watch_rounds may_reboot rs a.0 in (b.0, a.1 ++ b.1)

-- The loop begins after a boot: the counters at 0, and the ledger as the file has it.
abbrev pub begin : Bool → Ledger → Watch
begin up l = record { online = up; wedge = 0; down_streak = 0; wedge_restarts = 0; ledger = l }
