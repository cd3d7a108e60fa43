-- ===== src/Supervisor/Recover.antt =====
-- What happens when a runner ends on its own: `recoverForeground`, `restoreBase` and
-- `recoverPrimary` (agent/supervisor.go), which the run loop calls through `onTerminal` after it
-- has closed `done`; and `Shutdown`.
use sideshow.Base.{
  ℕ, ◌==◌, Bool, true, false, not, ◌||◌, Option, none, some, [], Text, is_empty, if◌then◌else◌,
}
use sideshow.Mode.{Mode, off, is_kind, kind_of}
use sideshow.Supervisor.World.{
  RunState, Hook, no_hook, to_base, to_x, Runner, Failure, Act, ◌>>=◌, ◌>>◌, gets, skip, set_runner,
  set_fg, target, settled, holds, without,
}
use sideshow.Supervisor.Surface.{activate_vt, detach, stop_any, base_vt}
use sideshow.Supervisor.Switch.{start_primary, restore_web_kiosk}

abbrev pub or_kiosk : Option Failure → Act (Unit {0})
or_kiosk none = skip
or_kiosk (some e) = do
  cfg ← gets (λ w. w.cfg)
  activate_vt cfg.x_vt
  target cfg.cdp_port
  restore_web_kiosk [] true

-- `restoreBase`
unfoldable pub restore_base : Mode → Act (Unit {0})
restore_base base =
    if is_empty base.type || is_kind (kind_of base) off
    then (do detach; cfg ← gets (λ w. w.cfg); activate_vt cfg.x_vt; skip)
    else (do e ← start_primary base none; or_kiosk e)

-- Over a base that is there, returning is a VT switch; a KMS mode had torn it down.
unfoldable pub after_foreground : Option Runner → Mode → Act (Unit {0})
unfolding restore_base
after_foreground (some r) base = do back ← gets base_vt; activate_vt back; skip
after_foreground none base = restore_base base

-- `recoverForeground`, after its guard
unfoldable pub return_to_base : Mode → Act (Unit {0})
unfolding after_foreground
return_to_base base = do
  set_fg none
  slot ← gets (λ w. w.runner)
  after_foreground slot base
  settled

-- `recoverPrimary`, after its guard
unfoldable pub return_to_x : Text → Bool → Act (Unit {0})
return_to_x url dark = do
  set_runner none
  detach
  cfg ← gets (λ w. w.cfg)
  target cfg.cdp_port
  activate_vt cfg.x_vt
  restore_web_kiosk url dark
  settled

-- The guard of both: nothing is done if a switch owns the screen, or if the runner is not the
-- installed one.
unfoldable pub recover_with : Bool → Act (Unit {0}) → Act (Unit {0})
recover_with installed body w =
    if w.switching || not installed
    then (tt, w)
    else let (u, w') = body (record w { switching = true }) in (tt, record w' { switching = false })

abbrev pub run_hook : ℕ → Hook → Act (Unit {0})
run_hook i no_hook w = (tt, w)
run_hook i (to_base base) w = recover_with (holds i w.fg_runner) (return_to_base base) w
run_hook i (to_x url dark) w = recover_with (holds i w.runner) (return_to_x url dark) w

unfoldable pub set_state_at : ℕ → RunState → Option Runner → Option Runner
set_state_at i s none = none
set_state_at i s (some r) = if r.id == i then some (record r { state = s }) else some r

-- The run loop changes the state of its runner.
unfoldable pub set_state : ℕ → RunState → Act (Unit {0})
unfolding set_state_at
set_state i s w =
    (tt, record w { runner = set_state_at i s w.runner; fg_runner = set_state_at i s w.fg_runner })

-- `cmd.Wait` has returned.
unfoldable pub reap : ℕ → Act (Unit {0})
reap i w = (tt, record w { live = without i w.live })

-- A run loop ends by itself, in the state `stopped` (a retired mode) or `crashed` (given up): its
-- child is gone, and the hook runs.
unfoldable pub ended : Runner → RunState → Act (Unit {0})
unfolding recover_with return_to_base return_to_x set_state reap
ended r s = do set_state r.id s; reap r.id; run_hook r.id r.hook

-- `Shutdown`
unfoldable pub shutdown : Act (Unit {0})
shutdown = do
  base ← gets (λ w. w.runner)
  fg ← gets (λ w. w.fg_runner)
  set_runner none
  set_fg none
  stop_any fg
  stop_any base
  detach
  cfg ← gets (λ w. w.cfg)
  activate_vt cfg.x_vt
  skip
