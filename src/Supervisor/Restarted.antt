-- ===== src/Supervisor/Restarted.antt =====
-- What `RestartMode` does to a foreground mode (agent/supervisor.go).
use sideshow.Base.{◌≡◌, refl, ◌∙◌, true, false, some, Option}
use sideshow.Mode.Equivalent.{equivalent_equivalence}
use sideshow.Supervisor.World.{running, Runner, World, vt_failed, Try, ◌>>=◌, gets}
use sideshow.Supervisor.Surface.{running_mode, activate_vt}
use sideshow.Supervisor.Switch.{or_failed, switch_foreground, with_token}
use sideshow.Supervisor.Kiosk.{restart_body, restart_mode}
use sideshow.Supervisor.Ownership.Logic.{core, Neutral, Neutral-bind, Neutral-gets}
use sideshow.Supervisor.Ownership.Screen.{Neutral-activate_vt}
use sideshow.Supervisor.Ownership.Foreground.{Neutral-or_failed}

runs_its_mode : (r : Runner) → r.state ≡ running → running_mode r r.mode ≡ true
unfolding running_mode
runs_its_mode r h = rw (h, equivalent_equivalence.0 r.mode) refl

shown_again : Try
shown_again = gets (λ w. w.cfg) >>= λ cfg. activate_vt cfg.mode_vt >>= or_failed vt_failed

Neutral-shown_again : Neutral shown_again
unfolding shown_again
Neutral-shown_again =
    Neutral-bind _ _ (Neutral-gets _)
      (λ cfg. Neutral-bind _ _ (Neutral-activate_vt cfg.mode_vt) (Neutral-or_failed vt_failed))

already_running : (r : Runner) → r.state ≡ running → switch_foreground r.mode (some r) ≡ shown_again
unfolding switch_foreground shown_again
already_running r h = rw (runs_its_mode r h) refl

restart-Neutral :
    (o b : Option Runner) (r : Runner) (w : World)
    → o ≡ some r
    → r.state ≡ running
    → core (restart_body o b w).1 ≡ core w
unfolding restart_body
restart-Neutral o b r w e h = rw (e, already_running r h) (Neutral-shown_again.same w)

with_token-core :
    (body : Try) (w : World)
    → w.switching ≡ false
    → core (with_token body w).1 ≡ core (body (record w { switching = true })).1
unfolding with_token
with_token-core body w h = rw h refl

-- A restart of a running foreground mode gives it no fresh child: the runners and the children are
-- what they were.
pub restart_mode_keeps :
    (r : Runner) (w : World)
    → w.switching ≡ false
    → w.fg_runner ≡ some r
    → r.state ≡ running
    → core (restart_mode w).1 ≡ core w
unfolding restart_mode
restart_mode_keeps r w hs hf hr =
    with_token-core (λ v. restart_body v.fg_runner v.runner v) w hs
    ∙ restart-Neutral w.fg_runner w.runner r (record w { switching = true }) hf hr
