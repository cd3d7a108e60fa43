-- ===== src/Supervisor/Ownership/Screen.antt =====
-- What only touches the screen and the browser leaves the slots and the children alone.
use sideshow.Base.{refl, ℕ, zero, suc, Bool, Text}
use sideshow.Mode.{Mode}
use sideshow.Mode.Command.{Command, mode_command, built, failed}
use sideshow.Supervisor.World.{Query, ask, set_attached, set_vt, target, settled}
use sideshow.Supervisor.Surface.{
  activate_vt, find_program, detach, navigate, connect, attach, preflight, post_start,
}
use sideshow.Supervisor.Ownership.Logic.{
  Core, core, Holds, Neutral, Neutral-bind, Neutral-gets, neutral_rules, Holds-neutral, Holds-bind,
  Holds-then, Holds-if, Holds-pure, Holds-after, Holds-after_then,
}

pub Neutral-ask : (q : Query) → Neutral (ask q)
unfolding ask
Neutral-ask q = record { same = λ w. refl }

pub Neutral-set_attached : (b : Bool) → Neutral (set_attached b)
unfolding set_attached
Neutral-set_attached b = record { same = λ w. refl }

pub Neutral-set_vt : (n : ℕ) → Neutral (set_vt n)
unfolding set_vt
Neutral-set_vt n = record { same = λ w. refl }

pub Neutral-target : (n : ℕ) → Neutral (target n)
unfolding target
Neutral-target n = record { same = λ w. refl }

pub Neutral-settled : Neutral settled
unfolding settled
Neutral-settled = record { same = λ w. refl }

ruleset screen_rules = (neutral_rules, Neutral-ask, Neutral-set_attached, Neutral-set_vt)

pub Neutral-activate_vt : (n : ℕ) → Neutral (activate_vt n)
unfolding activate_vt
Neutral-activate_vt zero = search screen_rules
Neutral-activate_vt (suc n) = search screen_rules depth 8

pub Neutral-detach : Neutral detach
unfolding detach
Neutral-detach = search screen_rules

pub Neutral-navigate : (url : Text) → Neutral (navigate url)
unfolding navigate
Neutral-navigate url = search screen_rules depth 8

pub Neutral-connect : Neutral connect
unfolding connect
Neutral-connect = search screen_rules depth 8

pub Neutral-attach : (url : Text) → Neutral (attach url)
unfolding attach
Neutral-attach url = search screen_rules depth 12

pub Neutral-post_start : (m : Mode) → Neutral (post_start m)
unfolding post_start
Neutral-post_start m = search screen_rules depth 14

pub ruleset calm_rules = (
  neutral_rules, Neutral-ask, Neutral-activate_vt, Neutral-detach, Neutral-navigate, Neutral-attach,
  Neutral-connect, Neutral-target, Neutral-settled,
)

Neutral-find_program : (c : Command) → Neutral (find_program c)
unfolding find_program
Neutral-find_program (failed e) = search screen_rules
Neutral-find_program (built name args) = search screen_rules

pub Neutral-preflight : (m : Mode) → Neutral (preflight m)
unfolding preflight
Neutral-preflight m =
    Neutral-bind _ _ (Neutral-gets _) (λ cfg. Neutral-find_program (mode_command cfg m))
