-- ===== src/Supervisor/Ownership/Switching.antt =====
-- `Switch` keeps the screen settled.
use sideshow.Base.{refl, inl, inr, Bool, true, false, Option, none, some, Bool-cases, if◌then◌else◌}
use sideshow.Mode.{Mode}
use sideshow.Supervisor.World.{World, pure}
use sideshow.Supervisor.Ownership.Logic.{core}
use sideshow.Supervisor.Ownership.Invariant.{IsSettled}
use sideshow.Mode.{foreground, normalize}
use sideshow.Mode.Validate.{ModeError, validate}
use sideshow.Supervisor.World.{Try, vt_collision}
use sideshow.Supervisor.Switch.{
  switch_foreground, switch_body, with_token, checked, switch, collides,
}
use sideshow.Supervisor.Ownership.Slots.{IsSettled-without_fg}
use sideshow.Supervisor.Ownership.Foreground.{Holds-switch_foreground}
use sideshow.Supervisor.Ownership.Compositor.{Holds-switch_compositor}

abbrev pub KeepsSettled : Try → Type 0
KeepsSettled m = (w : World) → IsSettled (core w) → IsSettled (core (m w).1)

switch_body-IsSettled : (m : Mode) → KeepsSettled (switch_body m)
unfolding switch_body
switch_body-IsSettled m w s = elim (Bool-cases (foreground m)) [
  | inl f ↦ rw f (foreground_part (collides w.cfg w.runner))
  | inr c ↦ rw c (
      IsSettled-without_fg _
        ((Holds-switch_compositor w.runner w.fg_runner m).at w (s.children, refl, refl)))
]
  where
    foreground_part :
        (b : Bool)
        → IsSettled
            (core (if b then (some vt_collision, w) else switch_foreground m w.fg_runner w).1)
    foreground_part true = s
    foreground_part false = (Holds-switch_foreground w.runner w.fg_runner m).at w (s, refl, refl)

pub with_token-IsSettled : (body : Try) → KeepsSettled body → KeepsSettled (with_token body)
unfolding with_token
with_token-IsSettled body keep w s = elim (Bool-cases w.switching) [
  | inl e ↦ rw e s
  | inr e ↦ rw e (keep (record w { switching = true }) s)
]

checked-IsSettled :
    (e : Option ModeError) (body : Try) → KeepsSettled body → KeepsSettled (checked e body)
unfolding pure
checked-IsSettled none body keep = keep
checked-IsSettled (some e) body keep = λ w s. s

-- Whatever the mode, valid or not, and whatever the system answers, `Switch` keeps every child
-- owned by one installed runner and keeps a KMS mode alone on the screen.
pub switch-IsSettled : (m : Mode) (w : World) → IsSettled (core w) → IsSettled (core (switch m w).1)
unfolding switch
switch-IsSettled m =
    checked-IsSettled (validate (normalize m)) (with_token (switch_body (normalize m)))
      (with_token-IsSettled (switch_body (normalize m)) (switch_body-IsSettled (normalize m)))
