-- ===== src/Supervisor/Shown.antt =====
-- What a successful switch shows.
pub mod Claim
pub mod Foreground
pub mod Base
use sideshow.Base.{
  ◌≡◌, refl, ap, ◌∙◌, Bool, true, false, not, ◌&&◌, Option, none, some, arith, is_some, Bool-cases,
  inl, inr, if◌then◌else◌,
}
use sideshow.Mode.{
  Mode, web, off, kms, is_kind, is_surface, kind_of, surface_of, is_cog_kiosk, foreground,
  normalize,
}
use sideshow.Mode.Equivalent.{equivalent, equivalent_equivalence}
use sideshow.Mode.Command.{Config}
use sideshow.Mode.Validate.{ModeError, validate}
use sideshow.Supervisor.World.{
  Hook, to_base, Runner, World, Failure, vt_collision, vt_failed, preflight_failed, cog_failed,
  start_failed, navigate_failed, cog_bus, Act, Try, pure, ◌>>=◌, ◌>>◌, gets, skip, set_runner,
  set_fg, set_attached,
}
use sideshow.Supervisor.Surface.{activate_vt, detach, launch, stop, is_alive, running_mode}
use sideshow.Supervisor.Switch.{
  set_mode_at, set_base_mode, set_fg_mode, drop_fg, clear_fg, detach_stop, release_base, free_base,
  cog_navigate, installed_fg, launch_cog, show_fg, launch_vt, launch_foreground, switch_foreground,
  take_base, installed_base, start_primary, remove_base, go_off, web_in_place, same_backend,
  reuse_base, switch_compositor, collides, switch_body, with_token, checked, switch, or_failed,
}
use sideshow.Supervisor.Ownership.Logic.{
  Core, core, Holds, Holds-pure, Holds-bind, Holds-then, Holds-if, Holds-test, Holds-given,
  Holds-after, Holds-after_then, Holds-weaken, Holds-neutral, Neutral-gets,
}
use sideshow.Supervisor.Ownership.Screen.{
  Neutral-activate_vt, Neutral-ask, Neutral-preflight, Neutral-detach, Neutral-target,
  Neutral-attach, Neutral-navigate, calm_rules,
}
use sideshow.Supervisor.Ownership.Launch.{Launched, launch-Launched}
use sideshow.Supervisor.Ownership.Compositor.{Neutral-show_again}
use sideshow.Supervisor.Shown.Claim.{Shows}
use sideshow.Supervisor.Shown.Foreground.{Holds-switch_foreground-Done}
use sideshow.Supervisor.Shown.Base.{Wanted, Holds-switch_compositor-Wanted}

abbrev Delivers : Mode → Try → Type 0
Delivers m act = (w : World) → (act w).0 ≡ none → Wanted m (core (act w).1)

Wanted-fg : (m : Mode) (c : Core) → foreground m ≡ true → Shows m c → Wanted m c
Wanted-fg m c f s = elim (Bool-cases (is_kind (kind_of m) off)) [
  | inl o ↦ rw (o, f) s
  | inr o ↦ rw o s
]

switch_body-Delivers : (m : Mode) → Delivers m (switch_body m)
unfolding switch_body
switch_body-Delivers m w = by_surface (foreground m) refl
  where
    over : World → Option Failure × World
    over w =
        if collides w.cfg w.runner
        then (some vt_collision, w)
        else switch_foreground m w.fg_runner w

    foreground_part :
        foreground m ≡ true
        → (b : Bool)
        → (if b then (some vt_collision, w) else switch_foreground m w.fg_runner w).0 ≡ none
        → Wanted m
            (core (if b then (some vt_collision, w) else switch_foreground m w.fg_runner w).1)
    foreground_part f true h = cc
    foreground_part f false h =
        Wanted-fg m (core (switch_foreground m w.fg_runner w).1) f
          ((Holds-switch_foreground-Done w.runner w.fg_runner m).at w (refl, refl) h)

    by_surface :
        (b : Bool)
        → foreground m ≡ b
        → (if b then over w else switch_compositor m w.runner w.fg_runner w).0 ≡ none
        → Wanted m (core (if b then over w else switch_compositor m w.runner w.fg_runner w).1)
    by_surface true f = foreground_part f (collides w.cfg w.runner)
    by_surface false c = (Holds-switch_compositor-Wanted w.runner w.fg_runner m c).at w (refl, refl)

with_token-Delivers : (m : Mode) (body : Try) → Delivers m body → Delivers m (with_token body)
unfolding with_token
with_token-Delivers m body d w = elim (Bool-cases w.switching) [
  | inl e ↦ rw e (λ h. cc)
  | inr e ↦ rw e (d (record w { switching = true }))
]

checked-Delivers :
    (m : Mode) (e : Option ModeError) (body : Try) → Delivers m body → Delivers m (checked e body)
unfolding pure
checked-Delivers m none body d = d
checked-Delivers m (some e) body d = λ w h. cc

-- A switch that returns no error has put what was asked for on the screen: for a mode that is off
-- no runner is left, and for any other the runner that the status reports runs a mode equivalent
-- to the normalized request.
pub switch_shows :
    (m : Mode) (w : World) → (switch m w).0 ≡ none → Wanted (normalize m) (core (switch m w).1)
unfolding switch
switch_shows m =
    let n = normalize m in
    checked-Delivers n (validate n) (with_token (switch_body n))
      (with_token-Delivers n (switch_body n) (switch_body-Delivers n))
