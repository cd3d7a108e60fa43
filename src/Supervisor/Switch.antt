-- ===== src/Supervisor/Switch.antt =====
-- `Switch` with `switchForeground`, `stopSuspendedBaseForKMS`, `switchCompositor`, `startPrimary`
-- and `restoreWebKiosk` (agent/supervisor.go). The runners of a call are the ones that it read
-- when it took the token; panics are not modelled.
use sideshow.Base.{
  ℕ, ◌==◌, Bool, true, false, not, ◌&&◌, ◌||◌, Option, none, some, Text, text, text_eq, is_empty,
  is_some, if◌then◌else◌,
}
use sideshow.Mode.{
  Mode, web, off, kms, is_kind, is_surface, kind_of, surface_of, str_of, bool_or,
  is_wayland_primary, foreground, is_cog_kiosk, normalize,
}
use sideshow.Mode.Command.{Config}
use sideshow.Mode.Equivalent.{equivalent}
use sideshow.Mode.Validate.{ModeError, validate}
use sideshow.Supervisor.World.{
  Hook, no_hook, to_base, to_x, Runner, cog_bus, cog_open, Failure, invalid_mode, preflight_failed,
  busy, vt_collision, vt_failed, start_failed, navigate_failed, cog_failed, Act, Try, pure, ◌>>=◌,
  ◌>>◌, gets, skip, ask, set_runner, set_fg, target, holds,
}
use sideshow.Supervisor.Surface.{
  activate_vt, detach, navigate, attach, preflight, launch, stop, is_alive, running_mode,
  primary_vt, cdp_port_of, on_wayland, base_vt, current_base_mode, kiosk_mode,
}

-- `if slot == r { r.setMode(m) }`
unfoldable pub set_mode_at : ℕ → Mode → Option Runner → Option Runner
set_mode_at i m none = none
set_mode_at i m (some r) = if r.id == i then some (record r { mode = m }) else some r

unfoldable pub set_base_mode : ℕ → Mode → Act (Unit {0})
unfolding set_mode_at
set_base_mode i m w = (tt, record w { runner = set_mode_at i m w.runner })

unfoldable pub set_fg_mode : ℕ → Mode → Act (Unit {0})
unfolding set_mode_at
set_fg_mode i m w = (tt, record w { fg_runner = set_mode_at i m w.fg_runner })

-- `if slot == r { slot = nil }`
unfoldable pub drop_base : ℕ → Act (Unit {0})
drop_base i w = (tt, record w { runner = if holds i w.runner then none else w.runner })

unfoldable pub drop_fg : ℕ → Act (Unit {0})
drop_fg i w = (tt, record w { fg_runner = if holds i w.fg_runner then none else w.fg_runner })

-- `s.fgRunner = nil; fg.Stop()`, if there was a foreground runner
unfoldable pub clear_fg : Option Runner → Act (Unit {0})
clear_fg none = skip
clear_fg (some r) = do set_fg none; stop r

abbrev pub or_failed : Failure → Bool → Try
or_failed e true = pure none
or_failed e false = pure (some e)

unfoldable pub detach_stop : Option Runner → Act (Unit {0})
detach_stop none = skip
detach_stop (some r) = do detach; stop r

unfoldable pub release_base : Act (Unit {0})
unfolding detach_stop
release_base = do base ← gets (λ w. w.runner); set_runner none; detach_stop base

-- `stopSuspendedBaseForKMS`
unfoldable pub free_base : Mode → Act (Unit {0})
unfolding release_base
free_base m = if is_surface (surface_of m) kms then release_base else skip

unfoldable pub cog_navigate : Mode → Runner → Try
unfolding set_fg_mode
cog_navigate m r = do
  cfg ← gets (λ w. w.cfg)
  shown ← activate_vt cfg.mode_vt
  if shown
      then (do
        done ← ask (cog_open (str_of m (text "url")))
        if done then (do set_fg_mode r.id m; pure none) else pure (some cog_failed))
      else pure (some vt_failed)

-- After the launch: `recover to the compositor surface`, or install the runner.
abbrev pub installed_fg : Option Runner → Try → Try
installed_fg none next = do back ← gets base_vt; activate_vt back; pure (some start_failed)
installed_fg (some r) next = do set_fg (some r); next

-- cog: the VT first, then the child.
unfoldable pub launch_cog : Mode → Hook → Try
unfolding free_base
launch_cog m h = do
  cfg ← gets (λ w. w.cfg)
  ask cog_bus
  shown ← activate_vt cfg.mode_vt
  if shown
      then (do started ← launch m h; installed_fg started (do free_base m; pure none))
      else (do back ← gets base_vt; activate_vt back; pure (some vt_failed))

-- The other foreground modes: the child first, then the VT.
abbrev pub show_fg : Mode → Option Runner → Try
show_fg m none = installed_fg none (pure none)
show_fg m (some r) = do
  set_fg (some r)
  cfg ← gets (λ w. w.cfg)
  shown ← activate_vt cfg.mode_vt
  if shown then (do free_base m; pure none) else (do drop_fg r.id; stop r; pure (some vt_failed))

unfoldable pub launch_vt : Mode → Hook → Try
unfolding free_base drop_fg
launch_vt m h = do started ← launch m h; show_fg m started

unfoldable pub launch_foreground : Mode → Option Runner → Try
unfolding launch_cog launch_vt clear_fg
launch_foreground m fg = do
  ready ← preflight m
  if ready
      then (do
        clear_fg fg
        base ← gets current_base_mode
        if is_cog_kiosk m then launch_cog m (to_base base) else launch_vt m (to_base base))
      else pure (some preflight_failed)

unfoldable pub switch_foreground : Mode → Option Runner → Try
unfolding launch_foreground cog_navigate
switch_foreground m none = launch_foreground m none
switch_foreground m (some r) =
    if running_mode r m
    then (do cfg ← gets (λ w. w.cfg); shown ← activate_vt cfg.mode_vt; or_failed vt_failed shown)
    else if is_alive r && is_cog_kiosk m && is_cog_kiosk r.mode
    then cog_navigate m r
    else launch_foreground m (some r)

abbrev pub install_base : Option Runner → Act (Unit {0})
install_base none = skip
install_base (some r) = set_runner (some r)

-- `restoreWebKiosk`
unfoldable pub restore_web_kiosk : Text → Bool → Act (Unit {0})
restore_web_kiosk url dark = do
  cfg ← gets (λ w. w.cfg)
  fb ← launch (kiosk_mode (if is_empty url then cfg.initial_url else url) dark) no_hook
  install_base fb

unfoldable pub take_base : Option Runner → Act (Unit {0})
unfolding drop_base
take_base none = skip
take_base (some r) = do drop_base r.id; stop r

unfoldable pub url_of : Mode → Text
url_of m = str_of m (text "url")

unfoldable pub dark_of : Mode → Bool
dark_of m = bool_or m (text "dark") true

abbrev pub primary_hook : Mode → Hook
primary_hook m = if is_wayland_primary m then to_x (url_of m) (dark_of m) else no_hook

abbrev pub installed_base : Mode → Bool → Option Runner → Try
installed_base m had_base (some r) = do set_runner (some r); pure none
installed_base m had_base none = do
  cfg ← gets (λ w. w.cfg)
  activate_vt cfg.x_vt
  target cfg.cdp_port
  if had_base then restore_web_kiosk (url_of m) (dark_of m) else skip
  pure (some start_failed)

-- `startPrimary`
unfoldable pub start_primary : Mode → Option Runner → Try
unfolding restore_web_kiosk take_base
start_primary m prev = do
  ready ← preflight m
  if ready
      then (do
        take_base prev
        detach
        cfg ← gets (λ w. w.cfg)
        activate_vt (primary_vt cfg m)
        target (cdp_port_of cfg m)
        started ← launch m (primary_hook m)
        installed_base m (is_some prev) started)
      else pure (some preflight_failed)

unfoldable pub remove_base : Option Runner → Act (Unit {0})
remove_base none = skip
remove_base (some r) = do set_runner none; stop r

unfoldable pub go_off : Option Runner → Try
unfolding remove_base
go_off base = do remove_base base; detach; cfg ← gets (λ w. w.cfg); activate_vt cfg.x_vt; pure none

-- `if cameFromForeground { _ = s.activateVT(targetVT) }`
unfoldable pub show_again : Mode → Bool → Act (Unit {0})
show_again m came_from_fg = do
  cfg ← gets (λ w. w.cfg)
  if came_from_fg then (do activate_vt (primary_vt cfg m); skip) else skip

-- web to web on the same backend; the re-attach after a VT excursion is best effort.
unfoldable pub web_in_place : Mode → Runner → Bool → Try
unfolding set_base_mode show_again
web_in_place m base came_from_fg = do
  show_again m came_from_fg
  cfg ← gets (λ w. w.cfg)
  target (cdp_port_of cfg m)
  on ← gets (λ w. w.attached)
  if came_from_fg || not on
      then (do detach; attach (url_of m); set_base_mode base.id m; pure none)
      else (do
        done ← navigate (url_of m)
        if done then (do set_base_mode base.id m; pure none) else pure (some navigate_failed))

-- `sameBackend`, for a base that is there
unfoldable pub same_backend : Runner → Mode → Bool
same_backend r m = is_alive r && text_eq r.mode.type m.type && text_eq r.mode.display m.display

abbrev pub reuse_base : Mode → Option Runner → Bool → Try
reuse_base m none came_from_fg = start_primary m none
reuse_base m (some r) came_from_fg =
    if same_backend r m && is_kind (kind_of m) web
    then web_in_place m r came_from_fg
    else if same_backend r m && equivalent r.mode m
    then (do show_again m came_from_fg; pure none)
    else start_primary m (some r)

unfoldable pub switch_compositor : Mode → Option Runner → Option Runner → Try
unfolding go_off web_in_place start_primary clear_fg
switch_compositor m base fg = do
  clear_fg fg
  if is_kind (kind_of m) off then go_off base else reuse_base m base (is_some fg)

abbrev pub collides : Config → Option Runner → Bool
collides cfg base = on_wayland base && cfg.mode_vt == cfg.wayland_vt

-- What `Switch` does under the token, for a mode that is normalized and valid.
unfoldable pub switch_body : Mode → Try
unfolding switch_foreground switch_compositor
switch_body m w =
    if foreground m
    then (if collides w.cfg w.runner
        then (some vt_collision, w)
        else switch_foreground m w.fg_runner w)
    else switch_compositor m w.runner w.fg_runner w

-- The token: refused while another call holds it, and given back however the body ends.
unfoldable pub with_token : Try → Try
with_token body w =
    if w.switching
    then (some busy, w)
    else let (e, w') = body (record w { switching = true }) in (e, record w' { switching = false })

abbrev pub checked : Option ModeError → Try → Try
checked (some e) next = pure (some (invalid_mode e))
checked none next = next

-- `Switch`
unfoldable pub switch : Mode → Try
unfolding with_token switch_body
switch m = let n = normalize m in checked (validate n) (with_token (switch_body n))
