-- ===== src/Supervisor/Kiosk.antt =====
-- The operations on the surface that is on screen: `RestartMode`, `ReattachWeb`, `NavigateIfWeb`,
-- `AdvanceDocument`, `ReloadWeb`, and the queries `Status`, `Busy`, `Foreground` and
-- `OnWaylandPrimary` (agent/supervisor.go), with `Reattach` of agent/chrome.go.
use sideshow.Base.{
  Bool, true, false, not, ◌&&◌, ◌||◌, Option, none, some, Text, text, is_empty, is_some,
  if◌then◌else◌,
}
use sideshow.Mode.{Mode, str, web, is_kind, kind_of, set_param, is_cog_kiosk}
use sideshow.Supervisor.World.{
  Runner, cdp_scroll, cog_reload, World, cog_failed, navigate_failed, not_attached, Act, Try, pure,
  ◌>>=◌, ◌>>◌, gets, ask, target,
}
use sideshow.Supervisor.Surface.{navigate, connect, is_alive, cdp_port_of, on_wayland}
use sideshow.Supervisor.Switch.{
  or_failed, set_base_mode, switch_foreground, start_primary, url_of, with_token,
}

-- The `switch` of `RestartMode`
unfoldable pub restart_body : Option Runner → Option Runner → Try
restart_body (some fg) base = switch_foreground fg.mode (some fg)
restart_body none (some base) = start_primary base.mode (some base)
restart_body none none = pure none

-- `RestartMode`
unfoldable pub restart_mode : Try
unfolding restart_body with_token
restart_mode = with_token (λ w. restart_body w.fg_runner w.runner w)

-- A live web kiosk with nothing layered on top.
abbrev pub live_web : World → Bool
live_web w =
    not (is_some w.fg_runner)
    && elim w.runner [ none ↦ false | some r ↦ is_kind (kind_of r.mode) web && is_alive r ]

unfoldable pub reattach_at : Option Runner → Try
reattach_at none = pure none
reattach_at (some r) = do
  cfg ← gets (λ w. w.cfg)
  target (cdp_port_of cfg r.mode)
  found ← connect
  or_failed not_attached found

-- `ReattachWeb`
unfoldable pub reattach_web : Try
unfolding reattach_at with_token
reattach_web w =
    if not w.switching && (not (live_web w) || w.attached)
    then (none, w)
    else with_token (λ w. reattach_at w.runner w) w

-- `setURL`
unfoldable pub set_url : Text → Mode → Mode
set_url url m = record m { params = set_param (text "url") (str url) m.params }

unfoldable pub navigate_at : Text → Option Runner → Act Bool
unfolding set_url
navigate_at url none = pure false
navigate_at url (some r) = do
  done ← navigate url
  if done then (do set_base_mode r.id (set_url url r.mode); pure true) else pure false

-- The token of the calls that return a bool: `false` while it is taken or no live kiosk shows.
unfoldable pub if_web : Act Bool → Act Bool
if_web body w =
    if w.switching || not (live_web w)
    then (false, w)
    else let (b, w') = body (record w { switching = true }) in (b, record w' { switching = false })

-- `NavigateIfWeb`
unfoldable pub navigate_if_web : Text → Act Bool
unfolding if_web navigate_at
navigate_if_web url = if_web (λ w. navigate_at url w.runner w)

unfoldable pub scroll_page : Act Bool
scroll_page = do on ← gets (λ w. w.attached); if on then ask cdp_scroll else pure false

-- `AdvanceDocument`
unfoldable pub advance_document : Act Bool
unfolding if_web scroll_page
advance_document = if_web scroll_page

unfoldable pub reload_base : Option Runner → Try
reload_base none = pure none
reload_base (some r) =
    if not (is_kind (kind_of r.mode) web) || is_empty (url_of r.mode) then pure none else (do
      on ← gets (λ w. w.attached)
      if on
          then (do done ← navigate (url_of r.mode); or_failed navigate_failed done)
          else restart_mode)

unfoldable pub reload_at : Option Runner → Try
unfolding reload_base restart_mode
reload_at none w = reload_base w.runner w
reload_at (some r) w =
    if is_alive r && is_cog_kiosk r.mode
    then (do done ← ask cog_reload; or_failed cog_failed done) w
    else (none, w)

-- `ReloadWeb`
unfoldable pub reload_web : Try
unfolding reload_at
reload_web w = reload_at w.fg_runner w

-- `Status`: the runner that it reports, the foreground one before the base.
unfoldable pub on_screen : World → Option Runner
on_screen w = elim w.fg_runner [ none ↦ w.runner | some r ↦ some r ]

unfoldable pub is_busy : World → Bool
is_busy w = w.switching || is_some w.fg_runner

unfoldable pub shows_foreground : World → Bool
shows_foreground w = is_some w.fg_runner

unfoldable pub on_wayland_primary : World → Bool
on_wayland_primary w = not (is_some w.fg_runner) && on_wayland w.runner
