-- ===== src/Mode/Command.antt =====
-- `modeCommand`, `chromiumArgs` and `cogArgs` (agent/main.go): the program and the arguments that
-- a mode is launched with.
pub mod Safe
use sideshow.Base.{
  ℕ, Bool, true, false, ◌&&◌, not, List, [], ◌∷◌, ◌++◌, Text, text, is_empty, fields, decimal,
  if◌then◌else◌,
}
use sideshow.Mode.{
  Mode, Kind, web, app, airplay, media, moonlight, steamlink, miracast, kms, wayland, is_surface,
  kind_of, surface_of, str_of, bool_or, argv, is_wayland, runs_as_root,
}

-- The fields of `Config` that these functions and the supervisor read, and the shell script
-- `waylandAppLauncherSh`, a constant of the source, as `app_launcher`.
pub record Config : Type 0 where
  pub x_vt : ℕ
  pub wayland_vt : ℕ
  pub mode_vt : ℕ
  pub cdp_port : ℕ
  pub wayland_cdp_port : ℕ
  pub cdp_host : Text
  pub initial_url : Text
  pub node : Text
  pub chromium : Text
  pub chromium_low_mem : Bool
  pub profile_dir : Text
  pub default_bg : Text
  pub wayland_launcher : Text
  pub cog_cmd : Text
  pub steamlink_cmd : Text
  pub miracast_cmd : Text
  pub wayland_root : Bool
  pub allow_custom_root : Bool
  pub allow_miracast : Bool
  pub app_launcher : Text

-- `index_panic` is the run-time panic of `av[0]` on an empty slice.
pub data CommandError : Type 0 where
  root_refused index_panic steamlink_empty miracast_disabled miracast_empty : CommandError
  no_source unsupported : CommandError

pub data Command : Type 0 where
  built : Text → List Text → Command
  failed : CommandError → Command

abbrev when : Bool → List Text → List Text
when true args = args
when false args = []

chromium_args : Config → Text → List Text
chromium_args cfg url =
    text "--kiosk"
    ∷ text "--start-fullscreen"
    ∷ text "--no-first-run"
    ∷ text "--no-default-browser-check"
    ∷ text "--noerrdialogs"
    ∷ text "--disable-infobars"
    ∷ text "--disable-notifications"
    ∷ text "--disable-session-crashed-bubble"
    ∷ text "--disable-restore-session-state"
    ∷ text "--disable-features=InfiniteSessionRestore,Translate"
    ∷ text "--autoplay-policy=no-user-gesture-required"
    ∷ text "--disable-gesture-requirement-for-media-playback"
    ∷ text "--use-fake-ui-for-media-stream"
    ∷ text "--overscroll-history-navigation=0"
    ∷ text "--disable-pinch"
    ∷ text "--hide-scrollbars"
    ∷ text "--password-store=basic"
    ∷ text "--ozone-platform=x11"
    ∷ (text "--user-data-dir=" ++ cfg.profile_dir)
    ∷ (text "--remote-debugging-address=" ++ cfg.cdp_host)
    ∷ (text "--remote-debugging-port=" ++ decimal cfg.cdp_port)
    ∷ text "--remote-allow-origins=*"
    ∷ (when cfg.chromium_low_mem (
          text "--renderer-process-limit=1"
          ∷ text "--process-per-site"
          ∷ text "--disable-gpu"
          ∷ text "--disable-dev-shm-usage"
          ∷ text "--disable-background-networking"
          ∷ text "--disable-component-update"
          ∷ text "--disk-cache-size=16777216"
          ∷ text "--js-flags=--max-old-space-size=256"
          ∷ [])
        ++ (when (not (is_empty cfg.default_bg))
              ((text "--default-background-color=" ++ cfg.default_bg) ∷ [])
            ++ url ∷ []))

cog_args : Text → List Text
cog_args url = text "--platform=drm" ∷ url ∷ []

web_command : Config → Mode → Command
unfolding chromium_args cog_args
web_command cfg m =
    if is_wayland m
    then built cfg.wayland_launcher (str_of m (text "url") ∷ [])
    else if is_surface (surface_of m) kms
    then built cfg.cog_cmd (cog_args (str_of m (text "url")))
    else built cfg.chromium (chromium_args cfg (str_of m (text "url")))

app_command : Config → Mode → List Text → Command
app_command cfg m args =
    if runs_as_root cfg.wayland_root m && not cfg.allow_custom_root
    then failed root_refused
    else if is_surface (surface_of m) wayland
    then built (text "/bin/sh") (text "-c" ∷ cfg.app_launcher ∷ text "sh" ∷ args)
    else elim args [ [] ↦ failed index_panic | a ∷ rest ↦ built a rest ]

airplay_command : Config → Mode → Command
airplay_command cfg m =
    let asked = str_of m (text "name") in
    let name = if is_empty asked then cfg.node else asked in
    built (text "uxplay") (
      when (not (is_empty name)) (text "-n" ∷ name ∷ [])
      ++ (when (is_surface (surface_of m) kms) (text "-vs" ∷ text "kmssink" ∷ [])
          ++ when (not (bool_or m (text "audio") false)) (text "-a" ∷ [])))

moonlight_command : Mode → Command
moonlight_command m =
    let host = str_of m (text "host") in
    let asked = str_of m (text "app") in
    if is_empty host
    then built (text "moonlight-qt") []
    else built (text "moonlight-qt")
        (text "stream" ∷ host ∷ (if is_empty asked then text "Desktop" else asked) ∷ [])

abbrev run_words : CommandError → List Text → Command
run_words e [] = failed e
run_words e (a ∷ rest) = built a rest

mpv_flags : Mode → List Text
mpv_flags m =
    text "--fullscreen"
    ∷ text "--no-osc"
    ∷ text "--no-input-default-bindings"
    ∷ text "--really-quiet"
    ∷ (when (is_surface (surface_of m) kms) (text "--vo=drm" ∷ [])
        ++ (when (bool_or m (text "loop") true) (text "--loop-file=inf" ∷ [])
            ++ when (bool_or m (text "mute") false) (text "--mute=yes" ∷ [])))

media_source_of : Mode → Text
media_source_of m =
    let url = str_of m (text "url") in if is_empty url then str_of m (text "path") else url

media_command : Mode → Command
unfolding mpv_flags media_source_of
media_command m =
    if is_empty (media_source_of m)
    then failed no_source
    else built (text "mpv") (mpv_flags m ++ text "--" ∷ media_source_of m ∷ [])

command_of : Config → Kind → Mode → Command
unfolding web_command app_command airplay_command moonlight_command media_command
command_of cfg web m = web_command cfg m
command_of cfg app m = app_command cfg m (argv m)
command_of cfg airplay m = airplay_command cfg m
command_of cfg moonlight m = moonlight_command m
command_of cfg steamlink m = run_words steamlink_empty (fields cfg.steamlink_cmd)
command_of cfg miracast m =
    if cfg.allow_miracast
    then run_words miracast_empty (fields cfg.miracast_cmd)
    else failed miracast_disabled
command_of cfg media m = media_command m
command_of cfg _ m = failed unsupported

-- `modeCommand`
unfoldable pub mode_command : Config → Mode → Command
unfolding command_of
mode_command cfg m = command_of cfg (kind_of m) m
