-- ===== src/Tests/Screen.antt =====
-- The supervisor (agent/supervisor.go): a node with a web kiosk on X.
use sideshow.Base.{◌≡◌, refl, true, false, none, some, [], ◌∷◌, text, inl, arith}
use sideshow.Mode.{Mode, str, strings, normalize}
use sideshow.Tests.Open.{screen_open}
use sideshow.Mode.Command.{Config}
use sideshow.Supervisor.World.{
  Runner, running, crashed, to_x, no_hook, to_base, World, preflight_failed, code_of,
}
use sideshow.Supervisor.Recover.{ended, shutdown}
use sideshow.Supervisor.Switch.{switch, switch_compositor}
use sideshow.Supervisor.Ownership.Logic.{core}
use sideshow.Supervisor.Ownership.Invariant.{IsSettled}
use sideshow.Supervisor.Ownership.Steps.{here, next, switched, Reach-IsSettled}
use sideshow.Supervisor.Ownership.Closing.{shutdown_reaps_all}
use sideshow.Supervisor.Shown.Base.{Wanted}
use sideshow.Supervisor.Shown.{switch_shows}
use sideshow.Supervisor.Refused.{switch_refused}
use sideshow.Supervisor.Kiosk.{restart_mode}
use sideshow.Supervisor.Restarted.{restart_mode_keeps}
use sideshow.Supervisor.Stranded.{switch_compositor_strands}

abbrev cfg : Config
cfg = record {
  x_vt = 7;
  wayland_vt = 8;
  mode_vt = 9;
  cdp_port = 9222;
  wayland_cdp_port = 9223;
  cdp_host = text "127.0.0.1";
  initial_url = text "https://example.org/";
  node = text "lobby";
  chromium = text "chromium";
  chromium_low_mem = false;
  profile_dir = [];
  default_bg = [];
  wayland_launcher = text "run-wayland.sh";
  cog_cmd = text "cog";
  steamlink_cmd = [];
  miracast_cmd = [];
  wayland_root = false;
  allow_custom_root = true;
  allow_miracast = false;
  app_launcher = [];
}

abbrev page : Mode
page = record {
  type = text "web";
  params = (text "url", str (text "https://example.org/")) ∷ [];
  display = text "compositor";
}

abbrev pub player : Mode
player = record {
  type = text "media";
  params = (text "path", str (text "/srv/clip.mp4")) ∷ [];
  display = text "kms";
}

abbrev kiosk : Runner
kiosk = record { id = 0; mode = page; state = running; hook = no_hook }

-- Everything that is asked succeeds.
abbrev pub node : World
node = record {
  cfg = cfg;
  runner = some kiosk;
  fg_runner = none;
  switching = false;
  attached = true;
  port = 9222;
  vt = 7;
  live = 0 ∷ [];
  next_id = 1;
  settles = 0;
  answer = λ q n. true;
  asked = 0;
}

node-IsSettled : IsSettled (core node)
node-IsSettled = record {
  children = record { owned = (inl refl, tt); fresh = (omega arith, tt); distinct = (tt, tt) };
  alone = λ r e k. cc;
}

Reach-IsSettled_example : IsSettled (core (switch player node).1)
Reach-IsSettled_example = Reach-IsSettled node-IsSettled (next here (switched player))

shutdown_reaps_all_example :
    ((shutdown node).1.live ≡ [])
    × ((shutdown node).1.runner ≡ none)
    × ((shutdown node).1.fg_runner ≡ none)
shutdown_reaps_all_example = shutdown_reaps_all node node-IsSettled

switch-player_ok : (switch player node).0 ≡ none
unfolding screen_open
switch-player_ok = refl

switch_shows_example : Wanted (normalize player) (core (switch player node).1)
switch_shows_example = switch_shows player node switch-player_ok

-- No program is installed.
abbrev bare : World
bare = record node { answer = λ q n. false }

switch_refused_example : core (switch player bare).1 ≡ core bare
unfolding screen_open code_of
switch_refused_example = switch_refused player bare preflight_failed (inl refl) refl refl

-- A console program over the page, on its VT.
abbrev top : Mode
top = record {
  type = text "app";
  params = (text "argv", strings (text "htop" ∷ [])) ∷ [];
  display = text "console";
}

abbrev overlay : Runner
overlay = record { id = 1; mode = top; state = running; hook = to_base page }

abbrev covered : World
covered = record bare { fg_runner = some overlay; live = 1 ∷ 0 ∷ []; next_id = 2; vt = 9 }

abbrev viewer : Mode
viewer = record top { display = text "compositor" }

-- The whole switch answers with the code 400, and the VT of the stopped program stays.
covered_stranded :
    ((switch viewer covered).0 ≡ some preflight_failed)
    × (((switch viewer covered).1.live ≡ 0 ∷ []) × ((switch viewer covered).1.vt ≡ 9))
unfolding screen_open
covered_stranded = (refl, (refl, refl))

switch_compositor_strands_example :
    ((switch_compositor viewer (some kiosk) (some overlay) covered).0 ≡ some preflight_failed)
    × (((switch_compositor viewer (some kiosk) (some overlay) covered).1.fg_runner ≡ none)
        × ((switch_compositor viewer (some kiosk) (some overlay) covered).1.vt ≡ 9))
unfolding screen_open
switch_compositor_strands_example =
    switch_compositor_strands viewer kiosk overlay covered refl refl refl

restart_mode_keeps_example : core (restart_mode covered).1 ≡ core covered
restart_mode_keeps_example = restart_mode_keeps overlay covered refl refl refl

-- A Wayland kiosk under a console program.
abbrev labwc : Runner
labwc = record {
  id = 0;
  mode = record page { display = text "wayland" };
  state = running;
  hook = to_x (text "https://example.org/") true;
}

abbrev layered : World
layered = record node {
  runner = some labwc;
  fg_runner = some overlay;
  live = 1 ∷ 0 ∷ [];
  next_id = 2;
  vt = 9;
}

-- When the kiosk below is given up, the screen goes to the VT of X, and the console program, whose
-- VT was on screen, stays the mode that the status reports.
crash_below :
    ((ended labwc crashed layered).1.vt ≡ 7)
    × ((ended labwc crashed layered).1.fg_runner ≡ some overlay)
unfolding screen_open
crash_below = (refl, refl)
