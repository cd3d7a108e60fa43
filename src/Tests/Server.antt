-- ===== src/Tests/Server.antt =====
-- Requests and scheduled actions (agent/server.go).
use sideshow.Base.{◌≡◌, refl, Bool, true, false, none, some, List, [], ◌∷◌, Text, text}
use sideshow.Mode.{normalize}
use sideshow.Actions.{Action, absent}
use sideshow.Content.Manage.{unknown_type}
use sideshow.Display.State.{Seat, new_display}
use sideshow.Server.{
  Server, missing_url, not_found, not_assigned, assign_output, show_mode, show_url, fire_action,
  fire_scheduled,
}
use sideshow.Server.Recorded.{IsKeepable, IsKept, show_mode-IsKept}
use sideshow.Server.Fired.{mode_fired, IsFired, fire_scheduled-IsFired}
use sideshow.Server.Sleeping.{screens, fire_scheduled_sleepless}
use sideshow.Tests.Open.{server_open}
use sideshow.Tests.Screen.{node, player}
use sideshow.Tests.Node.{blank}
use sideshow.Tests.Content.{content}
use sideshow.Tests.Display.{seat, disk, left_asleep, left_asleep-IsStuck}

abbrev clip : Action
clip = record {
  id = text "1";
  slug = text "clip";
  index = 0;
  name = text "Clip";
  mode = player;
  playlist = none;
}

abbrev server : Server
server = record {
  sup = node;
  state = blank;
  content = content;
  display = new_display disk;
  actions = record {
    items = clip ∷ [];
    file_seen = true;
    local_base = text "http://127.0.0.1";
    disk = record { has_path = true; writable = true; file = absent };
  };
  setup_url = text "http://127.0.0.1/setup";
}

player-IsKeepable : IsKeepable (normalize player) server
unfolding server_open
player-IsKeepable = record {
  on = refl;
  named = refl;
  no_setup = refl;
  has_path = refl;
  writable = refl;
}

show_mode-IsKept_example :
    IsKept (normalize player) (show_mode (text "t") player server).1
    × ((show_mode (text "t") player server).1.content ≡ content)
unfolding server_open
show_mode-IsKept_example = show_mode-IsKept (text "t") player server player-IsKeepable refl

fired-IsKeepable : IsKeepable (mode_fired clip server) server
unfolding server_open
fired-IsKeepable = record {
  on = refl;
  named = refl;
  no_setup = refl;
  has_path = refl;
  writable = refl;
}

fire_scheduled-IsFired_example :
    IsFired (mode_fired clip server) (fire_scheduled (text "t") seat (text "clip") server).0.1
unfolding server_open
fire_scheduled-IsFired_example =
    fire_scheduled-IsFired (text "t") seat (text "clip") clip server refl refl refl fired-IsKeepable
      refl

refused :
    ((show_url (text "t") [] true server).0 ≡ some missing_url)
    × ((fire_action (text "t") (text "none") server).0 ≡ some not_found)
unfolding server_open
refused = (refl, refl)

-- Content with a type that there is not leaves the display as it was.
unassigned :
    assign_output (text "t") seat [] (record { type = text "tv"; url = []; path = [] }) server
    ≡ (some (not_assigned unknown_type), server)
unfolding server_open
unassigned = refl

abbrev dozing : Server
dozing = record server { display = left_asleep }

abbrev calls : List (Seat × Text × Bool)
calls = (seat, [], true) ∷ (seat, text "HDMI-1", false) ∷ []

fire_scheduled_sleepless_example :
    fire_scheduled
      (text "t")
      seat
      (text "@sleep")
      (record dozing { display = screens calls left_asleep })
    ≡ ((none, record dozing { display = screens calls left_asleep }), [])
fire_scheduled_sleepless_example =
    fire_scheduled_sleepless (text "t") seat calls dozing left_asleep-IsStuck
