-- ===== src/Tests/Display.antt =====
-- The display (agent/display.go, agent/displaystate.go).
use sideshow.Base.{◌≡◌, ◌++◌, refl, Bool, true, false, none, some, List, [], ◌∷◌, Text, text}
use sideshow.Display.Xrandr.{XOutput, parse_xrandr, parse_xrandr_outputs}
use sideshow.Display.First.{first_view, parse_xrandr-parse_xrandr_outputs}
use sideshow.Display.Wayland.{
  enabled_wayland_outputs, is_listed, is_enabled, wayland_outputs_to_disable,
  wayland_outputs_to_disable_keeps,
}
use sideshow.Display.State.{Disk, Display, Seat, new_display, refresh_outputs, bad_rotation}
use sideshow.Display.Ops.{rotate, screen, set_layout}
use sideshow.Display.Valid.{IsValid}
use sideshow.Display.Reach.{started, then_step, rotated, laid_out, Reach-IsValid}
use sideshow.Display.Stuck.{IsStuck}
use sideshow.Tests.Open.{display_open}

abbrev line : Text → Text
line s = s ++ (10 ∷ [])

abbrev listing : Text
listing =
    line (text "Screen 0: minimum 320 x 200")
    ++ line (text "DP-1 disconnected")
    ++ line (text "HDMI-1 connected 1920x1080+0+0")
    ++ line (text "   1920x1080 60.00*+")
    ++ line (text "HDMI-2 connected primary 1280x720+1920+0")
    ++ line (text "   1280x720 60.00*")
    ++ line (text "   1920x1080 60.00 +")

abbrev output : Text → Bool → Text → Text → Text → XOutput
output name primary geometry current preferred = record {
  name = name;
  primary = primary;
  geometry = geometry;
  current = current;
  preferred = preferred;
}

outputs :
    parse_xrandr_outputs listing
    ≡ output (text "HDMI-1") false (text "1920x1080+0+0") (text "1920x1080") (text "1920x1080")
      ∷ output (text "HDMI-2") true (text "1280x720+1920+0") (text "1280x720") (text "1920x1080")
      ∷ []
unfolding display_open
outputs = refl

parse_xrandr-parse_xrandr_outputs_example :
    parse_xrandr listing ≡ first_view (parse_xrandr_outputs listing)
parse_xrandr-parse_xrandr_outputs_example = parse_xrandr-parse_xrandr_outputs listing

abbrev wlr_listing : Text
wlr_listing =
    line (text "DP-1 \"Maker\"")
    ++ line (text "  Enabled: yes")
    ++ line (text "DP-2 \"Maker\"")
    ++ line (text "  Enabled: no")

abbrev dp : List Text
dp = text "DP-1" ∷ text "DP-2" ∷ []

-- Both outputs are listed, and neither is turned off.
wayland_outputs_to_disable_keeps_example :
    (k : Text) × (is_enabled k (enabled_wayland_outputs wlr_listing) ≡ true)
    × (is_listed k (wayland_outputs_to_disable (enabled_wayland_outputs wlr_listing) dp) ≡ false)
unfolding display_open
wayland_outputs_to_disable_keeps_example =
    wayland_outputs_to_disable_keeps wlr_listing (text "DP-1") dp refl

abbrev pub disk : Disk
disk = record { has_path = true; writable = true; file = none }

abbrev pub seat : Seat
seat = record {
  wayland = false;
  foreground = false;
  listing = some listing;
  accepts = λ args. true;
  wlr_listing = some wlr_listing;
  wlr_accepts = λ args. true;
  cec = false;
}

abbrev turned : Display
turned = (rotate seat [] 90 (new_display disk)).1.0

-- The rotation goes to the primary output.
rotation : turned.rotations ≡ (text "HDMI-2", 90) ∷ []
unfolding display_open
rotation = refl

no_rotation : (rotate seat [] 45 turned).0 ≡ some bad_rotation
unfolding display_open
no_rotation = refl

abbrev mirrored_display : Display
mirrored_display = (set_layout seat (text "mirror") [] turned).1.0

Reach-IsValid_example : IsValid mirrored_display
Reach-IsValid_example = Reach-IsValid mirrored_display (
    then_step turned mirrored_display
      (then_step (new_display disk) turned (started disk) (rotated seat [] 90 (new_display disk)))
      (laid_out seat (text "mirror") [] turned))

-- A sleep under Wayland, where no primary output is known, and then the outputs of X.
abbrev pub left_asleep : Display
left_asleep =
    refresh_outputs seat (screen (record seat { wayland = true }) [] false (new_display disk)).1.0

pub left_asleep-IsStuck : IsStuck left_asleep
unfolding display_open
left_asleep-IsStuck = (refl, refl)
