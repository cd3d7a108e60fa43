-- ===== src/Display/Ops.antt =====
-- `Rotate`, `Screen`, `SetLayout` and the boot of the display (agent/displaystate.go).
use sideshow.Base.{
  ℕ, Bool, true, false, ◌&&◌, ◌||◌, not, ltb, ◌==◌, Option, none, some, List, [], ◌∷◌, ◌++◌, map,
  length, keep_if, if◌then◌else◌, Text, text, text_eq, is_empty,
}
use sideshow.Display.Xrandr.{XOutput, parse_xrandr_primary, turned_on, xrandr_layout_args}
use sideshow.Display.Wayland.{parse_wlr_outputs}
use sideshow.Display.State.{
  Rotations, Display, Seat, Call, xrandr, wlr_randr, cec_on, cec_off, bounce, bad_rotation,
  bad_layout, on_wayland, in_foreground, not_rotated, not_powered, no_outputs, one_output,
  layout_args, layout_failed, Outcome, lookup, put, or_zero, or_false, is_rotation, save, enumerate,
  refresh_outputs, primary_name, apply_rotation, set_output,
}

-- `resolveOutput`, with what finding the primary output leaves
abbrev pub resolve_output : Seat → Text → Display → Text × Display
resolve_output seat output d =
    if is_empty output then ((primary_name seat d).primary, primary_name seat d) else (output, d)

abbrev pub rotate_target : Seat → ℕ → Text × Display → Outcome
rotate_target seat deg (target, d) =
    let a = apply_rotation seat target deg in
    if a.0
    then (none, (save (record d { rotations = put target deg d.rotations }), a.1))
    else (some not_rotated, (d, a.1))

-- `Rotate`
unfoldable pub rotate : Seat → Text → ℕ → Display → Outcome
rotate seat output deg d =
    if not (is_rotation deg)
    then (some bad_rotation, (d, []))
    else if seat.wayland
    then (some on_wayland, (d, []))
    else if seat.foreground
    then (some in_foreground, (d, []))
    else rotate_target seat deg (resolve_output seat output d)

-- `setWaylandOutput`, over the outputs that are listed
unfoldable pub power_each : Seat → Text → List Text → Bool × List Call
power_each seat arg [] = (true, [])
power_each seat arg (n ∷ names) =
    let args = text "--output" ∷ n ∷ arg ∷ [] in
    let rest = power_each seat arg names in
    if seat.wlr_accepts args
    then (rest.0, wlr_randr args ∷ rest.1)
    else (false, wlr_randr args ∷ [])

abbrev pub power_listed : Seat → Bool → Option Text → Bool × List Call
power_listed seat on none = (false, [])
power_listed seat on (some s) =
    if length (parse_wlr_outputs s) == 0
    then (false, [])
    else power_each seat (if on then text "--on" else text "--off") (parse_wlr_outputs s)

-- `powerOutput`: under Wayland a CEC TV carries the sleep when the program fails.
unfoldable pub power_output : Seat → Bool → Text → Bool → Bool × List Call
power_output seat cec_ok target on =
    let w = power_listed seat on seat.wlr_listing in
    if seat.wayland then (w.0 || cec_ok, w.1) else set_output seat target on

-- The rotation to apply again after an output was turned on.
unfoldable pub rotation_after : Text → Display → ℕ
rotation_after target d =
    let rot = or_zero (lookup target d.rotations) in
    if rot == 0 && (is_empty target || text_eq target d.primary)
    then or_zero (lookup [] d.rotations)
    else rot

abbrev pub rotate_again : Seat → Text → Display → List Call
rotate_again seat target d =
    let rot = rotation_after target d in
    if seat.wayland || rot == 0 then [] else (apply_rotation seat target rot).1

-- `on`: power, rotation, and then the TV; the GUI is bounced when the output slept.
abbrev pub wake : Seat → Bool → Text → Display → Outcome
wake seat cec_ok target d =
    let p = power_output seat cec_ok target true in
    if p.0
    then (
      none,
      (
        record d { asleeps = put target false d.asleeps },
        p.1
            ++ rotate_again seat target d
            ++ (if cec_ok then cec_on ∷ [] else [])
            ++ (if or_false (lookup target d.asleeps) then bounce ∷ [] else []),
      ),
    )
    else (some not_powered, (d, p.1))

-- `off`: the TV, and then power.
abbrev pub sleep : Seat → Bool → Text → Display → Outcome
sleep seat cec_ok target d =
    let p = power_output seat cec_ok target false in
    let tv = if cec_ok then cec_off ∷ [] else [] in
    if p.0
    then (none, (record d { asleeps = put target true d.asleeps }, tv ++ p.1))
    else (some not_powered, (d, tv ++ p.1))

abbrev pub screen_target : Seat → Bool → Text → Display → Outcome
screen_target seat on [] d = if on then wake seat seat.cec [] d else sleep seat seat.cec [] d
screen_target seat on (c ∷ target) d =
    let d' = primary_name seat d in
    let cec_ok = text_eq (c ∷ target) d'.primary && seat.cec in
    if on then wake seat cec_ok (c ∷ target) d' else sleep seat cec_ok (c ∷ target) d'

-- `Screen`
unfoldable pub screen : Seat → Text → Bool → Display → Outcome
screen seat output on d = let r = resolve_output seat output d in screen_target seat on r.0 r.1

abbrev pub is_layout : Text → Bool
is_layout mode =
    text_eq mode (text "single") || text_eq mode (text "mirror") || text_eq mode (text "extend")

abbrev pub turned_off : Text → List Text
turned_off o = text "--output" ∷ o ∷ text "--off" ∷ []

abbrev pub layout_commands : Text → Text → List Text → Option (List (List Text))
layout_commands mode primary others =
    if text_eq mode (text "single")
    then some (turned_on primary ∷ map turned_off others)
    else xrandr_layout_args mode primary others

-- The calls, up to the first that fails.
unfoldable pub run_all : Seat → List (List Text) → Bool × List Call
run_all seat [] = (true, [])
run_all seat (args ∷ commands) =
    let rest = run_all seat commands in
    if seat.accepts args then (rest.0, xrandr args ∷ rest.1) else (false, xrandr args ∷ [])

-- The persisted rotations, applied again; the empty name is the primary output.
unfoldable pub rotate_all : Seat → Text → Rotations → List Call
rotate_all seat primary [] = []
rotate_all seat primary ((n, rot) ∷ rest) =
    let target = if is_empty n then primary else n in
    let later = rotate_all seat primary rest in
    if rot == 0 then later else (apply_rotation seat target rot).1 ++ later

abbrev pub lay_out : Seat → Text → Text → Option (List (List Text)) → Display → Outcome
lay_out seat mode primary none d = (some layout_args, (d, []))
lay_out seat mode primary (some commands) d =
    let r = run_all seat commands in
    if r.0
    then (
      none,
      (
        save (record d { primary = primary; layout = mode }),
        r.1 ++ rotate_all seat primary d.rotations,
      ),
    )
    else (some layout_failed, (d, r.1))

abbrev pub other_names : Text → List XOutput → List Text
other_names primary outs = keep_if (λ n. not (text_eq n primary)) (map (λ o. o.name) outs)

-- `SetLayout`
unfoldable pub set_layout : Seat → Text → Text → Display → Outcome
set_layout seat mode primary_req d =
    let outs = enumerate seat in
    let primary = if is_empty primary_req then parse_xrandr_primary outs else primary_req in
    if not (is_layout mode)
    then (some bad_layout, (d, []))
    else if seat.wayland
    then (some on_wayland, (d, []))
    else if seat.foreground
    then (some in_foreground, (d, []))
    else if length outs == 0
    then (some no_outputs, (d, []))
    else if not (text_eq mode (text "single")) && ltb (length outs) 2
    then (some one_output, (d, []))
    else lay_out seat mode primary (layout_commands mode primary (other_names primary outs)) d

-- `ApplyRotationAtBoot`
unfoldable pub apply_rotation_at_boot : Seat → Display → Display × List Call
apply_rotation_at_boot seat d =
    let d' = refresh_outputs seat d in (d', rotate_all seat d'.primary d'.rotations)

-- `ApplyLayoutAtBoot`
unfoldable pub apply_layout_at_boot : Seat → Display → Outcome
apply_layout_at_boot seat d =
    if text_eq d.layout (text "mirror") || text_eq d.layout (text "extend")
    then set_layout seat d.layout [] d
    else (none, (d, []))

-- `Asleep`, once the primary output was looked for
unfoldable pub asleep : Display → Bool
asleep d = or_false (lookup d.primary d.asleeps) || or_false (lookup [] d.asleeps)
