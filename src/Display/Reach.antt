-- ===== src/Display/Reach.antt =====
-- The display through its whole life: boots and operations (agent/displaystate.go).
use sideshow.Base.{
  ℕ, ◌≡◌, refl, arith, Bool, true, false, ◌&&◌, ◌||◌, not, ltb, ◌==◌, Option, none, some, List, [],
  ◌∷◌, length, if◌then◌else◌, inl, inr, Bool-cases, Text, text, text_eq, is_empty,
}
use sideshow.Display.Xrandr.{parse_xrandr_primary}
use sideshow.Display.State.{
  Disk, Display, Seat, DisplayError, bad_rotation, bad_layout, on_wayland, in_foreground,
  no_outputs, one_output, Outcome, put, is_rotation, new_display, enumerate, refresh_outputs,
  primary_name, apply_rotation,
}
use sideshow.Display.Ops.{
  resolve_output, rotate_target, rotate, power_output, wake, sleep, screen_target, screen,
  is_layout, layout_commands, run_all, lay_out, other_names, set_layout, apply_rotation_at_boot,
  apply_layout_at_boot,
}
use sideshow.Display.Valid.{
  IsValid, put-AllRotations, save-IsValid, new_display-IsValid, refresh_outputs-IsValid,
  primary_name-IsValid, resolve_output-IsValid,
}

rotate_target-IsValid :
    (seat : Seat) (deg : ℕ) (t : Text × Display)
    → is_rotation deg ≡ true
    → IsValid t.1
    → IsValid (rotate_target seat deg t).1.0
rotate_target-IsValid seat deg (target, d) r h =
    elim (Bool-cases (apply_rotation seat target deg).0) [
      | inl b ↦ rw b (
          save-IsValid (record d { rotations = put target deg d.rotations })
            (record {
              rotations = put-AllRotations target deg d.rotations r h.rotations;
              layout = h.layout;
            }))
      | inr b ↦ rw b h
    ]

-- The three tests of a request; nothing is changed when one of them refuses it.
unless_refused :
    (b c e : Bool) (x1 x2 x3 : DisplayError) (d : Display) (o : Outcome)
    → IsValid d
    → (b ≡ false → IsValid o.1.0)
    → let r : Outcome =
        if b
        then (some x1, (d, []))
        else if c
        then (some x2, (d, []))
        else if e
        then (some x3, (d, []))
        else o in
      IsValid r.1.0
unless_refused true c e x1 x2 x3 d o h k = h
unless_refused false true e x1 x2 x3 d o h k = h
unless_refused false false true x1 x2 x3 d o h k = h
unless_refused false false false x1 x2 x3 d o h k = k refl

rotate-IsValid :
    (seat : Seat) (output : Text) (deg : ℕ) (d : Display)
    → IsValid d
    → IsValid (rotate seat output deg d).1.0
unfolding rotate
rotate-IsValid seat output deg d h =
    unless_refused (not (is_rotation deg)) seat.wayland seat.foreground bad_rotation on_wayland
      in_foreground d (rotate_target seat deg (resolve_output seat output d)) h
      (λ e.
        rotate_target-IsValid seat deg (resolve_output seat output d) (ground (arith, e))
          (resolve_output-IsValid seat output d h))

wake-IsValid :
    (seat : Seat) (cec_ok : Bool) (target : Text) (d : Display)
    → IsValid d
    → IsValid (wake seat cec_ok target d).1.0
wake-IsValid seat cec_ok target d h = elim (Bool-cases (power_output seat cec_ok target true).0) [
  | inl b ↦ rw b (record { rotations = h.rotations; layout = h.layout })
  | inr b ↦ rw b h
]

sleep-IsValid :
    (seat : Seat) (cec_ok : Bool) (target : Text) (d : Display)
    → IsValid d
    → IsValid (sleep seat cec_ok target d).1.0
sleep-IsValid seat cec_ok target d h = elim (Bool-cases (power_output seat cec_ok target false).0) [
  | inl b ↦ rw b (record { rotations = h.rotations; layout = h.layout })
  | inr b ↦ rw b h
]

screen_target-IsValid :
    (seat : Seat) (on : Bool) (target : Text) (d : Display)
    → IsValid d
    → IsValid (screen_target seat on target d).1.0
screen_target-IsValid seat true [] d h = wake-IsValid seat seat.cec [] d h
screen_target-IsValid seat false [] d h = sleep-IsValid seat seat.cec [] d h
screen_target-IsValid seat true (c ∷ target) d h =
    wake-IsValid seat _ (c ∷ target) (primary_name seat d) (primary_name-IsValid seat d h)
screen_target-IsValid seat false (c ∷ target) d h =
    sleep-IsValid seat _ (c ∷ target) (primary_name seat d) (primary_name-IsValid seat d h)

screen-IsValid :
    (seat : Seat) (output : Text) (on : Bool) (d : Display)
    → IsValid d
    → IsValid (screen seat output on d).1.0
unfolding screen
screen-IsValid seat output on d h =
    screen_target-IsValid seat on (resolve_output seat output d).0 (resolve_output seat output d).1
      (resolve_output-IsValid seat output d h)

lay_out-IsValid :
    (seat : Seat) (mode primary : Text) (o : Option (List (List Text))) (d : Display)
    → is_layout mode ≡ true
    → IsValid d
    → IsValid (lay_out seat mode primary o d).1.0
lay_out-IsValid seat mode primary none d l h = h
lay_out-IsValid seat mode primary (some commands) d l h =
    elim (Bool-cases (run_all seat commands).0) [
      | inl b ↦ rw b (
          save-IsValid (record d { primary = primary; layout = mode })
            (record { rotations = h.rotations; layout = l }))
      | inr b ↦ rw b h
    ]

either-IsValid :
    (b : Bool) (x : DisplayError) (d : Display) (o : Outcome)
    → IsValid d
    → IsValid o.1.0
    → let r : Outcome = if b then (some x, (d, [])) else o in IsValid r.1.0
either-IsValid true x d o h k = h
either-IsValid false x d o h k = k

set_layout-IsValid :
    (seat : Seat) (mode req : Text) (d : Display)
    → IsValid d
    → IsValid (set_layout seat mode req d).1.0
unfolding set_layout
set_layout-IsValid seat mode req d h =
    let outs = enumerate seat in
    let primary = if is_empty req then parse_xrandr_primary outs else req in
    let commands = layout_commands mode primary (other_names primary outs) in
    let laid : Outcome = lay_out seat mode primary commands d in
    let single = not (text_eq mode (text "single")) && ltb (length outs) 2 in
    let enough : Outcome = if single then (some one_output, (d, [])) else laid in
    let listed : Outcome = if length outs == 0 then (some no_outputs, (d, [])) else enough in
    unless_refused (not (is_layout mode)) seat.wayland seat.foreground bad_layout on_wayland
      in_foreground d listed h
      (λ e. either-IsValid (length outs == 0) no_outputs d enough h (
        either-IsValid single one_output d laid h
          (lay_out-IsValid seat mode primary commands d (ground (arith, e)) h)))

apply_rotation_at_boot-IsValid :
    (seat : Seat) (d : Display) → IsValid d → IsValid (apply_rotation_at_boot seat d).0
unfolding apply_rotation_at_boot
apply_rotation_at_boot-IsValid seat d h = refresh_outputs-IsValid seat d h

apply_layout_at_boot-IsValid :
    (seat : Seat) (d : Display) → IsValid d → IsValid (apply_layout_at_boot seat d).1.0
unfolding apply_layout_at_boot
apply_layout_at_boot-IsValid seat d h =
    elim (Bool-cases (text_eq d.layout (text "mirror") || text_eq d.layout (text "extend"))) [
      | inl b ↦ rw b (set_layout-IsValid seat d.layout [] d h)
      | inr b ↦ rw b h
    ]

-- A boot from any file, an operation, the outputs listed again, or a change of the disk.
pub data Step : Display → Display → Type 0 where
  booted : (disk : Disk) (d : Display) → Step d (new_display disk)
  rotated :
      (seat : Seat) (output : Text) (deg : ℕ) (d : Display) → Step d (rotate seat output deg d).1.0
  powered :
      (seat : Seat) (output : Text) (on : Bool) (d : Display) → Step d (screen seat output on d).1.0
  laid_out : (seat : Seat) (mode req : Text) (d : Display) → Step d (set_layout seat mode req d).1.0
  refreshed : (seat : Seat) (d : Display) → Step d (refresh_outputs seat d)
  rotated_at_boot : (seat : Seat) (d : Display) → Step d (apply_rotation_at_boot seat d).0
  laid_out_at_boot : (seat : Seat) (d : Display) → Step d (apply_layout_at_boot seat d).1.0
  disk_changed : (disk : Disk) (d : Display) → Step d (record d { disk = disk })

pub data Reach : Display → Type 0 where
  started : (disk : Disk) → Reach (new_display disk)
  then_step : (d d' : Display) → Reach d → Step d d' → Reach d'

Step-IsValid : (d d' : Display) → Step d d' → IsValid d → IsValid d'
Step-IsValid d d' (booted disk e) h = new_display-IsValid disk
Step-IsValid d d' (rotated seat output deg e) h = rotate-IsValid seat output deg e h
Step-IsValid d d' (powered seat output on e) h = screen-IsValid seat output on e h
Step-IsValid d d' (laid_out seat mode req e) h = set_layout-IsValid seat mode req e h
Step-IsValid d d' (refreshed seat e) h = refresh_outputs-IsValid seat e h
Step-IsValid d d' (rotated_at_boot seat e) h = apply_rotation_at_boot-IsValid seat e h
Step-IsValid d d' (laid_out_at_boot seat e) h = apply_layout_at_boot-IsValid seat e h
Step-IsValid d d' (disk_changed disk e) h = record { rotations = h.rotations; layout = h.layout }

-- Through boots from any file, rotations, sleeps, layouts and outputs that come and go, every
-- rotation is one of the four and the layout is one of the three.
pub Reach-IsValid : (d : Display) → Reach d → IsValid d
Reach-IsValid d (started disk) = new_display-IsValid disk
Reach-IsValid d (then_step e d' r s) = Step-IsValid e d s (Reach-IsValid e r)
