-- ===== src/Display/Valid.antt =====
-- What holds of the display through its operations (agent/displaystate.go).
use sideshow.Base.{
  ℕ, ◌≡◌, refl, subst, arith, true, ◌&&◌, ◌||◌, not, ◌==◌, Option, none, some, is_some, [], ◌∷◌,
  length, All, All-keep_if, if◌then◌else◌, inl, inr, Bool-cases, Text, text, text_eq, text_eq_refl,
  is_empty,
}
use sideshow.Display.Xrandr.{parse_xrandr_primary}
use sideshow.Display.State.{
  Rotations, Kept, Disk, Display, Seat, lookup, put, remove, is_rotation, save, loaded_rotations,
  rotations_of, layout_of, with_kept, new_display, enumerate, resolved, with_primary,
  refresh_outputs, primary_name,
}
use sideshow.Display.Ops.{resolve_output, is_layout}

-- Every rotation is one of the four.
abbrev pub AllRotations : Rotations → Type 0
AllRotations = All (λ e. is_rotation e.1 ≡ true)

pub record IsValid (d : Display) : Type 0 where
  pub rotations : AllRotations d.rotations
  pub layout : is_layout d.layout ≡ true

pub put-AllRotations :
    (k : Text) (deg : ℕ) (m : Rotations)
    → is_rotation deg ≡ true
    → AllRotations m
    → AllRotations (put k deg m)
unfolding put
put-AllRotations k deg [] r h = (r, tt)
put-AllRotations k deg ((n, a) ∷ rest) r h = elim (Bool-cases (text_eq n k)) [
  | inl b ↦ rw b (r, h.1)
  | inr b ↦ rw b (h.0, put-AllRotations k deg rest r h.1)
]

lookup-is_rotation :
    (k : Text) (deg : ℕ) (m : Rotations)
    → AllRotations m
    → lookup k m ≡ some deg
    → is_rotation deg ≡ true
unfolding lookup
lookup-is_rotation k deg [] h e = absurd cc
lookup-is_rotation k deg ((n, a) ∷ rest) h e = elim (Bool-cases (text_eq n k)) [
  | inl b ↦ let same : a ≡ deg = ground arith in subst (λ x. is_rotation x ≡ true) same h.0
  | inr b ↦ lookup-is_rotation k deg rest h.1 (ground arith)
]

loaded_rotations-AllRotations : (m : Rotations) → AllRotations (loaded_rotations m)
unfolding loaded_rotations
loaded_rotations-AllRotations [] = tt
loaded_rotations-AllRotations ((n, deg) ∷ rest) = elim (Bool-cases (is_rotation deg)) [
  | inl b ↦
      rw b (put-AllRotations n deg (loaded_rotations rest) b (loaded_rotations-AllRotations rest))
  | inr b ↦ rw b (loaded_rotations-AllRotations rest)
]

rotations_of-AllRotations : (k : Kept) → AllRotations (rotations_of k)
rotations_of-AllRotations k = ground (arith, loaded_rotations-AllRotations k.rotations)

layout_of-is_layout : (l : Text) → is_layout (layout_of l) ≡ true
layout_of-is_layout l = elim (Bool-cases (text_eq l (text "mirror") || text_eq l (text "extend"))) [
  | inl b ↦ rw b (ground (arith, b))
  | inr b ↦ rw (b, text_eq_refl (text "single")) refl
]

with_kept-IsValid : (o : Option Kept) (d : Display) → IsValid d → IsValid (with_kept o d)
with_kept-IsValid none d h = h
with_kept-IsValid (some k) d h = record {
  rotations = rotations_of-AllRotations k;
  layout = layout_of-is_layout k.layout;
}

pub new_display-IsValid : (disk : Disk) → IsValid (new_display disk)
unfolding new_display
new_display-IsValid disk =
    with_kept-IsValid (if disk.has_path then disk.file else none) _
      (record { rotations = tt; layout = rw (text_eq_refl (text "single")) refl })

pub save-IsValid : (d : Display) → IsValid d → IsValid (save d)
unfolding save
save-IsValid d h = elim (Bool-cases (d.disk.has_path && d.disk.writable)) [
  | inl b ↦ rw b (record { rotations = h.rotations; layout = h.layout })
  | inr b ↦ rw b h
]

resolved-AllRotations :
    (p : Text) (o : Option ℕ) (m : Rotations)
    → ((deg : ℕ) → o ≡ some deg → is_rotation deg ≡ true)
    → AllRotations m
    → AllRotations (resolved p o m)
unfolding remove
resolved-AllRotations p none m v h = h
resolved-AllRotations p (some deg) m v h = elim (Bool-cases (is_some (lookup p m))) [
  | inl b ↦ rw b (All-keep_if (λ e. is_rotation e.1 ≡ true) (λ e. not (text_eq e.0 [])) m h)
  | inr b ↦ rw b (
      All-keep_if (λ e. is_rotation e.1 ≡ true) (λ e. not (text_eq e.0 [])) (put p deg m)
        (put-AllRotations p deg m (v deg refl) h))
]

with_primary-IsValid : (p : Text) (d : Display) → IsValid d → IsValid (with_primary p d)
with_primary-IsValid [] d h = record { rotations = h.rotations; layout = h.layout }
with_primary-IsValid (c ∷ p) d h = record {
  rotations =
      resolved-AllRotations (c ∷ p) (lookup [] d.rotations) d.rotations
        (λ deg e. lookup-is_rotation [] deg d.rotations h.rotations e) h.rotations;
  layout = h.layout;
}

pub refresh_outputs-IsValid :
    (seat : Seat) (d : Display) → IsValid d → IsValid (refresh_outputs seat d)
unfolding refresh_outputs
refresh_outputs-IsValid seat d h = elim (Bool-cases (length (enumerate seat) == 0)) [
  | inl b ↦ rw b h
  | inr b ↦ rw b (with_primary-IsValid (parse_xrandr_primary (enumerate seat)) d h)
]

pub primary_name-IsValid : (seat : Seat) (d : Display) → IsValid d → IsValid (primary_name seat d)
unfolding primary_name
primary_name-IsValid seat d h = elim (Bool-cases (is_empty d.primary)) [
  | inl b ↦ rw b (refresh_outputs-IsValid seat d h)
  | inr b ↦ rw b h
]

pub resolve_output-IsValid :
    (seat : Seat) (output : Text) (d : Display)
    → IsValid d
    → IsValid (resolve_output seat output d).1
resolve_output-IsValid seat [] d h = primary_name-IsValid seat d h
resolve_output-IsValid seat (c ∷ output) d h = h
