-- ===== src/Mode/Normal.antt =====
-- `normalize` (agent/modes.go).
use sideshow.Base.{
  ◌≡◌, refl, Text, text, is_empty, trim_space, to_lower, to_lower_trim_idem, Bool-cases, inl, inr,
  if◌then◌else◌,
}
use sideshow.Mode.{Mode, normalize}

display_word : Text → Text
display_word s = let d = to_lower (trim_space s) in if is_empty d then text "compositor" else d

compositor_word : to_lower (trim_space (text "compositor")) ≡ text "compositor"
unfolding to_lower trim_space
compositor_word = refl

display_word_idem : (s : Text) → display_word (display_word s) ≡ display_word s
unfolding display_word
display_word_idem s = elim (Bool-cases (is_empty (to_lower (trim_space s)))) [
  | inl e ↦ rw e (rw compositor_word)
  | inr e ↦ rw e (rw (to_lower_trim_idem, e))
]

-- Normalizing twice is normalizing once, so a mode that comes back from a runner or from the state
-- file passes `Switch` unchanged.
pub normalize_idem : (m : Mode) → normalize (normalize m) ≡ normalize m
unfolding normalize display_word
normalize_idem m = λ i. record {
  type = to_lower_trim_idem m.type i;
  params = m.params;
  display = display_word_idem m.display i;
}
