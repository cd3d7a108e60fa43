-- ===== src/Actions/Words.antt =====
-- Which characters a slug holds (agent/actions.go).
use sideshow.Base.{
  ℕ, zero, suc, ◌≡◌, refl, arith, Bool, true, false, ◌||◌, ◌==◌, List, [], ◌∷◌, ◌++◌, length, All,
  All-append, inl, inr, Bool-cases, Text, text, is_empty, trim_space, to_lower, decimal, is_digit,
  decimal-is_digit, trim_of, trim_left_of, trim_right_of,
}
use sideshow.Actions.{Action}
use sideshow.Actions.Slugs.{
  is_slug_char, dash, squeeze, slugify, is_taken, numbered, next_free, unique_slug,
}
use sideshow.Actions.Store.{first_filled, wanted_slug}

-- Letters, digits and dashes.
abbrev pub IsWord : Text → Type 0
IsWord = All (λ c. (is_slug_char c || c == dash) ≡ true)

-- A slug that can stand in a URL.
abbrev pub IsSlug : Text → Type 0
IsSlug s = (is_empty s ≡ false) × IsWord s

squeeze-IsWord : (inside : Bool) (s : Text) → IsWord (squeeze inside s)
unfolding squeeze
squeeze-IsWord inside [] = tt
squeeze-IsWord inside (c ∷ s) = ground (arith, squeeze-IsWord false s, squeeze-IsWord true s)

trim_left_of-IsWord : (d : ℕ) (s : Text) → IsWord s → IsWord (trim_left_of d s)
trim_left_of-IsWord d [] h = tt
trim_left_of-IsWord d (c ∷ s) h = ground (arith, trim_left_of-IsWord d s h.1)

trim_right_of-IsWord : (d : ℕ) (s : Text) → IsWord s → IsWord (trim_right_of d s)
trim_right_of-IsWord d [] h = tt
trim_right_of-IsWord d (c ∷ s) h = ground (arith, trim_right_of-IsWord d s h.1)

slugify-IsWord : (s : Text) → IsWord (slugify s)
unfolding slugify trim_of
slugify-IsWord s =
    trim_right_of-IsWord dash (trim_left_of dash (squeeze false (to_lower (trim_space s)))) (
      trim_left_of-IsWord dash (squeeze false (to_lower (trim_space s)))
        (squeeze-IsWord false (to_lower (trim_space s))))

first_filled-IsWord : (s t : Text) → IsWord s → IsWord t → IsWord (first_filled s t)
first_filled-IsWord [] t hs ht = ht
first_filled-IsWord (c ∷ s) t hs ht = hs

first_filled_not_empty : (s : Text) → is_empty (first_filled s (text "action")) ≡ false
first_filled_not_empty [] = refl
first_filled_not_empty (c ∷ s) = refl

pub wanted_slug-IsSlug : (a : Action) → IsSlug (wanted_slug a)
unfolding wanted_slug
wanted_slug-IsSlug a =
    let own = slugify a.slug in
    let named = slugify (trim_space a.name) in
    (
      first_filled_not_empty (first_filled own named),
      first_filled-IsWord (first_filled own named) (text "action")
          (first_filled-IsWord own named (slugify-IsWord a.slug)
            (slugify-IsWord (trim_space a.name)))
          (ground arith),
    )

digits-IsWord : (s : Text) → All (λ c. is_digit c ≡ true) s → IsWord s
digits-IsWord [] h = tt
digits-IsWord (c ∷ s) h = (ground (arith, h.0), digits-IsWord s h.1)

append_not_empty : (s t : Text) → is_empty s ≡ false → is_empty (s ++ t) ≡ false
append_not_empty [] t h = absurd cc
append_not_empty (c ∷ s) t h = refl

numbered-IsSlug : (slug : Text) (n : ℕ) → IsSlug slug → IsSlug (numbered slug n)
unfolding numbered
numbered-IsSlug slug n h =
    let is_char : ℕ → Type 0 = λ c. (is_slug_char c || c == dash) ≡ true in
    let dashed = All-append is_char slug (text "-") h.1 (ground arith) in
    (
      append_not_empty (slug ++ text "-") (decimal n) (append_not_empty slug (text "-") h.0),
      All-append is_char (slug ++ text "-") (decimal n) dashed
          (digits-IsWord (decimal n) (decimal-is_digit n)),
    )

next_free-IsSlug :
    (fuel : ℕ) (slug : Text) (taken : List Text) (n : ℕ)
    → IsSlug slug
    → IsSlug (next_free fuel slug taken n)
unfolding next_free
next_free-IsSlug zero slug taken n h = numbered-IsSlug slug n h
next_free-IsSlug (suc fuel) slug taken n h = elim (Bool-cases (is_taken (numbered slug n) taken)) [
  | inl b ↦ rw b (next_free-IsSlug fuel slug taken (suc n) h)
  | inr b ↦ rw b (numbered-IsSlug slug n h)
]

-- What `uniqueSlug` makes of a slug is one.
pub unique_slug-IsSlug :
    (slug : Text) (taken : List Text) → IsSlug slug → IsSlug (unique_slug slug taken)
unfolding unique_slug
unique_slug-IsSlug slug taken h = elim (Bool-cases (is_taken slug taken)) [
  | inl b ↦ rw b (next_free-IsSlug (length taken) slug taken 2 h)
  | inr b ↦ rw b h
]
