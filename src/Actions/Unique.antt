-- ===== src/Actions/Unique.antt =====
-- The search of `uniqueSlug` (agent/actions.go) ends.
use sideshow.Base.{
  ℕ, zero, suc, ◌≤◌, ◌≡◌, refl, sym, ◌∙◌, arith, true, false, not, List, [], ◌∷◌, ◌++◌, length,
  keep_if, inl, inr, Bool-cases, Text, text, text_eq, text_eq_iff, decimal, decimal_inj,
}
use sideshow.Actions.Slugs.{is_taken, numbered, next_free, unique_slug}

append_inj : (s t u : Text) → s ++ t ≡ s ++ u → t ≡ u
append_inj [] t u e = e
append_inj (c ∷ s) t u e = append_inj s t u (cc)

-- Different numbers make different slugs.
numbered_inj : (slug : Text) (m n : ℕ) → numbered slug m ≡ numbered slug n → m ≡ n
unfolding numbered
numbered_inj slug m n e = decimal_inj m n (append_inj (slug ++ text "-") (decimal m) (decimal n) e)

abbrev without : Text → List Text → List Text
without s taken = keep_if (λ t. not (text_eq t s)) taken

length-without-le : (s : Text) (taken : List Text) → length (without s taken) ≤ length taken
length-without-le s [] = omega arith
length-without-le s (t ∷ ts) = ground (arith, length-without-le s ts)

-- A taken slug that is left out makes the list shorter.
length-without-lt :
    (s : Text) (taken : List Text)
    → is_taken s taken ≡ true
    → suc (length (without s taken)) ≤ length taken
unfolding is_taken
length-without-lt s [] h = absurd cc
length-without-lt s (t ∷ ts) h = elim (Bool-cases (text_eq t s)) [
  | inl b ↦ rw b (omega (arith, length-without-le s ts))
  | inr b ↦ rw b (omega (arith, length-without-lt s ts (ground arith)))
]

text_eq-distinct : (u s t : Text) → u ≡ s → text_eq t s ≡ false → text_eq u t ≡ false
text_eq-distinct u s t e d = elim (Bool-cases (text_eq u t)) [
  | inl b ↦
      let same : t ≡ s = sym ((text_eq_iff u t).0 b) ∙ e in
      let yes = (text_eq_iff t s).1 same in absurd cc
  | inr b ↦ b
]

-- What is taken besides another slug is still there without that.
is_taken-without :
    (s t : Text) (taken : List Text)
    → text_eq t s ≡ false
    → is_taken t taken ≡ true
    → is_taken t (without s taken) ≡ true
unfolding is_taken
is_taken-without s t [] d h = h
is_taken-without s t (u ∷ us) d h = elim (Bool-cases (text_eq u s)) [
  | inl b ↦
      let other = text_eq-distinct u s t ((text_eq_iff u s).0 b) d in
      rw b (is_taken-without s t us d (ground (arith, other)))
  | inr b ↦ rw b (ground (arith, is_taken-without s t us d))
]

numbered_apart :
    (slug : Text) (m n : ℕ) → suc n ≤ m → text_eq (numbered slug m) (numbered slug n) ≡ false
numbered_apart slug m n le = elim (Bool-cases (text_eq (numbered slug m) (numbered slug n))) [
  | inl b ↦
      let same = numbered_inj slug m n ((text_eq_iff (numbered slug m) (numbered slug n)).0 b) in
      absurd (omega arith)
  | inr b ↦ b
]

next_free-is_taken :
    (fuel : ℕ) (slug : Text) (taken left : List Text) (n : ℕ)
    → length left ≤ fuel
    → ((m : ℕ)
        → n ≤ m
        → is_taken (numbered slug m) taken ≡ true
        → is_taken (numbered slug m) left ≡ true)
    → is_taken (next_free fuel slug taken n) taken ≡ false
unfolding next_free is_taken
next_free-is_taken zero slug taken [] n l h = elim (Bool-cases (is_taken (numbered slug n) taken)) [
  | inl b ↦ let there = h n (omega arith) b in absurd cc
  | inr b ↦ b
]
next_free-is_taken zero slug taken (t ∷ ts) n l h = absurd (omega arith)
next_free-is_taken (suc fuel) slug taken left n l h =
    elim (Bool-cases (is_taken (numbered slug n) taken)) [
      | inl b ↦ rw b (
          next_free-is_taken fuel slug taken (without (numbered slug n) left) (suc n)
            (omega (arith, length-without-lt (numbered slug n) left (h n (omega arith) b)))
            (λ m le tk.
              is_taken-without (numbered slug n) (numbered slug m) left (numbered_apart slug m n le)
                (h m (omega arith) tk)))
      | inr b ↦ rw (b, b) refl
    ]

-- The search for a slug ends with one that is not taken.
pub unique_slug-is_taken :
    (slug : Text) (taken : List Text) → is_taken (unique_slug slug taken) taken ≡ false
unfolding unique_slug
unique_slug-is_taken slug taken = elim (Bool-cases (is_taken slug taken)) [
  | inl b ↦ rw b (next_free-is_taken (length taken) slug taken taken 2 (omega arith) (λ m l h. h))
  | inr b ↦ rw (b, b) refl
]
