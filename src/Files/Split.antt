-- ===== src/Files/Split.antt =====
-- Splitting a path at its slashes, and joining its names again.
use sideshow.Base.{
  ℕ, ◌≡◌, ◌≢◌, refl, ap, ◌∙◌, arith, Bool, true, false, List, [], ◌∷◌, ◌++◌, All, Bool-cases, inl,
  inr, ◌==◌, Text, text, text_eq, split_on, join_on, onto_first, enter, go_up, enter_all, slash,
}

-- A name without a slash.
abbrev pub IsPlain : Text → Type 0
IsPlain = All (λ c. c ≢ slash)

split_on-plain : (s : Text) → IsPlain s → split_on slash s ≡ s ∷ []
unfolding split_on
split_on-plain [] h = refl
split_on-plain (c ∷ s) h =
    let other : (c == slash) ≡ false = ground arith in rw (split_on-plain s h.1, other) refl

split_on-append : (s r : Text) → IsPlain s → split_on slash (s ++ slash ∷ r) ≡ s ∷ split_on slash r
unfolding split_on
split_on-append [] r h = refl
split_on-append (c ∷ s) r h =
    let other : (c == slash) ≡ false = ground arith in rw (split_on-append s r h.1, other) refl

-- Names that are joined are split again.
pub split_on-join_on :
    (n : Text) (ns : List Text)
    → All IsPlain (n ∷ ns)
    → split_on slash (join_on slash (n ∷ ns)) ≡ n ∷ ns
unfolding join_on
split_on-join_on n [] h = split_on-plain n h.0
split_on-join_on n (m ∷ ns) h =
    split_on-append n (join_on slash (m ∷ ns)) h.0 ∙ ap (λ ms. n ∷ ms) (split_on-join_on m ns h.1)

onto_first-IsPlain :
    (c : ℕ) (ns : List Text) → c ≢ slash → All IsPlain ns → All IsPlain (onto_first c ns)
onto_first-IsPlain c [] h all = ((h, tt), tt)
onto_first-IsPlain c (n ∷ ns) h all = ((h, all.0), all.1)

-- The names of a path have no slash.
pub split_on-IsPlain : (p : Text) → All IsPlain (split_on slash p)
unfolding split_on
split_on-IsPlain [] = (tt, tt)
split_on-IsPlain (c ∷ p) = elim (Bool-cases (c == slash)) [
  | inl b ↦ rw b (tt, split_on-IsPlain p)
  | inr b ↦
      rw b
        (onto_first-IsPlain c (split_on slash p) (λ e. ground (arith, e, b)) (split_on-IsPlain p))
]

go_up-IsPlain : (rooted : Bool) (ns : List Text) → All IsPlain ns → All IsPlain (go_up rooted ns)
go_up-IsPlain true [] h = tt
go_up-IsPlain false [] h = (ground arith, tt)
go_up-IsPlain rooted (n ∷ ns) h = elim (Bool-cases (text_eq n (text ".."))) [
  | inl b ↦ rw b (ground arith, h)
  | inr b ↦ rw b h.1
]

enter-IsPlain :
    (rooted : Bool) (n : Text) (ns : List Text)
    → IsPlain n
    → All IsPlain ns
    → All IsPlain (enter rooted n ns)
enter-IsPlain rooted n ns h all = ground (arith, go_up-IsPlain rooted ns all)

pub enter_all-IsPlain :
    (rooted : Bool) (ms ns : List Text)
    → All IsPlain ms
    → All IsPlain ns
    → All IsPlain (enter_all rooted ms ns)
unfolding enter_all
enter_all-IsPlain rooted [] ns h all = all
enter_all-IsPlain rooted (m ∷ ms) ns h all =
    enter_all-IsPlain rooted ms (enter rooted m ns) h.1 (enter-IsPlain rooted m ns h.0 all)
