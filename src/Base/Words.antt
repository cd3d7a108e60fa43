-- ===== src/Base/Words.antt =====
-- `strings.Fields`, which splits at white space, and the decimal digits that
-- `%d` prints.
use Prim.Native.Nat.{ℕ, zero, suc, ◌+◌, ◌/◌, ◌%◌}
use mathlib.Core.Path.{◌≡◌, refl}
use mathlib.Core.Logic.{inl, inr}
use mathlib.Core.Bool.{false}
use mathlib.Core.List.{List, [], ◌∷◌, ◌++◌}
use sideshow.Base.Tests.{ltb, if◌then◌else◌, Bool-cases}
use sideshow.Base.Lists.{All}
use sideshow.Base.Strings.{Text, is_space, is_empty}

-- A word that is ready is put before the words that follow.
abbrev close_word : Text → List Text → List Text
close_word [] rest = rest
close_word (c ∷ w) rest = (c ∷ w) ∷ rest

-- `word` is what was read of the current word.
fields_from : Text → Text → List Text
fields_from word [] = close_word word []
fields_from word (c ∷ s) =
    let here = fields_from [] s in
    let on = fields_from (word ++ c ∷ []) s in if is_space c then close_word word here else on

-- `strings.Fields(s)`
unfoldable pub fields : Text → List Text
unfolding fields_from is_space
fields s = fields_from [] s

close_word_not_empty :
    (w : Text) (rest : List Text)
    → All (λ x. is_empty x ≡ false) rest
    → All (λ x. is_empty x ≡ false) (close_word w rest)
close_word_not_empty [] rest h = h
close_word_not_empty (c ∷ w) rest h = (refl, h)

fields_from_not_empty : (w s : Text) → All (λ x. is_empty x ≡ false) (fields_from w s)
unfolding fields_from
fields_from_not_empty w [] = close_word_not_empty w [] tt
fields_from_not_empty w (c ∷ s) = elim (Bool-cases (is_space c)) [
  | inl b ↦ rw b (close_word_not_empty w (fields_from [] s) (fields_from_not_empty [] s))
  | inr b ↦ rw b (fields_from_not_empty (w ++ c ∷ []) s)
]

-- No word is empty.
pub fields_not_empty : (s : Text) → All (λ x. is_empty x ≡ false) (fields s)
unfolding fields
fields_not_empty s = fields_from_not_empty [] s

unfoldable pub digits_of : ℕ → ℕ → Text
digits_of zero n = []
digits_of (suc fuel) n =
    let higher = digits_of fuel (n / 10) in
    if ltb n 10 then (48 + n) ∷ [] else higher ++ (48 + n % 10) ∷ []

-- `%d` of a number from 0 on. A number has at most as many digits as it has units, and one.
unfoldable pub decimal : ℕ → Text
unfolding digits_of
decimal n = digits_of (n + 1) n
