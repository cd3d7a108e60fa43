-- ===== src/Base/Decimal.antt =====
-- Different numbers are printed differently by `%d`.
use Prim.Native.Nat.{ℕ, zero, suc, ◌+◌, ◌-◌, ◌*◌, ◌/◌, ◌%◌, ◌≤◌, ◌<◌}
use mathlib.Core.Path.{◌≡◌, refl, sym, ap, ◌∙◌}
use mathlib.Core.Logic.{inl, inr}
use mathlib.Core.List.{[], ◌∷◌, ◌++◌}
use native.Mathlib.Omega.{arith}
use mathlib.Core.Bool.{Bool, true, ◌&&◌}
use sideshow.Base.Lists.{All, All-append}
use sideshow.Base.Tests.{ltb, leb, Bool-cases}
use sideshow.Base.Strings.{Text}
use sideshow.Base.Words.{digits_of, decimal}

-- The number that digits stand for.
value : ℕ → Text → ℕ
value n [] = n
value n (c ∷ s) = value (10 * n + (c - 48)) s

value-append : (n : ℕ) (s t : Text) → value n (s ++ t) ≡ value (value n s) t
unfolding value
value-append n [] t = refl
value-append n (c ∷ s) t = value-append (10 * n + (c - 48)) s t

value-digits_of : (fuel n : ℕ) → n < fuel → value 0 (digits_of fuel n) ≡ n
unfolding value digits_of
value-digits_of zero n h = absurd (omega arith)
value-digits_of (suc fuel) n h = elim (Bool-cases (ltb n 10)) [
  | inl b ↦ rw b (omega arith)
  | inr b ↦
      let big : 10 ≤ n = ground arith in
      rw
        (
          b,
          value-append 0 (digits_of fuel (n / 10)) ((48 + n % 10) ∷ []),
          value-digits_of fuel (n / 10) (omega arith),
        )
        (omega arith)
]

pub decimal_inj : (m n : ℕ) → decimal m ≡ decimal n → m ≡ n
unfolding decimal
decimal_inj m n e =
    sym (value-digits_of (m + 1) m (omega arith))
    ∙ ap (value 0) e
    ∙ value-digits_of (n + 1) n (omega arith)

abbrev pub is_digit : ℕ → Bool
is_digit c = leb 48 c && leb c 57

digits_of-is_digit : (fuel n : ℕ) → All (λ c. is_digit c ≡ true) (digits_of fuel n)
unfolding digits_of
digits_of-is_digit zero n = tt
digits_of-is_digit (suc fuel) n = elim (Bool-cases (ltb n 10)) [
  | inl b ↦ rw b (ground arith, tt)
  | inr b ↦ rw b (
      All-append (λ c. is_digit c ≡ true) (digits_of fuel (n / 10)) ((48 + n % 10) ∷ [])
        (digits_of-is_digit fuel (n / 10)) (ground arith, tt))
]

pub decimal-is_digit : (n : ℕ) → All (λ c. is_digit c ≡ true) (decimal n)
unfolding decimal
decimal-is_digit n = digits_of-is_digit (n + 1) n
