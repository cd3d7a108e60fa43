-- ===== src/Schedule/Dates.antt =====
-- Dates as texts (agent/weekly.go): `t.Format("2006-01-02")` and `time.Parse` on that layout, and
-- which exception `dayEntriesLocked` takes.
use mathlib.Core.List.{append_assoc, append-nil}
use sideshow.Base.{
  ℕ, zero, suc, ◌+◌, ◌*◌, ◌-◌, ◌/◌, ◌%◌, ◌≤◌, ◌<◌, ◌≡◌, refl, sym, ap, ◌∙◌, true, false, none, some,
  List, [], ◌∷◌, ◌++◌, All, Bool-cases, inl, inr, arith, Text, is_space,
}
use sideshow.Schedule.Clock.{is_digit}
use sideshow.Schedule.Calendar.{
  Date, padded, format_date, exact_digits, days_in, is_date, with_day, with_month, with_year,
  parse_date,
}

-- The first number with more than `width` digits.
limit : ℕ → ℕ
limit zero = 1
limit (suc w) = 10 * limit w

exact_take :
    (w n c : ℕ) (s : Text)
    → is_digit c ≡ true
    → exact_digits (suc w) n (c ∷ s) ≡ exact_digits w (n * 10 + (c - 48)) s
unfolding exact_digits
exact_take w n c s h = rw h refl

exact_stop : (w n c : ℕ) (s : Text) → is_digit c ≡ false → exact_digits (suc w) n (c ∷ s) ≡ none
unfolding exact_digits
exact_stop w n c s h = rw h refl

exact_digits-snoc :
    (w n v c : ℕ) (s rest : Text)
    → exact_digits w n s ≡ some (v, c ∷ rest)
    → is_digit c ≡ true
    → exact_digits (suc w) n s ≡ some (v * 10 + (c - 48), rest)
unfolding exact_digits
exact_digits-snoc zero n v c [] rest h d = ground arith
exact_digits-snoc zero n v c (x ∷ s) rest h d = ground arith
exact_digits-snoc (suc w) n v c [] rest h d = ground arith
exact_digits-snoc (suc w) n v c (x ∷ s) rest h d = elim (Bool-cases (is_digit x)) [
  | inl b ↦
      exact_take (suc w) n x s b
      ∙ exact_digits-snoc w (n * 10 + (x - 48)) v c s rest (sym (exact_take w n x s b) ∙ h) d
  | inr b ↦ ground (arith, exact_stop w n x s b)
]

last_digit : (k : ℕ) → is_digit (48 + k % 10) ≡ true
last_digit k = ground arith

digit_value : (k : ℕ) → k / 10 * 10 + (48 + k % 10 - 48) ≡ k
digit_value k = omega arith

exact_digits-padded :
    (w k : ℕ) (rest : Text) → k < limit w → exact_digits w 0 (padded w k ++ rest) ≡ some (k, rest)
unfolding exact_digits padded limit
exact_digits-padded zero k rest l = ground arith
exact_digits-padded (suc w) k rest l =
    ap (exact_digits (suc w) 0) (append_assoc (padded w (k / 10)) ((48 + k % 10) ∷ []) rest)
    ∙ exact_digits-snoc w 0 (k / 10) (48 + k % 10) (padded w (k / 10) ++ (48 + k % 10) ∷ rest) rest
        (exact_digits-padded w (k / 10) ((48 + k % 10) ∷ rest) (omega arith)) (last_digit k)
    ∙ ap (λ v. some (v, rest)) (digit_value k)

abbrev NoSpace : Text → Type 0
NoSpace s = All (λ c. is_space c ≡ false) s

days_in-le : (m y : ℕ) → days_in m y ≤ 31
unfolding days_in
days_in-le m y = ground arith

limit-4 : (y : ℕ) → y < 10000 → y < limit 4
unfolding limit
limit-4 y l = l

month-lt : (d : Date) → is_date d ≡ true → d.month < limit 2
unfolding is_date limit
month-lt d h = ground arith

day-lt : (d : Date) → is_date d ≡ true → d.day < limit 2
unfolding is_date limit
day-lt d h = ground (arith, days_in-le d.month d.year)

with_day-is_date :
    (d : Date) → is_date d ≡ true → with_day d.year d.month (some (d.day, [])) ≡ some d
with_day-is_date d h = rw h refl

-- `Parse` reads what `Format` prints of a calendar date with a year of at most four digits.
pub parse_date-format_date :
    (d : Date) → is_date d ≡ true → d.year < 10000 → parse_date (format_date d) ≡ some d
unfolding parse_date format_date padded
parse_date-format_date d h l =
    let last = padded 2 d.day in
    let rest = padded 2 d.month ++ 45 ∷ last in
    ap with_year (exact_digits-padded 4 d.year (45 ∷ rest) (limit-4 d.year l))
    ∙ ap (with_month d.year) (exact_digits-padded 2 d.month (45 ∷ last) (month-lt d h))
    ∙ ap (with_day d.year d.month) (
        ap (exact_digits 2 0) (sym (append-nil last)) ∙ exact_digits-padded 2 d.day [] (day-lt d h))
    ∙ with_day-is_date d h
