-- ===== src/Schedule/Clock.antt =====
-- `parseHHMM` (agent/displaystate.go) with what `fmt.Sscanf` does on the format `%d:%d`: white space
-- before a number is skipped, a newline is refused, a sign is allowed, and text after the second
-- number is not read.
use sideshow.Base.{
  ℕ, ◌+◌, ◌*◌, ◌-◌, Bool, true, false, not, ◌&&◌, ◌||◌, Option, none, some, [], ◌∷◌, leb, ◌==◌,
  if◌then◌else◌, Text, is_space,
}

abbrev pub is_digit : ℕ → Bool
is_digit c = leb 48 c && leb c 57

-- `SkipSpace` of the scanner
unfoldable pub skip_space : Text → Option Text
skip_space [] = some []
skip_space (c ∷ s) =
    let rest = skip_space s in if c == 10 then none else if is_space c then rest else some (c ∷ s)

-- The digits from here on, after those that make `n`.
unfoldable pub scan_digits : ℕ → Text → ℕ × Text
scan_digits n [] = (n, [])
scan_digits n (c ∷ s) =
    let rest = scan_digits (n * 10 + (c - 48)) s in if is_digit c then rest else (n, c ∷ s)

-- What `%d` reads: whether there was a minus, the number, and the text behind it.
pub record Scanned : Type 0 where
  pub negative : Bool
  pub value : ℕ
  pub rest : Text

abbrev pub scanned : Bool → ℕ × Text → Scanned
scanned negative r = record { negative = negative; value = r.0; rest = r.1 }

abbrev pub scan_unsigned : Bool → Text → Option Scanned
scan_unsigned negative [] = none
scan_unsigned negative (c ∷ s) =
    if is_digit c then some (scanned negative (scan_digits 0 (c ∷ s))) else none

-- 43 is `+` and 45 is `-`.
abbrev pub scan_signed : Text → Option Scanned
scan_signed [] = none
scan_signed (c ∷ s) =
    if c == 43
    then scan_unsigned false s
    else if c == 45
    then scan_unsigned true s
    else scan_unsigned false (c ∷ s)

abbrev pub scan_after : Option Text → Option Scanned
scan_after none = none
scan_after (some s) = scan_signed s

-- `%d`
unfoldable pub scan_int : Text → Option Scanned
unfolding skip_space scan_digits
scan_int s = scan_after (skip_space s)

-- `h < 0 || h > most`, negated. A minus zero is zero.
abbrev pub in_range : Scanned → ℕ → Bool
in_range r most = (not r.negative || r.value == 0) && leb r.value most

abbrev pub with_minutes : Scanned → Option Scanned → Option ℕ
with_minutes h none = none
with_minutes h (some m) =
    if in_range h 23 && in_range m 59 then some (h.value * 60 + m.value) else none

-- 58 is `:`.
abbrev pub after_hours : Scanned → Text → Option ℕ
after_hours h [] = none
after_hours h (c ∷ s) = if c == 58 then with_minutes h (scan_int s) else none

abbrev pub with_hours : Option Scanned → Option ℕ
with_hours none = none
with_hours (some h) = after_hours h h.rest

-- `parseHHMM(s)`, `none` for `(0, false)`
unfoldable pub parse_hhmm : Text → Option ℕ
unfolding scan_int
parse_hhmm [] = none
parse_hhmm (c ∷ s) = with_hours (scan_int (c ∷ s))

abbrev pub or_zero : Option ℕ → ℕ
or_zero none = 0
or_zero (some n) = n

-- `m, _ := parseHHMM(s)`
unfoldable pub minute_of : Text → ℕ
unfolding parse_hhmm
minute_of s = or_zero (parse_hhmm s)
