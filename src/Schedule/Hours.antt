-- ===== src/Schedule/Hours.antt =====
-- `parseHHMM` (agent/displaystate.go): what it gives.
use sideshow.Base.{ℕ, ◌≤◌, ◌≡◌, true, Option, none, some, [], ◌∷◌, arith, Text}
use sideshow.Schedule.Clock.{
  Scanned, in_range, with_minutes, after_hours, with_hours, scan_int, or_zero, minute_of,
}

in_range-le : (r : Scanned) (n : ℕ) → in_range r n ≡ true → r.value ≤ n
in_range-le r n h = ground arith

or_zero-with_minutes-le : (h : Scanned) (m : Option Scanned) → or_zero (with_minutes h m) ≤ 1439
or_zero-with_minutes-le h none = omega arith
or_zero-with_minutes-le h (some m) = ground (arith, in_range-le h 23, in_range-le m 59)

or_zero-after_hours-le : (h : Scanned) (s : Text) → or_zero (after_hours h s) ≤ 1439
or_zero-after_hours-le h [] = omega arith
or_zero-after_hours-le h (c ∷ s) = ground (arith, or_zero-with_minutes-le h (scan_int s))

or_zero-with_hours-le : (h : Option Scanned) → or_zero (with_hours h) ≤ 1439
or_zero-with_hours-le none = omega arith
or_zero-with_hours-le (some h) = or_zero-after_hours-le h h.rest

-- A time of day is before midnight.
pub minute_of-le : (s : Text) → minute_of s ≤ 1439
unfolding minute_of
minute_of-le [] = omega arith
minute_of-le (c ∷ s) = or_zero-with_hours-le (scan_int (c ∷ s))
