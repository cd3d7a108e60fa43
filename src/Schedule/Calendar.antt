-- ===== src/Schedule/Calendar.antt =====
-- The node's local calendar as the scheduler uses package `time`: `Parse` and `Format` with the
-- layout `2006-01-02`, `Weekday` and `AddDate(0, 0, -1)`. Years have at most four digits.
use sideshow.Base.{
  ℕ, zero, suc, ◌+◌, ◌*◌, ◌-◌, ◌/◌, ◌%◌, Bool, not, ◌&&◌, ◌||◌, Option, none, some, [], ◌∷◌, ◌++◌,
  ltb, leb, ◌==◌, if◌then◌else◌, is_some, Text, trim_space,
}
use sideshow.Schedule.{Weekday, sunday, monday, tuesday, wednesday, thursday, friday, saturday}
use sideshow.Schedule.Clock.{is_digit}

pub record Date : Type 0 where
  pub year : ℕ
  pub month : ℕ
  pub day : ℕ

pub record Time : Type 0 where
  pub date : Date
  pub hour : ℕ
  pub minute : ℕ

unfoldable pub is_leap : ℕ → Bool
is_leap y = y % 4 == 0 && (not (y % 100 == 0) || y % 400 == 0)

-- `daysIn(m, year)`
unfoldable pub days_in : ℕ → ℕ → ℕ
unfolding is_leap
days_in m y =
    if m == 2
    then (if is_leap y then 29 else 28)
    else if m == 4 || m == 6 || m == 9 || m == 11
    then 30
    else 31

days_before : ℕ → ℕ → ℕ
unfolding days_in
days_before zero y = 0
days_before (suc zero) y = 0
days_before (suc (suc m)) y = days_before (suc m) y + days_in (suc m) y

-- The number of a day, counted from the last of December in the year zero, a Sunday.
unfoldable pub day_number : Date → ℕ
unfolding days_before
day_number d =
    let y = d.year - 1 in y * 365 + y / 4 - y / 100 + y / 400 + days_before d.month d.year + d.day

abbrev weekday_at : ℕ → Weekday
weekday_at n =
    if n == 0
    then sunday
    else if n == 1
    then monday
    else if n == 2
    then tuesday
    else if n == 3
    then wednesday
    else if n == 4
    then thursday
    else if n == 5
    then friday
    else saturday

unfoldable pub weekday : Date → Weekday
unfolding day_number
weekday d = weekday_at (day_number d % 7)

-- `t.AddDate(0, 0, -1)`
unfoldable pub day_before : Date → Date
unfolding days_in
day_before d =
    if ltb 1 d.day
    then record d { day = d.day - 1 }
    else if ltb 1 d.month
    then record { year = d.year; month = d.month - 1; day = days_in (d.month - 1) d.year }
    else record { year = d.year - 1; month = 12; day = 31 }

-- A number in exactly `width` digits.
unfoldable pub padded : ℕ → ℕ → Text
padded zero n = []
padded (suc width) n = padded width (n / 10) ++ (48 + n % 10) ∷ []

-- `t.Format("2006-01-02")`; 45 is `-`.
unfoldable pub format_date : Date → Text
unfolding padded
format_date d = padded 4 d.year ++ 45 ∷ (padded 2 d.month ++ 45 ∷ padded 2 d.day)

-- `width` digits at the front, after those that make `n`.
unfoldable pub exact_digits : ℕ → ℕ → Text → Option (ℕ × Text)
exact_digits zero n s = some (n, s)
exact_digits (suc width) n [] = none
exact_digits (suc width) n (c ∷ s) =
    let rest = exact_digits width (n * 10 + (c - 48)) s in if is_digit c then rest else none

abbrev pub dashed : Text → Option Text
dashed [] = none
dashed (c ∷ s) = if c == 45 then some s else none

unfoldable pub is_date : Date → Bool
unfolding days_in
is_date d = leb 1 d.month && leb d.month 12 && leb 1 d.day && leb d.day (days_in d.month d.year)

abbrev pub with_day : ℕ → ℕ → Option (ℕ × Text) → Option Date
with_day y m (some (d, [])) =
    let date : Date = record { year = y; month = m; day = d } in
    if is_date date then some date else none
with_day y m _ = none

abbrev pub before_day : ℕ → ℕ → Option Text → Option Date
before_day y m none = none
before_day y m (some s) = with_day y m (exact_digits 2 0 s)

abbrev pub with_month : ℕ → Option (ℕ × Text) → Option Date
with_month y none = none
with_month y (some (m, s)) = before_day y m (dashed s)

abbrev pub before_month : ℕ → Option Text → Option Date
before_month y none = none
before_month y (some s) = with_month y (exact_digits 2 0 s)

abbrev pub with_year : Option (ℕ × Text) → Option Date
with_year none = none
with_year (some (y, s)) = before_month y (dashed s)

-- `time.Parse("2006-01-02", s)`
unfoldable pub parse_date : Text → Option Date
unfolding exact_digits is_date
parse_date s = with_year (exact_digits 4 0 s)

unfoldable pub valid_schedule_date : Text → Bool
unfolding parse_date trim_space
valid_schedule_date s = is_some (parse_date (trim_space s))
