-- ===== src/Schedule/Accept.antt =====
-- What `Set` accepts, and what becomes of it (agent/weekly.go).
use sideshow.Base.{
  ◌≡◌, ◌↔◌, refl, Bool, true, false, not, Option, none, some, List, [], ◌∷◌, All, Bool-cases, inl,
  inr, arith, is_empty, text_eq, trim_space,
}
use sideshow.Schedule.{
  Entry, Exception, Nightly, Weekday, Days, weekdays, Info, sunday, monday, tuesday, wednesday,
  thursday, friday, saturday,
}
use sideshow.Schedule.Calendar.{valid_schedule_date}
use sideshow.Schedule.Engine.{
  ScheduleError, bad_time, no_action, bad_date, bad_sleep, bad_wake, equal_times, first_error,
  refuse, is_time, check_entries, check_days, check_exceptions, check_nightly, check,
}

abbrev pub IsAccepted : Entry → Type 0
IsAccepted e = (is_time e.at ≡ true) × (is_empty (trim_space e.action) ≡ false)

abbrev pub IsAcceptableNightly : Nightly → Type 0
IsAcceptableNightly n =
    n.enabled ≡ true
    → (is_time n.sleep ≡ true)
      × ((is_time n.wake ≡ true) × (text_eq (trim_space n.sleep) (trim_space n.wake) ≡ false))

-- What an operator may submit.
pub record IsAcceptable (i : Info) : Type 0 where
  pub entries : (d : Weekday) → All IsAccepted (i.days d)
  pub dates : All (λ ex. valid_schedule_date ex.date ≡ true) i.exceptions
  pub nightly : IsAcceptableNightly i.nightly

first_error-none :
    (a b : Option ScheduleError) → (first_error a b ≡ none) ↔ ((a ≡ none) × (b ≡ none))
first_error-none none b = (λ h. (refl, h), λ h. h.1)
first_error-none (some e) b = (λ h. ground arith, λ h. ground arith)

-- One check after another accepts what each accepts.
first_error_iff {ℓ κ} :
    {P : Type ℓ} {Q : Type κ} (a b : Option ScheduleError)
    → (a ≡ none) ↔ P
    → (b ≡ none) ↔ Q
    → (first_error a b ≡ none) ↔ (P × Q)
first_error_iff a b f g = (
  λ h. (f.0 ((first_error-none a b).0 h).0, g.0 ((first_error-none a b).0 h).1),
  λ h. (first_error-none a b).1 (f.1 h.0, g.1 h.1),
)

refuse-none : (b : Bool) (e : ScheduleError) → (refuse b e ≡ none) ↔ (b ≡ false)
refuse-none true e = (λ h. ground arith, λ h. ground arith)
refuse-none false e = (λ h. refl, λ h. refl)

refuse-not-none : (b : Bool) (e : ScheduleError) → (refuse (not b) e ≡ none) ↔ (b ≡ true)
refuse-not-none true e = (λ h. refl, λ h. refl)
refuse-not-none false e = (λ h. ground arith, λ h. ground arith)

check_entries-All : (es : List Entry) → (check_entries es ≡ none) ↔ All IsAccepted es
unfolding check_entries
check_entries-All [] = (λ h. tt, λ h. refl)
check_entries-All (e ∷ es) =
    let i =
      first_error_iff (refuse (not (is_time e.at)) bad_time) _
        (refuse-not-none (is_time e.at) bad_time)
        (first_error_iff (refuse (is_empty (trim_space e.action)) no_action) (check_entries es)
          (refuse-none (is_empty (trim_space e.action)) no_action) (check_entries-All es)) in
    (λ h. (((i.0 h).0, (i.0 h).1.0), (i.0 h).1.1), λ h. i.1 (h.0.0, (h.0.1, h.1)))

check_exceptions-All :
    (exs : List Exception)
    → (check_exceptions exs ≡ none) ↔ All (λ ex. valid_schedule_date ex.date ≡ true) exs
unfolding check_exceptions
check_exceptions-All [] = (λ h. tt, λ h. refl)
check_exceptions-All (ex ∷ exs) =
    first_error_iff (refuse (not (valid_schedule_date ex.date)) bad_date) (check_exceptions exs)
      (refuse-not-none (valid_schedule_date ex.date) bad_date) (check_exceptions-All exs)

check_days-All :
    (ds : List Weekday) (days : Days)
    → (check_days ds days ≡ none) ↔ All (λ d. All IsAccepted (days d)) ds
unfolding check_days
check_days-All [] days = (λ h. tt, λ h. refl)
check_days-All (d ∷ ds) days =
    first_error_iff (check_entries (days d)) (check_days ds days) (check_entries-All (days d))
      (check_days-All ds days)

module _ {κ} (P : Weekday → Type κ) where
  every_day : All P weekdays → (d : Weekday) → P d
  every_day h sunday = h.0
  every_day h monday = h.1.0
  every_day h tuesday = h.1.1.0
  every_day h wednesday = h.1.1.1.0
  every_day h thursday = h.1.1.1.1.0
  every_day h friday = h.1.1.1.1.1.0
  every_day h saturday = h.1.1.1.1.1.1.0

  week : ((d : Weekday) → P d) → All P weekdays
  week h =
      (h sunday, (h monday, (h tuesday, (h wednesday, (h thursday, (h friday, (h saturday, tt)))))))

check_nightly_iff : (n : Nightly) → (check_nightly n ≡ none) ↔ IsAcceptableNightly n
unfolding check_nightly
check_nightly_iff n = elim (Bool-cases n.enabled) [
  | inl b ↦ rw b (
      let i =
        first_error_iff (refuse (not (is_time n.sleep)) bad_sleep) _
          (refuse-not-none (is_time n.sleep) bad_sleep)
          (first_error_iff (refuse (not (is_time n.wake)) bad_wake) _
            (refuse-not-none (is_time n.wake) bad_wake)
            (refuse-none (text_eq (trim_space n.sleep) (trim_space n.wake)) equal_times)) in
      ((λ h e. i.0 h), (λ h. i.1 (h refl))))
  | inr b ↦ rw b ((λ h e. ground arith), (λ h. refl))
]

pub check_iff : (i : Info) → (check i ≡ none) ↔ IsAcceptable i
unfolding check
check_iff i =
    let j = first_error_iff (check_days weekdays i.days) _ (check_days-All weekdays i.days) (
      first_error_iff (check_exceptions i.exceptions) (check_nightly i.nightly)
        (check_exceptions-All i.exceptions) (check_nightly_iff i.nightly)) in
    (
      λ h. record {
        entries = every_day (λ d. All IsAccepted (i.days d)) (j.0 h).0;
        dates = (j.0 h).1.0;
        nightly = (j.0 h).1.1;
      },
      λ h. j.1 (week (λ d. All IsAccepted (i.days d)) h.entries, (h.dates, h.nightly)),
    )
