-- ===== src/Schedule/Clean.antt =====
-- What the cleaning functions of the scheduler give (agent/weekly.go), and that they leave alone
-- what is clean.
use sideshow.Base.{
  ℕ, zero, suc, ◌≤◌, ◌≡◌, refl, sym, subst, ap, Bool, true, false, not, ◌&&◌, List, [], ◌∷◌,
  is_some, is_empty, text_eq, length, All, inl, inr, Bool-cases, arith, Text, trim_space,
  trim_space_idem,
}
use sideshow.Schedule.{Entry, Exception, Nightly}
use sideshow.Schedule.Clock.{parse_hhmm}
use sideshow.Schedule.Calendar.{valid_schedule_date}
use sideshow.Schedule.Sanitize.{
  max_schedule_entries, trimmed, is_usable, collect_entries, sanitize_entries, sanitize_exceptions,
  time_or_empty, sanitize_nightly,
}
use sideshow.Schedule.Sorted.{IsSorted, All-sort, sort-IsSorted, length-sort, sort_sorted}

-- Trimmed, with an action and a time of day.
pub record IsUsable (e : Entry) : Type 0 where
  pub trim : trimmed e ≡ e
  pub usable : is_usable (trimmed e) ≡ true

pub record IsClean (es : List Entry) : Type 0 where
  pub sorted : IsSorted es
  pub bounded : length es ≤ max_schedule_entries
  pub entries : All IsUsable es

trimmed_idem : (e : Entry) → trimmed (trimmed e) ≡ trimmed e
unfolding trimmed
trimmed_idem e = λ i. record { at = trim_space_idem e.at i; action = trim_space_idem e.action i }

trimmed-IsUsable : (e : Entry) → is_usable (trimmed e) ≡ true → IsUsable (trimmed e)
trimmed-IsUsable e b = record {
  trim = trimmed_idem e;
  usable = subst (λ x. is_usable x ≡ true) (sym (trimmed_idem e)) b;
}

collect-All : (room : ℕ) (es : List Entry) → All IsUsable (collect_entries room es)
unfolding collect_entries
collect-All zero es = tt
collect-All (suc room) [] = tt
collect-All (suc room) (e ∷ es) = elim (Bool-cases (is_usable (trimmed e))) [
  | inl b ↦ rw b (trimmed-IsUsable e b, collect-All room es)
  | inr b ↦ rw b (collect-All (suc room) es)
]

length-collect-le : (room : ℕ) (es : List Entry) → length (collect_entries room es) ≤ room
unfolding collect_entries
length-collect-le zero es = omega arith
length-collect-le (suc room) [] = omega arith
length-collect-le (suc room) (e ∷ es) =
    ground (arith, length-collect-le room es, length-collect-le (suc room) es)

pub sanitize_entries-IsClean : (es : List Entry) → IsClean (sanitize_entries es)
unfolding sanitize_entries
sanitize_entries-IsClean es =
    let kept = collect_entries max_schedule_entries es in
    record {
      sorted = sort-IsSorted kept;
      bounded = rw (length-sort kept) (length-collect-le max_schedule_entries es);
      entries = All-sort IsUsable kept (collect-All max_schedule_entries es);
    }

collect_clean :
    (room : ℕ) (es : List Entry) → length es ≤ room → All IsUsable es → collect_entries room es ≡ es
unfolding collect_entries
collect_clean zero [] l h = refl
collect_clean zero (e ∷ es) l h = ground arith
collect_clean (suc room) [] l h = refl
collect_clean (suc room) (e ∷ es) l h =
    rw (h.0.usable, h.0.trim) (ap (λ r. e ∷ r) (collect_clean room es (omega arith) h.1))

pub sanitize_clean : (es : List Entry) → IsClean es → sanitize_entries es ≡ es
unfolding sanitize_entries
sanitize_clean es h =
    rw (collect_clean max_schedule_entries es h.bounded h.entries) (sort_sorted es h.sorted)

pub sanitize_entries_idem :
    (es : List Entry) → sanitize_entries (sanitize_entries es) ≡ sanitize_entries es
sanitize_entries_idem es = sanitize_clean (sanitize_entries es) (sanitize_entries-IsClean es)

pub sanitize_exceptions_idem :
    (exs : List Exception) → sanitize_exceptions (sanitize_exceptions exs) ≡ sanitize_exceptions exs
unfolding sanitize_exceptions
sanitize_exceptions_idem [] = refl
sanitize_exceptions_idem (ex ∷ exs) = elim (Bool-cases (valid_schedule_date ex.date)) [
  | inl b ↦ rw (b, b, sanitize_entries_idem ex.entries, sanitize_exceptions_idem exs) refl
  | inr b ↦ rw b (sanitize_exceptions_idem exs)
]

time_or_empty_idem : (s : Text) → time_or_empty (time_or_empty s) ≡ time_or_empty s
unfolding time_or_empty
time_or_empty_idem s = elim (Bool-cases (is_some (parse_hhmm (trim_space s)))) [
  | inl b ↦ rw (b, trim_space_idem, b) refl
  | inr b ↦ rw b refl
]

guards_idem : (a b c d : Bool) → ((a && b && c && d) && b && c && d) ≡ (a && b && c && d)
guards_idem a b c d = ground arith

sanitize_enabled : Nightly → Bool
unfolding sanitize_nightly
sanitize_enabled n = (sanitize_nightly n).enabled

sanitize_enabled_idem : (n : Nightly) → sanitize_enabled (sanitize_nightly n) ≡ sanitize_enabled n
unfolding sanitize_enabled
sanitize_enabled_idem n =
    rw (time_or_empty_idem n.sleep, time_or_empty_idem n.wake)
      (guards_idem n.enabled (not (is_empty (time_or_empty n.sleep)))
        (not (is_empty (time_or_empty n.wake)))
        (not (text_eq (time_or_empty n.sleep) (time_or_empty n.wake))))

pub sanitize_nightly_idem :
    (n : Nightly) → sanitize_nightly (sanitize_nightly n) ≡ sanitize_nightly n
unfolding sanitize_enabled
sanitize_nightly_idem n = λ i. record {
  enabled = sanitize_enabled_idem n i;
  sleep = time_or_empty_idem n.sleep i;
  wake = time_or_empty_idem n.wake i;
}

-- On only with two different times of day.
abbrev pub IsWindow : Nightly → Type 0
IsWindow n =
    n.enabled ≡ true
    → (is_some (parse_hhmm n.sleep) ≡ true)
      × ((is_some (parse_hhmm n.wake) ≡ true) × (text_eq n.sleep n.wake ≡ false))

time_or_empty-time :
    (s : Text) → is_empty (time_or_empty s) ≡ false → is_some (parse_hhmm (time_or_empty s)) ≡ true
unfolding time_or_empty
time_or_empty-time s h = elim (Bool-cases (is_some (parse_hhmm (trim_space s)))) [
  | inl b ↦ rw (b, b) refl
  | inr b ↦ ground arith
]

and_split :
    (a b c d : Bool)
    → (a && not b && not c && not d) ≡ true
    → (b ≡ false) × ((c ≡ false) × (d ≡ false))
and_split a b c d h = ground arith

pub sanitize_nightly-IsWindow : (n : Nightly) → IsWindow (sanitize_nightly n)
unfolding sanitize_nightly
sanitize_nightly-IsWindow n h =
    let r =
      and_split n.enabled (is_empty (time_or_empty n.sleep)) (is_empty (time_or_empty n.wake))
        (text_eq (time_or_empty n.sleep) (time_or_empty n.wake)) h in
    (time_or_empty-time n.sleep r.0, (time_or_empty-time n.wake r.1.0, r.1.1))
