-- ===== src/Schedule/Keys.antt =====
-- The key of a transition (agent/weekly.go), by which `tick` tells transitions apart.
use mathlib.Core.List.{append_assoc}
use sideshow.Base.{
  ℕ, ◌<◌, ◌≡◌, ◌≢◌, refl, sym, ap, ◌∙◌, true, some, [], ◌∷◌, ◌++◌, length, All, arith, Text, text,
}
use sideshow.Schedule.{Entry}
use sideshow.Schedule.Calendar.{Date, padded, format_date, is_date, parse_date}
use sideshow.Schedule.Dates.{parse_date-format_date}
use sideshow.Schedule.Timeline.{key_of}

append_inj :
    (xs ys us vs : Text) → length xs ≡ length us → xs ++ ys ≡ us ++ vs → (xs ≡ us) × (ys ≡ vs)
append_inj [] ys [] vs l h = (refl, h)
append_inj [] ys (u ∷ us) vs l h = ground arith
append_inj (x ∷ xs) ys [] vs l h = ground arith
append_inj (x ∷ xs) ys (u ∷ us) vs l h =
    let r = append_inj xs ys us vs (omega arith) cc in (cc, r.1)

-- 124 is `|`.
abbrev pub HasNoBar : Text → Type 0
HasNoBar s = All (λ c. c ≢ 124) s

bar_inj :
    (xs ys us vs : Text)
    → HasNoBar xs
    → HasNoBar us
    → xs ++ 124 ∷ ys ≡ us ++ 124 ∷ vs
    → (xs ≡ us) × (ys ≡ vs)
bar_inj [] ys [] vs hx hu h = (refl, cc)
bar_inj [] ys (u ∷ us) vs hx hu h = ground (arith, hu.0)
bar_inj (x ∷ xs) ys [] vs hx hu h = ground (arith, hx.0)
bar_inj (x ∷ xs) ys (u ∷ us) vs hx hu h = let r = bar_inj xs ys us vs hx.1 hu.1 cc in (cc, r.1)

some_inj : {x y : Date} → some x ≡ some y → x ≡ y
some_inj h = cc

tail_eq : {c : ℕ} {s t : Text} → c ∷ s ≡ c ∷ t → s ≡ t
tail_eq h = cc

length-format_date : (d : Date) → length (format_date d) ≡ 10
unfolding format_date padded
length-format_date d = refl

key_parts : (d : Date) (e : Entry) → key_of d e ≡ format_date d ++ 84 ∷ (e.at ++ 124 ∷ e.action)
unfolding key_of
key_parts d e =
    append_assoc (format_date d ++ text "T" ++ e.at) (text "|") e.action
    ∙ append_assoc (format_date d ++ text "T") e.at (124 ∷ e.action)
    ∙ append_assoc (format_date d) (text "T") (e.at ++ 124 ∷ e.action)

format_date_inj :
    (d d' : Date)
    → is_date d ≡ true
    → is_date d' ≡ true
    → d.year < 10000
    → d'.year < 10000
    → format_date d ≡ format_date d'
    → d ≡ d'
format_date_inj d d' h h' l l' e =
    some_inj
      (sym (parse_date-format_date d h l) ∙ ap parse_date e ∙ parse_date-format_date d' h' l')

-- The key names the transition: on calendar dates with years of at most four digits, entries whose
-- time holds no `|` have the same key only when date, time and action are the same, so `tick` takes no
-- transition for one that it has fired.
pub key_of_inj :
    (d d' : Date) (e e' : Entry)
    → is_date d ≡ true
    → is_date d' ≡ true
    → d.year < 10000
    → d'.year < 10000
    → HasNoBar e.at
    → HasNoBar e'.at
    → key_of d e ≡ key_of d' e'
    → (d ≡ d') × (e ≡ e')
key_of_inj d d' e e' h h' l l' b b' k =
    let parts =
      append_inj (format_date d) (84 ∷ (e.at ++ 124 ∷ e.action)) (format_date d')
        (84 ∷ (e'.at ++ 124 ∷ e'.action)) (length-format_date d ∙ sym (length-format_date d'))
        (sym (key_parts d e) ∙ k ∙ key_parts d' e') in
    let fields = bar_inj e.at e.action e'.at e'.action b b' (tail_eq parts.1) in
    (format_date_inj d d' h h' l l' parts.0, λ i. record { at = fields.0 i; action = fields.1 i })
