-- ===== src/Schedule/Picked.antt =====
-- The pick of `desiredLocked` in a sorted timeline is the latest entry of the unsorted one
-- (agent/weekly.go).
use sideshow.Base.{
  ℕ, ◌≤◌, ◌≡◌, refl, sym, ap, ◌∙◌, true, false, Option, none, some, List, [], ◌∷◌, leb,
  if◌then◌else◌, last?, All, inl, inr, Bool-cases, arith,
}
use sideshow.Schedule.{Entry}
use sideshow.Schedule.Hours.{minute_of-le}
use sideshow.Schedule.Sanitize.{minute, insert_by_time, sort_entries_by_time}
use sideshow.Schedule.Sorted.{IsSorted, later, sort-IsSorted}
use sideshow.Schedule.Timeline.{pick_from}

-- The entry with the greatest time of day up to `now`, the one furthest behind among equals.
abbrev pub prefer : Entry → Option Entry → Option Entry
prefer e none = some e
prefer e (some x) = if leb (minute e) (minute x) then some x else some e

abbrev pub consider : ℕ → Entry → Option Entry → Option Entry
consider now e rest = if leb (minute e) now then prefer e rest else rest

unfoldable pub latest : ℕ → List Entry → Option Entry
unfolding minute
latest now [] = none
latest now (e ∷ es) = consider now e (latest now es)

abbrev or_entry : Entry → Option Entry → Option Entry
or_entry b none = some b
or_entry b (some x) = some x

or_entry_twice : (b e : Entry) (o : Option Entry) → or_entry e o ≡ or_entry b (or_entry e o)
or_entry_twice b e none = refl
or_entry_twice b e (some x) = refl

module _ (now : ℕ) where
  pick_take :
      (best : Option Entry) (e : Entry) (es : List Entry)
      → leb (minute e) now ≡ true
      → pick_from best now (e ∷ es) ≡ pick_from (some e) now es
  unfolding pick_from
  pick_take best e es h = rw h refl

  pick_stop :
      (best : Option Entry) (e : Entry) (es : List Entry)
      → leb (minute e) now ≡ false
      → pick_from best now (e ∷ es) ≡ best
  unfolding pick_from
  pick_stop best e es h = rw h refl

  pick_from-some :
      (b : Entry) (es : List Entry) → pick_from (some b) now es ≡ or_entry b (pick_from none now es)
  unfolding pick_from
  pick_from-some b [] = refl
  pick_from-some b (e ∷ es) = elim (Bool-cases (leb (minute e) now)) [
    | inl h ↦ rw (h, pick_from-some e es) (or_entry_twice b e (pick_from none now es))
    | inr h ↦ rw h refl
  ]

insert_here :
    (e x : Entry) (xs : List Entry)
    → leb (minute e) (minute x) ≡ true
    → insert_by_time e (x ∷ xs) ≡ e ∷ (x ∷ xs)
unfolding insert_by_time
insert_here e x xs h = rw h refl

insert_on :
    (e x : Entry) (xs : List Entry)
    → leb (minute e) (minute x) ≡ false
    → insert_by_time e (x ∷ xs) ≡ x ∷ insert_by_time e xs
unfolding insert_by_time
insert_on e x xs h = rw h refl

-- What holds of all entries holds of the pick.
abbrev OfPick {κ} : (Entry → Type κ) → Option Entry → Type κ
OfPick P none = Unit
OfPick P (some e) = P e

module _ {κ} (P : Entry → Type κ) (now : ℕ) where
  pick-All :
      (best : Option Entry) (es : List Entry)
      → OfPick P best
      → All P es
      → OfPick P (pick_from best now es)
  unfolding pick_from
  pick-All best [] h hs = h
  pick-All best (e ∷ es) h hs = elim (Bool-cases (leb (minute e) now)) [
    | inl b ↦ rw b (pick-All (some e) es hs.0 hs.1)
    | inr b ↦ rw b h
  ]

consider_front :
    (now : ℕ) (e : Entry) (p : Option Entry)
    → leb (minute e) now ≡ true
    → OfPick (λ y. minute e ≤ minute y) p
    → or_entry e p ≡ consider now e p
consider_front now e none c h = ground arith
consider_front now e (some y) c h = ground arith

consider_skip :
    (now : ℕ) (e x : Entry) (p : Option Entry)
    → leb (minute e) (minute x) ≡ false
    → or_entry x (consider now e p) ≡ consider now e (or_entry x p)
consider_skip now e x none b = ground arith
consider_skip now e x (some y) b = ground arith

consider_none :
    (now : ℕ) (e : Entry) (p : Option Entry) → leb (minute e) now ≡ false → p ≡ consider now e p
consider_none now e p c = rw c refl

pick-insert_nil :
    (now : ℕ) (e : Entry)
    → pick_from none now (insert_by_time e []) ≡ consider now e (pick_from none now [])
unfolding pick_from insert_by_time
pick-insert_nil now e = refl

pick-insert :
    (now : ℕ) (e : Entry) (xs : List Entry)
    → IsSorted xs
    → pick_from none now (insert_by_time e xs) ≡ consider now e (pick_from none now xs)
pick-insert now e [] h = pick-insert_nil now e
pick-insert now e (x ∷ xs) h = elim (Bool-cases (leb (minute e) (minute x))) [
  | inl b ↦ elim (Bool-cases (leb (minute e) now)) [
    | inl c ↦
        rw (insert_here e x xs b, pick_take now none e (x ∷ xs) c, pick_from-some now e (x ∷ xs))
          (consider_front now e (pick_from none now (x ∷ xs)) c (
            pick-All (λ y. minute e ≤ minute y) now none (x ∷ xs) tt
              (ground arith, later (minute e) (minute x) xs (ground arith) h.0)))
    | inr c ↦
        rw
          (
            insert_here e x xs b,
            pick_stop now none e (x ∷ xs) c,
            pick_stop now none x xs (ground arith),
          )
          (consider_none now e none c)
  ]
  | inr b ↦ elim (Bool-cases (leb (minute x) now)) [
    | inl c ↦
        rw
          (
            insert_on e x xs b,
            pick_take now none x (insert_by_time e xs) c,
            pick_take now none x xs c,
            pick_from-some now x (insert_by_time e xs),
            pick_from-some now x xs,
            pick-insert now e xs h.1,
          )
          (consider_skip now e x (pick_from none now xs) b)
    | inr c ↦
        rw
          (
            insert_on e x xs b,
            pick_stop now none x (insert_by_time e xs) c,
            pick_stop now none x xs c,
          )
          (consider_none now e none (ground arith))
  ]
]

pub pick-sort :
    (now : ℕ) (es : List Entry) → pick_from none now (sort_entries_by_time es) ≡ latest now es
unfolding pick_from sort_entries_by_time latest
pick-sort now [] = refl
pick-sort now (e ∷ es) =
    pick-insert now e (sort_entries_by_time es) (sort-IsSorted es)
    ∙ ap (consider now e) (pick-sort now es)

in_day : (e : Entry) → leb (minute e) 1439 ≡ true
unfolding minute
in_day e = ground (arith, minute_of-le e.at)

pick_nil : (best : Option Entry) → pick_from best 1439 [] ≡ best
unfolding pick_from
pick_nil best = refl

pick-last :
    (best : Option Entry) (e : Entry) (es : List Entry)
    → pick_from best 1439 (e ∷ es) ≡ last? (e ∷ es)
pick-last best e [] = pick_take 1439 best e [] (in_day e) ∙ pick_nil (some e)
pick-last best e (x ∷ es) = pick_take 1439 best e (x ∷ es) (in_day e) ∙ pick-last (some e) x es

last_pick : (es : List Entry) → last? es ≡ pick_from none 1439 es
last_pick [] = sym (pick_nil none)
last_pick (e ∷ es) = sym (pick-last none e es)

pub last-sort : (es : List Entry) → last? (sort_entries_by_time es) ≡ latest 1439 es
last-sort es = last_pick (sort_entries_by_time es) ∙ pick-sort 1439 es
