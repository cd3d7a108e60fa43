-- ===== src/Schedule/Sorted.antt =====
-- The stable sort of a timeline (agent/weekly.go).
use sideshow.Base.{
  ℕ, suc, ◌≤◌, ◌≡◌, refl, ap, ◌∙◌, List, [], ◌∷◌, leb, length, All, inl, inr, Bool-cases, arith,
}
use sideshow.Schedule.{Entry}
use sideshow.Schedule.Sanitize.{minute, insert_by_time, sort_entries_by_time}

-- Every entry comes no later than those behind it.
abbrev pub IsSorted : List Entry → Type 0
IsSorted [] = Unit
IsSorted (e ∷ es) = All (λ x. minute e ≤ minute x) es × IsSorted es

module _ {κ} (P : Entry → Type κ) where
  pub All-insert : (e : Entry) (xs : List Entry) → P e → All P xs → All P (insert_by_time e xs)
  unfolding insert_by_time
  All-insert e [] h hs = (h, tt)
  All-insert e (x ∷ xs) h hs = elim (Bool-cases (leb (minute e) (minute x))) [
    | inl b ↦ rw b (h, hs)
    | inr b ↦ rw b (hs.0, All-insert e xs h hs.1)
  ]

  pub All-sort : (xs : List Entry) → All P xs → All P (sort_entries_by_time xs)
  unfolding sort_entries_by_time
  All-sort [] h = tt
  All-sort (x ∷ xs) h = All-insert x (sort_entries_by_time xs) h.0 (All-sort xs h.1)

pub later :
    (m n : ℕ) (xs : List Entry) → m ≤ n → All (λ x. n ≤ minute x) xs → All (λ x. m ≤ minute x) xs
later m n [] l h = tt
later m n (x ∷ xs) l h = (omega (arith, h.0), later m n xs l h.1)

insert-IsSorted : (e : Entry) (xs : List Entry) → IsSorted xs → IsSorted (insert_by_time e xs)
unfolding insert_by_time
insert-IsSorted e [] h = (tt, tt)
insert-IsSorted e (x ∷ xs) h = elim (Bool-cases (leb (minute e) (minute x))) [
  | inl b ↦
      let l : minute e ≤ minute x = ground arith in
      rw b ((l, later (minute e) (minute x) xs l h.0), h)
  | inr b ↦
      let l : minute x ≤ minute e = ground arith in
      rw b (All-insert (λ y. minute x ≤ minute y) e xs l h.0, insert-IsSorted e xs h.1)
]

pub sort-IsSorted : (xs : List Entry) → IsSorted (sort_entries_by_time xs)
unfolding sort_entries_by_time
sort-IsSorted [] = tt
sort-IsSorted (x ∷ xs) = insert-IsSorted x (sort_entries_by_time xs) (sort-IsSorted xs)

length-insert : (e : Entry) (xs : List Entry) → length (insert_by_time e xs) ≡ suc (length xs)
unfolding insert_by_time
length-insert e [] = refl
length-insert e (x ∷ xs) = ground (arith, length-insert e xs)

pub length-sort : (xs : List Entry) → length (sort_entries_by_time xs) ≡ length xs
unfolding sort_entries_by_time
length-sort [] = refl
length-sort (x ∷ xs) = length-insert x (sort_entries_by_time xs) ∙ ap suc (length-sort xs)

insert_front :
    (e : Entry) (xs : List Entry) → All (λ x. minute e ≤ minute x) xs → insert_by_time e xs ≡ e ∷ xs
unfolding insert_by_time
insert_front e [] h = refl
insert_front e (x ∷ xs) h = ground (arith, h.0)

pub sort_sorted : (xs : List Entry) → IsSorted xs → sort_entries_by_time xs ≡ xs
unfolding sort_entries_by_time
sort_sorted [] h = refl
sort_sorted (x ∷ xs) h = rw (sort_sorted xs h.1) (insert_front x xs h.0)
