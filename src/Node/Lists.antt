-- ===== src/Node/Lists.antt =====
-- Lists of items that are told apart by an id.
use sideshow.Base.{
  ℕ, zero, suc, ◌≤◌, ◌≡◌, refl, ap, Bool, true, false, List, [], ◌∷◌, map, take, length, keep_if,
  All, All-take, All-keep_if, Bool-cases, inl, inr, arith, text_eq,
}
use sideshow.Node.{HistoryItem}

module _ {ℓ} {A : Type ℓ} (p : A → Bool) where
  -- What passes is kept.
  pub keep_if_passing : (xs : List A) → All (λ x. p x ≡ true) xs → keep_if p xs ≡ xs
  keep_if_passing [] h = refl
  keep_if_passing (x ∷ xs) h = rw (h.0, keep_if_passing xs h.1) refl

  pub keep_if-passes : (xs : List A) → All (λ x. p x ≡ true) (keep_if p xs)
  keep_if-passes [] = tt
  keep_if-passes (x ∷ xs) = elim (Bool-cases (p x)) [
    | inl b ↦ rw b (b, keep_if-passes xs)
    | inr b ↦ rw b (keep_if-passes xs)
  ]

pub length-map {ℓ κ} :
    {A : Type ℓ} {B : Type κ} (f : A → B) (xs : List A) → length (map f xs) ≡ length xs
length-map f [] = refl
length-map f (x ∷ xs) = ap suc (length-map f xs)

pub take-take {ℓ} : {A : Type ℓ} (m n : ℕ) (xs : List A) → m ≤ n → take m (take n xs) ≡ take m xs
take-take zero n xs l = refl
take-take (suc m) zero xs l = ground arith
take-take (suc m) (suc n) [] l = refl
take-take (suc m) (suc n) (x ∷ xs) l = ap (λ r. x ∷ r) (take-take m n xs (omega arith))

-- No item has the id of one before it.
abbrev pub IsDistinct : List HistoryItem → Type 0
IsDistinct [] = Unit
IsDistinct (h ∷ hs) = All (λ x. text_eq x.id h.id ≡ false) hs × IsDistinct hs

pub keep_if-IsDistinct :
    (p : HistoryItem → Bool) (hs : List HistoryItem) → IsDistinct hs → IsDistinct (keep_if p hs)
keep_if-IsDistinct p [] h = tt
keep_if-IsDistinct p (x ∷ hs) h = elim (Bool-cases (p x)) [
  | inl b ↦
      rw b (All-keep_if (λ y. text_eq y.id x.id ≡ false) p hs h.0, keep_if-IsDistinct p hs h.1)
  | inr b ↦ rw b (keep_if-IsDistinct p hs h.1)
]

pub take-IsDistinct : (n : ℕ) (hs : List HistoryItem) → IsDistinct hs → IsDistinct (take n hs)
take-IsDistinct zero hs h = tt
take-IsDistinct (suc n) [] h = tt
take-IsDistinct (suc n) (x ∷ hs) h =
    (All-take (λ y. text_eq y.id x.id ≡ false) n hs h.0, take-IsDistinct n hs h.1)
