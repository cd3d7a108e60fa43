-- ===== src/Actions/Distinct.antt =====
-- The slugs of saved actions stay distinct (agent/actions.go).
use sideshow.Base.{
  ℕ, zero, suc, ◌≡◌, refl, sym, ap, subst, ◌∙◌, arith, Bool, true, false, ◌||◌, leb, List, [], ◌∷◌,
  ◌++◌, take, length, keep_if, All, inl, inr, Bool-cases, Text, text_eq, text_eq_sym,
}
use sideshow.Actions.{Action}
use sideshow.Actions.Slugs.{is_taken, unique_slug}
use sideshow.Actions.Unique.{unique_slug-is_taken}
use sideshow.Actions.Store.{
  slugs, others_than, put_action, normal_action, wanted_slug, normalize_from,
}
use sideshow.Actions.Ops.{
  place_of, after_placed, place_all, insert_by_index, sort_by_index, renumber,
}

-- No action has the slug of one before it.
abbrev pub IsDistinct : List Action → Type 0
IsDistinct [] = Unit
IsDistinct (a ∷ actions) = (is_taken a.slug (slugs actions) ≡ false) × IsDistinct actions

-- No action has one of these slugs.
abbrev IsFresh : List Text → List Action → Type 0
IsFresh seen = All (λ a. is_taken a.slug seen ≡ false)

IsFresh-beyond :
    (slug : Text) (seen : List Text) (actions : List Action)
    → IsFresh (slug ∷ seen) actions
    → IsFresh seen actions × (is_taken slug (slugs actions) ≡ false)
unfolding is_taken
IsFresh-beyond slug seen [] h = (tt, refl)
IsFresh-beyond slug seen (a ∷ actions) h =
    let rest = IsFresh-beyond slug seen actions h.1 in
    ((ground (arith, h.0), rest.0), ground (arith, h.0, rest.1, text_eq_sym a.slug slug))

pub normalize_from-IsDistinct :
    (local_base : Text) (i : ℕ) (seen : List Text) (actions : List Action)
    → IsFresh seen (normalize_from local_base i seen actions)
      × IsDistinct (normalize_from local_base i seen actions)
unfolding normalize_from normal_action
normalize_from-IsDistinct local_base i seen [] = (tt, tt)
normalize_from-IsDistinct local_base i seen (a ∷ actions) =
    let slug = unique_slug (wanted_slug a) seen in
    let rest = normalize_from-IsDistinct local_base (suc i) (slug ∷ seen) actions in
    let later =
      IsFresh-beyond slug seen (normalize_from local_base (suc i) (slug ∷ seen) actions) rest.0 in
    ((unique_slug-is_taken (wanted_slug a) seen, later.0), (later.1, rest.1))

-- A slug that is free stays free when actions are left out.
is_taken-take :
    (s : Text) (n : ℕ) (actions : List Action)
    → is_taken s (slugs actions) ≡ false
    → is_taken s (slugs (take n actions)) ≡ false
unfolding is_taken
is_taken-take s zero actions h = refl
is_taken-take s (suc n) [] h = refl
is_taken-take s (suc n) (a ∷ actions) h = ground (arith, is_taken-take s n actions)

pub take-IsDistinct :
    (n : ℕ) (actions : List Action) → IsDistinct actions → IsDistinct (take n actions)
take-IsDistinct zero actions h = tt
take-IsDistinct (suc n) [] h = tt
take-IsDistinct (suc n) (a ∷ actions) h =
    (is_taken-take a.slug n actions h.0, take-IsDistinct n actions h.1)

is_taken-keep_if :
    (s : Text) (p : Action → Bool) (actions : List Action)
    → is_taken s (slugs actions) ≡ false
    → is_taken s (slugs (keep_if p actions)) ≡ false
unfolding is_taken
is_taken-keep_if s p [] h = refl
is_taken-keep_if s p (a ∷ actions) h = ground (arith, is_taken-keep_if s p actions)

pub keep_if-IsDistinct :
    (p : Action → Bool) (actions : List Action)
    → IsDistinct actions
    → IsDistinct (keep_if p actions)
keep_if-IsDistinct p [] h = tt
keep_if-IsDistinct p (a ∷ actions) h = elim (Bool-cases (p a)) [
  | inl b ↦ rw b (is_taken-keep_if a.slug p actions h.0, keep_if-IsDistinct p actions h.1)
  | inr b ↦ rw b (keep_if-IsDistinct p actions h.1)
]

is_taken-last :
    (s : Text) (b : Action) (actions : List Action)
    → is_taken s (slugs actions) ≡ false
    → text_eq b.slug s ≡ false
    → is_taken s (slugs (actions ++ b ∷ [])) ≡ false
unfolding is_taken
is_taken-last s b [] h d = ground arith
is_taken-last s b (a ∷ actions) h d = ground (arith, is_taken-last s b actions)

pub last-IsDistinct :
    (b : Action) (actions : List Action)
    → is_taken b.slug (slugs actions) ≡ false
    → IsDistinct actions
    → IsDistinct (actions ++ b ∷ [])
unfolding is_taken
last-IsDistinct b [] h d = (refl, tt)
last-IsDistinct b (a ∷ actions) h d = (
  is_taken-last a.slug b actions d.0 (ground (arith, text_eq_sym a.slug b.slug)),
  last-IsDistinct b actions (ground arith) d.1,
)

is_taken-put_action :
    (s : Text) (b : Action) (actions : List Action)
    → is_taken s (slugs actions) ≡ false
    → text_eq b.slug s ≡ false
    → is_taken s (slugs (put_action b actions)) ≡ false
unfolding is_taken put_action
is_taken-put_action s b [] h d = refl
is_taken-put_action s b (a ∷ actions) h d = ground (arith, is_taken-put_action s b actions)

module _ (id s : Text) (a : Action) (actions : List Action) where
  pub others_here :
      text_eq a.id id ≡ true
      → is_taken s (slugs (others_than id (a ∷ actions))) ≡ is_taken s (slugs actions)
  unfolding others_than
  others_here e = rw e refl

  pub others_later :
      text_eq a.id id ≡ false
      → is_taken s (slugs (others_than id (a ∷ actions)))
        ≡ (text_eq a.slug s || is_taken s (slugs (others_than id actions)))
  unfolding others_than is_taken
  others_later e = rw e refl

pub put_action-IsDistinct :
    (b : Action) (actions : List Action)
    → is_taken b.slug (slugs (others_than b.id actions)) ≡ false
    → IsDistinct actions
    → IsDistinct (put_action b actions)
unfolding put_action
put_action-IsDistinct b [] h d = tt
put_action-IsDistinct b (a ∷ actions) h d = elim (Bool-cases (text_eq a.id b.id)) [
  | inl e ↦ rw e (sym (others_here b.id b.slug a actions e) ∙ h, d.1)
  | inr e ↦
      let free = sym (others_later b.id b.slug a actions e) ∙ h in
      rw e (
        is_taken-put_action a.slug b actions d.0 (ground (arith, free, text_eq_sym a.slug b.slug)),
        put_action-IsDistinct b actions (ground (arith, free)) d.1,
      )
]

-- The order and the numbers do not matter.
is_taken-insert_by_index :
    (s : Text) (a : Action) (actions : List Action)
    → is_taken s (slugs (insert_by_index a actions))
      ≡ (text_eq a.slug s || is_taken s (slugs actions))
unfolding is_taken insert_by_index
is_taken-insert_by_index s a [] = refl
is_taken-insert_by_index s a (b ∷ actions) = ground (arith, is_taken-insert_by_index s a actions)

insert_by_index-IsDistinct :
    (a : Action) (actions : List Action)
    → is_taken a.slug (slugs actions) ≡ false
    → IsDistinct actions
    → IsDistinct (insert_by_index a actions)
unfolding is_taken insert_by_index
insert_by_index-IsDistinct a [] h d = (refl, tt)
insert_by_index-IsDistinct a (b ∷ actions) h d = elim (Bool-cases (leb a.index b.index)) [
  | inl e ↦ rw e (h, d)
  | inr e ↦ rw e (
    is_taken-insert_by_index b.slug a actions ∙ ground (arith, h, d.0, text_eq_sym a.slug b.slug),
    insert_by_index-IsDistinct a actions (ground arith) d.1,
  )
]

is_taken-sort_by_index :
    (s : Text) (actions : List Action)
    → is_taken s (slugs (sort_by_index actions)) ≡ is_taken s (slugs actions)
unfolding is_taken sort_by_index
is_taken-sort_by_index s [] = refl
is_taken-sort_by_index s (a ∷ actions) =
    is_taken-insert_by_index s a (sort_by_index actions)
    ∙ ap (λ b. text_eq a.slug s || b) (is_taken-sort_by_index s actions)

pub sort_by_index-IsDistinct :
    (actions : List Action) → IsDistinct actions → IsDistinct (sort_by_index actions)
unfolding sort_by_index
sort_by_index-IsDistinct [] d = tt
sort_by_index-IsDistinct (a ∷ actions) d =
    insert_by_index-IsDistinct a (sort_by_index actions)
      (is_taken-sort_by_index a.slug actions ∙ d.0) (sort_by_index-IsDistinct actions d.1)

slugs-renumber : (i : ℕ) (actions : List Action) → slugs (renumber i actions) ≡ slugs actions
unfolding renumber
slugs-renumber i [] = refl
slugs-renumber i (a ∷ actions) = ap (λ r. a.slug ∷ r) (slugs-renumber (suc i) actions)

slugs-place_all :
    (order : List Text) (next : ℕ) (actions : List Action)
    → slugs (place_all order next actions) ≡ slugs actions
unfolding place_all
slugs-place_all order next [] = refl
slugs-place_all order next (a ∷ actions) =
    ap (λ r. a.slug ∷ r)
      (slugs-place_all order (after_placed (place_of 0 a.slug order) (place_of 0 a.id order) next)
        actions)

-- Being distinct is a matter of the slugs.
same_slugs-IsDistinct : (xs ys : List Action) → slugs xs ≡ slugs ys → IsDistinct xs → IsDistinct ys
same_slugs-IsDistinct [] [] e d = tt
same_slugs-IsDistinct [] (y ∷ ys) e d = absurd cc
same_slugs-IsDistinct (x ∷ xs) [] e d = absurd cc
same_slugs-IsDistinct (x ∷ xs) (y ∷ ys) e d =
    let head : x.slug ≡ y.slug = cc in
    let tail : slugs xs ≡ slugs ys = cc in
    (
      subst (λ s. is_taken s (slugs ys) ≡ false) head
          (subst (λ r. is_taken x.slug r ≡ false) tail d.0),
      same_slugs-IsDistinct xs ys tail d.1,
    )

pub reordered-IsDistinct :
    (order : List Text) (actions : List Action)
    → IsDistinct actions
    → IsDistinct (renumber 0 (sort_by_index (place_all order (length order) actions)))
reordered-IsDistinct order actions d =
    let places = place_all order (length order) actions in
    let sorted = sort_by_index places in
    same_slugs-IsDistinct sorted (renumber 0 sorted) (sym (slugs-renumber 0 sorted)) (
      sort_by_index-IsDistinct places (
        same_slugs-IsDistinct actions places (sym (slugs-place_all order (length order) actions))
          d))
