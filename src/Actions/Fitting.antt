-- ===== src/Actions/Fitting.antt =====
-- The slugs of saved actions stay well-formed, and the actions few (agent/actions.go).
use sideshow.Base.{
  ℕ, suc, ◌≤◌, ◌≡◌, refl, ap, ◌∙◌, arith, leb, List, [], ◌∷◌, length, All, inl, inr, Bool-cases,
  Text, text_eq,
}
use sideshow.Actions.{Action}
use sideshow.Actions.Slugs.{unique_slug}
use sideshow.Actions.Store.{put_action, normal_action, wanted_slug, normalize_from}
use sideshow.Actions.Ops.{
  place_of, after_placed, place_all, insert_by_index, sort_by_index, renumber,
}
use sideshow.Actions.Words.{IsSlug, wanted_slug-IsSlug, unique_slug-IsSlug}

abbrev pub AllSlugs : List Action → Type 0
AllSlugs = All (λ a. IsSlug a.slug)

pub normalize_from-AllSlugs :
    (local_base : Text) (i : ℕ) (seen : List Text) (actions : List Action)
    → AllSlugs (normalize_from local_base i seen actions)
unfolding normalize_from normal_action
normalize_from-AllSlugs local_base i seen [] = tt
normalize_from-AllSlugs local_base i seen (a ∷ actions) = (
  unique_slug-IsSlug (wanted_slug a) seen (wanted_slug-IsSlug a),
  normalize_from-AllSlugs local_base (suc i) (unique_slug (wanted_slug a) seen ∷ seen) actions,
)

pub put_action-AllSlugs :
    (b : Action) (actions : List Action)
    → IsSlug b.slug
    → AllSlugs actions
    → AllSlugs (put_action b actions)
unfolding put_action
put_action-AllSlugs b [] w h = tt
put_action-AllSlugs b (a ∷ actions) w h = elim (Bool-cases (text_eq a.id b.id)) [
  | inl e ↦ rw e (w, h.1)
  | inr e ↦ rw e (h.0, put_action-AllSlugs b actions w h.1)
]

pub length-put_action-le :
    (b : Action) (actions : List Action) → length (put_action b actions) ≤ length actions
unfolding put_action
length-put_action-le b [] = omega arith
length-put_action-le b (a ∷ actions) = ground (arith, length-put_action-le b actions)

insert_by_index-AllSlugs :
    (a : Action) (actions : List Action)
    → IsSlug a.slug
    → AllSlugs actions
    → AllSlugs (insert_by_index a actions)
unfolding insert_by_index
insert_by_index-AllSlugs a [] w h = (w, tt)
insert_by_index-AllSlugs a (b ∷ actions) w h = elim (Bool-cases (leb a.index b.index)) [
  | inl e ↦ rw e (w, h)
  | inr e ↦ rw e (h.0, insert_by_index-AllSlugs a actions w h.1)
]

sort_by_index-AllSlugs :
    (actions : List Action) → AllSlugs actions → AllSlugs (sort_by_index actions)
unfolding sort_by_index
sort_by_index-AllSlugs [] h = tt
sort_by_index-AllSlugs (a ∷ actions) h =
    insert_by_index-AllSlugs a (sort_by_index actions) h.0 (sort_by_index-AllSlugs actions h.1)

renumber-AllSlugs :
    (i : ℕ) (actions : List Action) → AllSlugs actions → AllSlugs (renumber i actions)
unfolding renumber
renumber-AllSlugs i [] h = tt
renumber-AllSlugs i (a ∷ actions) h = (h.0, renumber-AllSlugs (suc i) actions h.1)

place_all-AllSlugs :
    (order : List Text) (next : ℕ) (actions : List Action)
    → AllSlugs actions
    → AllSlugs (place_all order next actions)
unfolding place_all
place_all-AllSlugs order next [] h = tt
place_all-AllSlugs order next (a ∷ actions) h =
    let next' = after_placed (place_of 0 a.slug order) (place_of 0 a.id order) next in
    (h.0, place_all-AllSlugs order next' actions h.1)

pub reordered-AllSlugs :
    (order : List Text) (actions : List Action)
    → AllSlugs actions
    → AllSlugs (renumber 0 (sort_by_index (place_all order (length order) actions)))
reordered-AllSlugs order actions h =
    let places = place_all order (length order) actions in
    renumber-AllSlugs 0 (sort_by_index places)
      (sort_by_index-AllSlugs places (place_all-AllSlugs order (length order) actions h))

length-renumber : (i : ℕ) (actions : List Action) → length (renumber i actions) ≡ length actions
unfolding renumber
length-renumber i [] = refl
length-renumber i (a ∷ actions) = ap suc (length-renumber (suc i) actions)

length-place_all :
    (order : List Text) (next : ℕ) (actions : List Action)
    → length (place_all order next actions) ≡ length actions
unfolding place_all
length-place_all order next [] = refl
length-place_all order next (a ∷ actions) =
    let next' = after_placed (place_of 0 a.slug order) (place_of 0 a.id order) next in
    ap suc (length-place_all order next' actions)

length-insert_by_index :
    (a : Action) (actions : List Action) → length (insert_by_index a actions) ≡ suc (length actions)
unfolding insert_by_index
length-insert_by_index a [] = refl
length-insert_by_index a (b ∷ actions) = ground (arith, length-insert_by_index a actions)

length-sort_by_index : (actions : List Action) → length (sort_by_index actions) ≡ length actions
unfolding sort_by_index
length-sort_by_index [] = refl
length-sort_by_index (a ∷ actions) =
    length-insert_by_index a (sort_by_index actions) ∙ ap suc (length-sort_by_index actions)

pub length-reordered :
    (order : List Text) (actions : List Action)
    → length (renumber 0 (sort_by_index (place_all order (length order) actions))) ≡ length actions
length-reordered order actions =
    let places = place_all order (length order) actions in
    length-renumber 0 (sort_by_index places)
    ∙ length-sort_by_index places
    ∙ length-place_all order (length order) actions
