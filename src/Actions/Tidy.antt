-- ===== src/Actions/Tidy.antt =====
-- What holds of the saved actions at all times (agent/actions.go).
use sideshow.Base.{
  ◌≤◌, ◌≡◌, refl, subst, arith, Bool, true, false, not, leb, some, List, [], ◌∷◌, ◌++◌, length,
  length-append, length-take-le, length-keep_if-le, keep_if, All-take, All-keep_if, All-append,
  if◌then◌else◌, ◌⊎◌, inl, inr, Text, is_empty,
}
use sideshow.Actions.{Action, Actions, ActionsFile, absent, garbled, holds}
use sideshow.Actions.Slugs.{slugify, is_taken, unique_slug}
use sideshow.Actions.Unique.{unique_slug-is_taken}
use sideshow.Actions.Store.{
  slug_used, slugs, find_id, others_than, put_action, next_index, wanted_slug, normalize_from,
  normalize_actions, loaded, save, with_items, max_actions, final_slug,
}
use sideshow.Actions.Ops.{place_all, sort_by_index, renumber}
use sideshow.Actions.Distinct.{
  IsDistinct, normalize_from-IsDistinct, take-IsDistinct, keep_if-IsDistinct, last-IsDistinct,
  put_action-IsDistinct, reordered-IsDistinct,
}
use sideshow.Actions.Words.{IsSlug, wanted_slug-IsSlug, unique_slug-IsSlug}
use sideshow.Actions.Ascending.{
  IsAscending, normalize_from-IsAscending, renumber-IsAscending, take-IsAscending,
  keep_if-IsAscending, next-IsAscending, put_action-IsAscending,
}
use sideshow.Actions.Fitting.{
  AllSlugs, normalize_from-AllSlugs, put_action-AllSlugs, reordered-AllSlugs, length-put_action-le,
  length-reordered,
}

pub record IsTidy (actions : List Action) : Type 0 where
  pub distinct : IsDistinct actions
  pub words : AllSlugs actions
  pub ascending : IsAscending actions
  pub bounded : length actions ≤ max_actions

pub nil-IsTidy : IsTidy []
nil-IsTidy = record { distinct = tt; words = tt; ascending = tt; bounded = omega arith }

pub normalize_actions-IsTidy :
    (local_base : Text) (actions : List Action) → IsTidy (normalize_actions local_base actions)
unfolding normalize_actions
normalize_actions-IsTidy local_base actions =
    let all = normalize_from local_base 0 [] actions in
    record {
      distinct =
          take-IsDistinct max_actions all (normalize_from-IsDistinct local_base 0 [] actions).1;
      words =
          All-take (λ a. IsSlug a.slug) max_actions all
            (normalize_from-AllSlugs local_base 0 [] actions);
      ascending =
          take-IsAscending max_actions all (normalize_from-IsAscending local_base 0 [] actions);
      bounded = length-take-le max_actions all;
    }

pub loaded-IsTidy : (local_base : Text) (f : ActionsFile) → IsTidy (loaded local_base f)
loaded-IsTidy local_base absent = nil-IsTidy
loaded-IsTidy local_base garbled = nil-IsTidy
loaded-IsTidy local_base (holds actions) = normalize_actions-IsTidy local_base actions

pub with_items-items :
    (actions : List Action) (s : Actions) → (with_items actions s).items ≡ actions
unfolding save
with_items-items actions s = ground arith

pub keep_if-IsTidy :
    (p : Action → Bool) (actions : List Action) → IsTidy actions → IsTidy (keep_if p actions)
keep_if-IsTidy p actions h = record {
  distinct = keep_if-IsDistinct p actions h.distinct;
  words = All-keep_if (λ a. IsSlug a.slug) p actions h.words;
  ascending = keep_if-IsAscending p actions h.ascending;
  bounded = omega (arith, length-keep_if-le p actions, h.bounded);
}

pub reordered-IsTidy :
    (order : List Text) (actions : List Action)
    → IsTidy actions
    → IsTidy (renumber 0 (sort_by_index (place_all order (length order) actions)))
reordered-IsTidy order actions h =
    let sorted = sort_by_index (place_all order (length order) actions) in
    record {
      distinct = reordered-IsDistinct order actions h.distinct;
      words = reordered-AllSlugs order actions h.words;
      ascending = renumber-IsAscending 0 sorted;
      bounded = omega (arith, length-reordered order actions, h.bounded);
    }

chosen :
    (taken own : Bool) (w u slug : Text)
    → (if not taken then inr w else if own then inl slug_used else inr u) ≡ inr slug
    → ((taken ≡ false) × (w ≡ slug)) ⊎ (u ≡ slug)
chosen false own w u slug h = inl (refl, cc)
chosen true true w u slug h = absurd cc
chosen true false w u slug h = inr cc

-- A slug that is chosen is free among the others, and well-formed.
pub final_slug-free :
    (a : Action) (taken : List Text) (slug : Text)
    → final_slug a taken ≡ inr slug
    → (is_taken slug taken ≡ false) × IsSlug slug
unfolding final_slug
final_slug-free a taken slug h =
    let w = wanted_slug a in
    elim (chosen (is_taken w taken) (not (is_empty (slugify a.slug))) w (unique_slug w taken) slug
      h) [
        | inl e ↦ subst (λ s. (is_taken s taken ≡ false) × IsSlug s) e.1 (e.0, wanted_slug-IsSlug a)
        | inr e ↦
            subst (λ s. (is_taken s taken ≡ false) × IsSlug s) e
              (unique_slug-is_taken w taken, unique_slug-IsSlug w taken (wanted_slug-IsSlug a))
      ]

pub put_action-IsTidy :
    (b old : Action) (actions : List Action)
    → find_id b.id actions ≡ some old
    → b.index ≡ old.index
    → is_taken b.slug (slugs (others_than b.id actions)) ≡ false
    → IsSlug b.slug
    → IsTidy actions
    → IsTidy (put_action b actions)
put_action-IsTidy b old actions f e free w h = record {
  distinct = put_action-IsDistinct b actions free h.distinct;
  words = put_action-AllSlugs b actions w h.words;
  ascending = put_action-IsAscending b old actions f e h.ascending;
  bounded = omega (arith, length-put_action-le b actions, h.bounded);
}

pub last-IsTidy :
    (b : Action) (actions : List Action)
    → b.index ≡ next_index actions
    → is_taken b.slug (slugs actions) ≡ false
    → IsSlug b.slug
    → leb max_actions (length actions) ≡ false
    → IsTidy actions
    → IsTidy (actions ++ b ∷ [])
last-IsTidy b actions e free w room h = record {
  distinct = last-IsDistinct b actions free h.distinct;
  words = All-append (λ a. IsSlug a.slug) actions (b ∷ []) h.words (w, tt);
  ascending = next-IsAscending b actions e h.ascending;
  bounded = rw (length-append actions (b ∷ [])) (ground (arith, room));
}
