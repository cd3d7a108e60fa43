-- ===== src/Actions/Found.antt =====
-- Looking up a saved action (agent/actions.go).
use sideshow.Base.{
  ℕ, ◌≡◌, refl, sym, ap, subst, ◌∙◌, arith, Bool, false, leb, ◌==◌, Option, none, some, List, [],
  ◌∷◌, ◌++◌, length, keep_if, length-keep_if-le, ◌⊎◌, inl, inr, Bool-cases, Text, text, text_eq,
  text_eq_refl, is_empty, decimal,
}
use sideshow.Node.Ident.{hist_id}
use sideshow.Actions.{Action, Actions}
use sideshow.Actions.Slugs.{is_taken}
use sideshow.Actions.Store.{
  ActionError, slugs, find_id, found_id, others_than, other_actions, put_action, next_index,
  with_items, max_actions, stored, place, final_slug, upsert_under, upsert_checked, check_action,
  upsert,
}
use sideshow.Actions.Ops.{find_slug, get, is_other, delete}
use sideshow.Actions.Ascending.{find_later}
use sideshow.Actions.Distinct.{others_later}
use sideshow.Actions.Tidy.{with_items-items, final_slug-free}
use sideshow.Actions.Reach.{known_id, unknown_id}

find_slug-last :
    (b : Action) (actions : List Action)
    → is_taken b.slug (slugs actions) ≡ false
    → find_slug b.slug (actions ++ b ∷ []) ≡ some b
unfolding find_slug is_taken
find_slug-last b [] h = rw (text_eq_refl b.slug) refl
find_slug-last b (a ∷ actions) h = ground (arith, find_slug-last b actions)

find_nowhere : (id : Text) → find_id id [] ≡ none
unfolding find_id
find_nowhere id = refl

find_slug-put_action :
    (b old : Action) (actions : List Action)
    → find_id b.id actions ≡ some old
    → is_taken b.slug (slugs (others_than b.id actions)) ≡ false
    → find_slug b.slug (put_action b actions) ≡ some b
unfolding find_slug put_action
find_slug-put_action b old [] f h = let nowhere = find_nowhere b.id in absurd cc
find_slug-put_action b old (a ∷ actions) f h = elim (Bool-cases (text_eq a.id b.id)) [
  | inl e ↦ rw (e, text_eq_refl b.slug) refl
  | inr e ↦
      let free = sym (others_later b.id b.slug a actions e) ∙ h in
      let other : text_eq a.slug b.slug ≡ false = ground (arith, free) in
      rw (e, other)
        (find_slug-put_action b old actions (sym (find_later b.id a actions e) ∙ f)
          (ground (arith, free)))
]

get-find_slug :
    (slug : Text) (a : Action) (s : Actions) → find_slug slug s.items ≡ some a → get slug s ≡ some a
unfolding get
get-find_slug slug a s h = rw h refl

-- What an operation that may fail answers and leaves.
abbrev pub Answers : Actions → (ActionError ⊎ Action) × Actions → Type 0
Answers s (inl e, t) = t ≡ s
Answers s (inr b, t) = get b.slug t ≡ some b

place-Answers :
    (nano : ℕ) (a : Action) (slug : Text) (o : Option Action) (s : Actions)
    → found_id a.id s.items ≡ o
    → is_taken slug (slugs (other_actions a.id s.items)) ≡ false
    → Answers s (place nano a slug o s)
unfolding stored
place-Answers nano a slug (some old) s f free =
    let known = known_id a.id old s.items f in
    let b : Action = stored s.local_base old.id old.index slug a in
    get-find_slug slug b (with_items (put_action b s.items) s) (
      rw (with_items-items (put_action b s.items) s) (
        find_slug-put_action b old s.items known.1
          (subst (λ xs. is_taken slug (slugs xs) ≡ false) known.2 free)))
place-Answers nano a slug none s f free =
    let id = hist_id (slug ++ text "|" ++ decimal nano) in
    let b : Action = stored s.local_base id (next_index s.items) slug a in
    let free' = subst (λ xs. is_taken slug (slugs xs) ≡ false) (unknown_id a.id s.items f) free in
    elim (Bool-cases (leb max_actions (length s.items))) [
      | inl full ↦ rw full refl
      | inr room ↦ rw room (
          get-find_slug slug b (with_items (s.items ++ b ∷ []) s)
            (rw (with_items-items (s.items ++ b ∷ []) s) (find_slug-last b s.items free')))
    ]

upsert_under-Answers :
    (nano : ℕ) (a : Action) (r : ActionError ⊎ Text) (s : Actions)
    → final_slug a (slugs (other_actions a.id s.items)) ≡ r
    → Answers s (upsert_under nano a r s)
upsert_under-Answers nano a (inl e) s f = refl
upsert_under-Answers nano a (inr slug) s f =
    place-Answers nano a slug (found_id a.id s.items) s refl
      (final_slug-free a (slugs (other_actions a.id s.items)) slug f).0

upsert_checked-Answers :
    (nano : ℕ) (a : Action) (o : Option ActionError) (s : Actions)
    → Answers s (upsert_checked nano a o s)
upsert_checked-Answers nano a (some e) s = refl
upsert_checked-Answers nano a none s =
    upsert_under-Answers nano a (final_slug a (slugs (other_actions a.id s.items))) s refl

-- Upsert answers with an error and leaves the store as it was, or with an action that Get finds
-- under its slug afterwards.
pub upsert-get : (nano : ℕ) (a : Action) (s : Actions) → Answers s (upsert nano a s)
unfolding upsert
upsert-get nano a s = upsert_checked-Answers nano a (check_action a) s

find-keep_if :
    (key : Text) (actions : List Action)
    → (find_slug key (keep_if (is_other key) actions) ≡ none)
      × (find_id key (keep_if (is_other key) actions) ≡ none)
unfolding find_slug find_id
find-keep_if key [] = (refl, refl)
find-keep_if key (a ∷ actions) = ground (arith, find-keep_if key actions)

keep_if_all :
    (p : Action → Bool) (actions : List Action)
    → length (keep_if p actions) ≡ length actions
    → keep_if p actions ≡ actions
keep_if_all p [] h = refl
keep_if_all p (a ∷ actions) h = elim (Bool-cases (p a)) [
  | inl b ↦ rw b (ap (λ r. a ∷ r) (keep_if_all p actions (ground (arith, b, h))))
  | inr b ↦ absurd (ground (arith, b, h, length-keep_if-le p actions))
]

get_nothing :
    (key : Text) (s : Actions)
    → find_slug key s.items ≡ none
    → find_id key s.items ≡ none
    → get key s ≡ none
unfolding get
get_nothing key s f g = rw (f, g) refl

-- After Delete of a key that is not empty nothing is found under it.
pub delete-get : (key : Text) (s : Actions) → is_empty key ≡ false → get key (delete key s).1 ≡ none
unfolding delete
delete-get key s there =
    let kept = keep_if (is_other key) s.items in
    let gone = find-keep_if key s.items in
    elim (Bool-cases (length kept == length s.items)) [
      | inl b ↦
          let all = keep_if_all (is_other key) s.items (ground (arith, b)) in
          rw (there, b)
            (get_nothing key s (subst (λ xs. find_slug key xs ≡ none) all gone.0)
              (subst (λ xs. find_id key xs ≡ none) all gone.1))
      | inr b ↦
          rw (there, b)
            (get_nothing key (with_items kept s) (rw (with_items-items kept s) gone.0)
              (rw (with_items-items kept s) gone.1))
    ]
