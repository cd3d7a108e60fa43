-- ===== src/Actions/Reach.antt =====
-- The saved actions through all operations (agent/actions.go).
use sideshow.Base.{
  ℕ, ◌≡◌, refl, sym, ap, subst, ◌∙◌, false, leb, ◌==◌, ◌||◌, Option, none, some, List, [], ◌∷◌,
  ◌++◌, length, keep_if, if◌then◌else◌, ◌⊎◌, inl, inr, Bool-cases, Text, text, text_eq, text_eq_iff,
  is_empty, decimal,
}
use sideshow.Node.{CustomMode}
use sideshow.Node.Ident.{hist_id}
use sideshow.Files.Docs.{local_agent_base}
use sideshow.Actions.{Action, Actions, Disk, absent}
use sideshow.Actions.Slugs.{is_taken}
use sideshow.Actions.Store.{
  ActionError, slugs, find_id, found_id, others_than, other_actions, put_action, next_index,
  new_actions, max_actions, stored, place, final_slug, upsert_under, upsert_checked, check_action,
  upsert,
}
use sideshow.Actions.Ops.{
  is_other, delete, place_all, sort_by_index, renumber, reorder, list, action_of, seed_all, seed,
  is_filled,
}
use sideshow.Actions.Words.{IsSlug}
use sideshow.Actions.Ascending.{find_here, find_later, sort_by_index_ascending}
use sideshow.Actions.Tidy.{
  IsTidy, loaded-IsTidy, with_items-items, keep_if-IsTidy, reordered-IsTidy, final_slug-free,
  put_action-IsTidy, last-IsTidy,
}

pub find_id-id :
    (id : Text) (old : Action) (actions : List Action) → find_id id actions ≡ some old → old.id ≡ id
unfolding find_id
find_id-id id old [] h = absurd cc
find_id-id id old (a ∷ actions) h = elim (Bool-cases (text_eq a.id id)) [
  | inl b ↦
      let here = find_here id a actions b in
      let same : a ≡ old = cc in subst (λ k. k.id ≡ id) same ((text_eq_iff a.id id).0 b)
  | inr b ↦ find_id-id id old actions (sym (find_later id a actions b) ∙ h)
]

others_than_unknown :
    (id : Text) (actions : List Action)
    → find_id id actions ≡ none
    → others_than id actions ≡ actions
unfolding others_than
others_than_unknown id [] h = refl
others_than_unknown id (a ∷ actions) h = elim (Bool-cases (text_eq a.id id)) [
  | inl b ↦ let here = find_here id a actions b in absurd cc
  | inr b ↦
      rw b (ap (λ r. a ∷ r) (others_than_unknown id actions (sym (find_later id a actions b) ∙ h)))
]

-- Where an id is known, the others are those without it; otherwise they are all.
pub known_id :
    (id : Text) (old : Action) (actions : List Action)
    → found_id id actions ≡ some old
    → (old.id ≡ id)
      × (find_id old.id actions ≡ some old)
      × (other_actions id actions ≡ others_than old.id actions)
known_id [] old actions h = absurd cc
known_id (c ∷ id) old actions h =
    let same = find_id-id (c ∷ id) old actions h in
    (
      same,
      subst (λ k. find_id k actions ≡ some old) (sym same) h,
      ap (λ k. others_than k actions) (sym same),
    )

pub unknown_id :
    (id : Text) (actions : List Action)
    → found_id id actions ≡ none
    → other_actions id actions ≡ actions
unknown_id [] actions h = refl
unknown_id (c ∷ id) actions h = others_than_unknown (c ∷ id) actions h

place-IsTidy :
    (nano : ℕ) (a : Action) (slug : Text) (o : Option Action) (s : Actions)
    → found_id a.id s.items ≡ o
    → is_taken slug (slugs (other_actions a.id s.items)) ≡ false
    → IsSlug slug
    → IsTidy s.items
    → IsTidy (place nano a slug o s).1.items
unfolding stored
place-IsTidy nano a slug (some old) s f free w h =
    let known = known_id a.id old s.items f in
    let b = stored s.local_base old.id old.index slug a in
    rw (with_items-items (put_action b s.items) s) (
      put_action-IsTidy b old s.items known.1 refl
        (subst (λ xs. is_taken slug (slugs xs) ≡ false) known.2 free) w h)
place-IsTidy nano a slug none s f free w h =
    let id = hist_id (slug ++ text "|" ++ decimal nano) in
    let b : Action = stored s.local_base id (next_index s.items) slug a in
    let free' = subst (λ xs. is_taken slug (slugs xs) ≡ false) (unknown_id a.id s.items f) free in
    elim (Bool-cases (leb max_actions (length s.items))) [
      | inl full ↦ rw full h
      | inr room ↦
          rw (room, with_items-items (s.items ++ b ∷ []) s)
            (last-IsTidy b s.items refl free' w room h)
    ]

upsert_under-IsTidy :
    (nano : ℕ) (a : Action) (r : ActionError ⊎ Text) (s : Actions)
    → final_slug a (slugs (other_actions a.id s.items)) ≡ r
    → IsTidy s.items
    → IsTidy (upsert_under nano a r s).1.items
upsert_under-IsTidy nano a (inl e) s f h = h
upsert_under-IsTidy nano a (inr slug) s f h =
    let free = final_slug-free a (slugs (other_actions a.id s.items)) slug f in
    place-IsTidy nano a slug (found_id a.id s.items) s refl free.0 free.1 h

upsert_checked-IsTidy :
    (nano : ℕ) (a : Action) (o : Option ActionError) (s : Actions)
    → IsTidy s.items
    → IsTidy (upsert_checked nano a o s).1.items
upsert_checked-IsTidy nano a (some e) s h = h
upsert_checked-IsTidy nano a none s h =
    upsert_under-IsTidy nano a (final_slug a (slugs (other_actions a.id s.items))) s refl h

upsert-IsTidy :
    (nano : ℕ) (a : Action) (s : Actions) → IsTidy s.items → IsTidy (upsert nano a s).1.items
unfolding upsert
upsert-IsTidy nano a s h = upsert_checked-IsTidy nano a (check_action a) s h

delete-IsTidy : (key : Text) (s : Actions) → IsTidy s.items → IsTidy (delete key s).1.items
unfolding delete
delete-IsTidy key s h =
    let kept = keep_if (is_other key) s.items in
    elim (Bool-cases (is_empty key || length kept == length s.items)) [
      | inl b ↦ rw b h
      | inr b ↦ rw (b, with_items-items kept s) (keep_if-IsTidy (is_other key) s.items h)
    ]

reorder-IsTidy : (order : List Text) (s : Actions) → IsTidy s.items → IsTidy (reorder order s).items
unfolding reorder
reorder-IsTidy order s h =
    rw (with_items-items (renumber 0 (sort_by_index (place_all order (length order) s.items))) s)
      (reordered-IsTidy order s.items h)

seed_all-IsTidy :
    (customs : List (ℕ × CustomMode)) (s : Actions)
    → IsTidy s.items
    → IsTidy (seed_all customs s).items
unfolding seed_all
seed_all-IsTidy [] s h = h
seed_all-IsTidy ((nano, cm) ∷ customs) s h =
    seed_all-IsTidy customs (upsert nano (action_of cm) s).1 (upsert-IsTidy nano (action_of cm) s h)

seed-IsTidy :
    (customs : List (ℕ × CustomMode)) (s : Actions) → IsTidy s.items → IsTidy (seed customs s).items
unfolding seed
seed-IsTidy customs s h = elim (Bool-cases (s.file_seen || is_filled s.items)) [
  | inl b ↦ rw b h
  | inr b ↦ rw b (seed_all-IsTidy customs s h)
]

new_actions-IsTidy : (addr : Text) (d : Disk) → IsTidy (new_actions addr d).items
unfolding new_actions
new_actions-IsTidy addr d =
    loaded-IsTidy (local_agent_base addr) (if d.has_path then d.file else absent)

-- One operation; a start of the agent reads a file that may hold anything.
pub data Step : Actions → Actions → Type 0 where
  upserted : {s : Actions} (nano : ℕ) (a : Action) → Step s (upsert nano a s).1
  deleted : {s : Actions} (key : Text) → Step s (delete key s).1
  reordered : {s : Actions} (order : List Text) → Step s (reorder order s)
  seeded : {s : Actions} (customs : List (ℕ × CustomMode)) → Step s (seed customs s)
  restarted : {s : Actions} (addr : Text) (d : Disk) → Step s (new_actions addr d)

pub data Reach : Actions → Type 0 where
  started : (addr : Text) (d : Disk) → Reach (new_actions addr d)
  then_step : {s s' : Actions} → Reach s → Step s s' → Reach s'

step-IsTidy : (s s' : Actions) → Step s s' → IsTidy s.items → IsTidy s'.items
step-IsTidy s _ (upserted nano a) h = upsert-IsTidy nano a s h
step-IsTidy s _ (deleted key) h = delete-IsTidy key s h
step-IsTidy s _ (reordered order) h = reorder-IsTidy order s h
step-IsTidy s _ (seeded customs) h = seed-IsTidy customs s h
step-IsTidy s _ (restarted addr d) h = new_actions-IsTidy addr d

-- Through starts from any file, saves, deletions, reorderings and the migration, there are at most
-- 200 actions, in ascending order of their indices, each under a slug of its own that is not empty
-- and made of small letters, digits and dashes.
pub Reach-IsTidy : (s : Actions) → Reach s → IsTidy s.items
Reach-IsTidy _ (started addr d) = new_actions-IsTidy addr d
Reach-IsTidy _ (then_step {s} {s'} r e) = step-IsTidy s s' e (Reach-IsTidy s r)

-- The list of actions is in the order in which they are stored.
pub list-items : (s : Actions) → Reach s → list s ≡ s.items
unfolding list
list-items s r = sort_by_index_ascending s.items (Reach-IsTidy s r).ascending
