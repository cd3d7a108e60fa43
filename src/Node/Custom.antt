-- ===== src/Node/Custom.antt =====
-- The saved custom modes (agent/state.go).
use sideshow.Base.{
  ℕ, ◌≡◌, refl, ap, ◌∙◌, Bool, true, false, not, ◌==◌, none, some, List, [], ◌∷◌, length, keep_if,
  Bool-cases, inl, inr, is_some, Text, is_empty, text_eq,
}
use sideshow.Node.{CustomMode, State}
use sideshow.Node.Launchers.{
  completed, check_custom, with_id, add_custom, with_custom, upsert_custom, is_other_custom,
  without_custom, delete_custom, find_custom, get_custom,
}
use sideshow.Node.Ops.{if_removed}
use sideshow.Node.History.{save-kept, if_removed-kept}
use sideshow.Node.Lookup.{distinct_ids, find-add_custom, find-add_custom_other, removed-is_some}

upserted :
    (nano : ℕ) (cm : CustomMode) (s : State)
    → check_custom (completed cm) ≡ none
    → ((upsert_custom nano cm s).0 ≡ inr (with_id nano (completed cm)))
      × ((upsert_custom nano cm s).1.kept.custom_modes
          ≡ add_custom nano (completed cm) s.kept.custom_modes)
unfolding upsert_custom
upserted nano cm s h =
    (rw h refl, rw h (ap (λ k. k.custom_modes) (save-kept (with_custom nano (completed cm) s))))

-- A custom mode that is accepted is found by the id that the answer names, as the answer has it, and
-- the others are found as before. For a new one this needs that its fresh id is not yet taken.
pub upsert-get_custom :
    (nano : ℕ) (cm : CustomMode) (s : State)
    → check_custom (completed cm) ≡ none
    → (is_empty cm.id ≡ true → get_custom (with_id nano (completed cm)).id s ≡ none)
    → (get_custom (with_id nano (completed cm)).id (upsert_custom nano cm s).1
        ≡ some (with_id nano (completed cm)))
      × ((id : Text)
          → text_eq (with_id nano (completed cm)).id id ≡ false
          → get_custom id (upsert_custom nano cm s).1 ≡ get_custom id s)
unfolding get_custom completed
upsert-get_custom nano cm s hc hn =
    let u = (upserted nano cm s hc).1 in
    (
      rw u (find-add_custom nano (completed cm) s.kept.custom_modes hn),
      λ id h. rw u (find-add_custom_other id nano (completed cm) s.kept.custom_modes h),
    )

find-keep_if :
    (id : Text) (cs : List CustomMode) → find_custom id (keep_if (is_other_custom id) cs) ≡ none
unfolding find_custom
find-keep_if id [] = refl
find-keep_if id (c ∷ cs) = elim (Bool-cases (text_eq c.id id)) [
  | inl b ↦ rw b (find-keep_if id cs)
  | inr b ↦ rw (b, b) (find-keep_if id cs)
]

find-keep_if_other :
    (id other : Text) (cs : List CustomMode)
    → text_eq id other ≡ false
    → find_custom other (keep_if (is_other_custom id) cs) ≡ find_custom other cs
unfolding find_custom
find-keep_if_other id other [] h = refl
find-keep_if_other id other (c ∷ cs) h = elim (Bool-cases (text_eq c.id id)) [
  | inl b ↦ rw (b, distinct_ids c.id id other b h) (find-keep_if_other id other cs h)
  | inr b ↦ rw (b, find-keep_if_other id other cs h) refl
]

if_removed-answer : (b : Bool) (s : State) → (if_removed b s).0 ≡ not b
unfolding if_removed
if_removed-answer true s = refl
if_removed-answer false s = refl

not-not : (b : Bool) → not (not b) ≡ b
not-not true = refl
not-not false = refl

deleted_custom :
    (id : Text) (s : State)
    → ((delete_custom id s).0 ≡ is_some (find_custom id s.kept.custom_modes))
      × ((delete_custom id s).1.kept.custom_modes
          ≡ keep_if (is_other_custom id) s.kept.custom_modes)
unfolding delete_custom
deleted_custom id s =
    let same =
      length (keep_if (is_other_custom id) s.kept.custom_modes) == length s.kept.custom_modes in
    (
      if_removed-answer same (without_custom id s)
          ∙ ap not (removed-is_some id s.kept.custom_modes)
          ∙ not-not (is_some (find_custom id s.kept.custom_modes)),
      ap (λ k. k.custom_modes) (if_removed-kept same (without_custom id s)),
    )

-- `DeleteCustom` answers whether there was a mode with the id, and then finds none with it, so that
-- a saved list with one id twice loses both; the others are found as before.
pub delete-get_custom :
    (id : Text) (s : State)
    → ((delete_custom id s).0 ≡ is_some (get_custom id s))
      × ((get_custom id (delete_custom id s).1 ≡ none)
          × ((other : Text)
              → text_eq id other ≡ false
              → get_custom other (delete_custom id s).1 ≡ get_custom other s))
unfolding get_custom
delete-get_custom id s =
    let d = deleted_custom id s in
    (
      d.0,
      (
        ap (find_custom id) d.1 ∙ find-keep_if id s.kept.custom_modes,
        λ other h. ap (find_custom other) d.1 ∙ find-keep_if_other id other s.kept.custom_modes h,
      ),
    )
