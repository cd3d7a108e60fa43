-- ===== src/Node/Lookup.antt =====
-- Finding a saved custom mode by its id (agent/state.go).
use sideshow.Base.{
  ℕ, ◌≡◌, refl, sym, subst, ap, ◌∙◌, true, false, not, ◌==◌, Option, none, some, List, [], ◌∷◌,
  ◌++◌, length, keep_if, length-keep_if-le, Bool-cases, inl, inr, arith, is_some, Text, is_empty,
  text_eq, text_eq_refl, text_eq_iff,
}
use sideshow.Node.{CustomMode}
use sideshow.Node.Launchers.{with_id, put_custom, add_custom, is_other_custom, find_custom}

find-put_custom :
    (cm : CustomMode) (cs : List CustomMode) → find_custom cm.id (put_custom cm cs) ≡ some cm
unfolding find_custom put_custom
find-put_custom cm [] = rw (text_eq_refl cm.id) refl
find-put_custom cm (c ∷ cs) = elim (Bool-cases (text_eq c.id cm.id)) [
  | inl b ↦ rw (b, text_eq_refl cm.id) refl
  | inr b ↦ rw (b, b) (find-put_custom cm cs)
]

pub distinct_ids : (a b c : Text) → text_eq a b ≡ true → text_eq b c ≡ false → text_eq a c ≡ false
distinct_ids a b c h k = subst (λ x. text_eq x c ≡ false) (sym ((text_eq_iff a b).0 h)) k

find-put_custom_other :
    (id : Text) (cm : CustomMode) (cs : List CustomMode)
    → text_eq cm.id id ≡ false
    → find_custom id (put_custom cm cs) ≡ find_custom id cs
unfolding find_custom put_custom
find-put_custom_other id cm [] h = rw h refl
find-put_custom_other id cm (c ∷ cs) h = elim (Bool-cases (text_eq c.id cm.id)) [
  | inl b ↦ rw (b, h, distinct_ids c.id cm.id id b h) refl
  | inr b ↦ rw (b, find-put_custom_other id cm cs h) refl
]

abbrev or_else : Option CustomMode → Option CustomMode → Option CustomMode
or_else none b = b
or_else (some a) b = some a

or_else-none : (a : Option CustomMode) → or_else a none ≡ a
or_else-none none = refl
or_else-none (some c) = refl

find-append :
    (id : Text) (cs ds : List CustomMode)
    → find_custom id (cs ++ ds) ≡ or_else (find_custom id cs) (find_custom id ds)
unfolding find_custom
find-append id [] ds = refl
find-append id (c ∷ cs) ds = elim (Bool-cases (text_eq c.id id)) [
  | inl b ↦ rw b refl
  | inr b ↦ rw b (find-append id cs ds)
]

find_single : (cm : CustomMode) → find_custom cm.id (cm ∷ []) ≡ some cm
unfolding find_custom
find_single cm = rw (text_eq_refl cm.id) refl

find_single_other :
    (id : Text) (cm : CustomMode) → text_eq cm.id id ≡ false → find_custom id (cm ∷ []) ≡ none
unfolding find_custom
find_single_other id cm h = rw h refl

add_new :
    (nano : ℕ) (cm : CustomMode) (cs : List CustomMode)
    → is_empty cm.id ≡ true
    → add_custom nano cm cs ≡ cs ++ with_id nano cm ∷ []
unfolding add_custom
add_new nano cm cs h = rw h refl

add_old :
    (nano : ℕ) (cm : CustomMode) (cs : List CustomMode)
    → is_empty cm.id ≡ false
    → add_custom nano cm cs ≡ put_custom cm cs
unfolding add_custom
add_old nano cm cs h = rw h refl

with_id_old : (nano : ℕ) (cm : CustomMode) → is_empty cm.id ≡ false → with_id nano cm ≡ cm
unfolding with_id
with_id_old nano cm h = rw h refl

-- Reading a saved mode back, for one that takes the place of a saved one or stands behind them.
pub find-add_custom :
    (nano : ℕ) (cm : CustomMode) (cs : List CustomMode)
    → (is_empty cm.id ≡ true → find_custom (with_id nano cm).id cs ≡ none)
    → find_custom (with_id nano cm).id (add_custom nano cm cs) ≡ some (with_id nano cm)
find-add_custom nano cm cs h = elim (Bool-cases (is_empty cm.id)) [
  | inl b ↦
      ap (find_custom (with_id nano cm).id) (add_new nano cm cs b)
      ∙ find-append (with_id nano cm).id cs (with_id nano cm ∷ [])
      ∙ ap (λ r. or_else r (find_custom (with_id nano cm).id (with_id nano cm ∷ []))) (h b)
      ∙ find_single (with_id nano cm)
  | inr b ↦
      ap (find_custom (with_id nano cm).id) (add_old nano cm cs b)
      ∙ subst (λ c. find_custom c.id (put_custom cm cs) ≡ some c) (sym (with_id_old nano cm b))
          (find-put_custom cm cs)
]

pub find-add_custom_other :
    (id : Text) (nano : ℕ) (cm : CustomMode) (cs : List CustomMode)
    → text_eq (with_id nano cm).id id ≡ false
    → find_custom id (add_custom nano cm cs) ≡ find_custom id cs
find-add_custom_other id nano cm cs h = elim (Bool-cases (is_empty cm.id)) [
  | inl b ↦
      ap (find_custom id) (add_new nano cm cs b)
      ∙ find-append id cs (with_id nano cm ∷ [])
      ∙ ap (or_else (find_custom id cs)) (find_single_other id (with_id nano cm) h)
      ∙ or_else-none (find_custom id cs)
  | inr b ↦
      ap (find_custom id) (add_old nano cm cs b)
      ∙ find-put_custom_other id cm cs
          (subst (λ c. text_eq c.id id ≡ false) (with_id_old nano cm b) h)
]

pub removed-is_some :
    (id : Text) (cs : List CustomMode)
    → (length (keep_if (is_other_custom id) cs) == length cs) ≡ not (is_some (find_custom id cs))
unfolding find_custom
removed-is_some id [] = refl
removed-is_some id (c ∷ cs) = elim (Bool-cases (text_eq c.id id)) [
  | inl b ↦ rw b (ground (arith, length-keep_if-le (is_other_custom id) cs))
  | inr b ↦ rw b (ground (arith, removed-is_some id cs))
]
