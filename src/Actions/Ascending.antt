-- ===== src/Actions/Ascending.antt =====
-- The indices of saved actions ascend with their places (agent/actions.go).
use sideshow.Base.{
  ℕ, zero, suc, ◌≤◌, ◌≡◌, refl, sym, ap, subst, ◌∙◌, arith, Bool, true, false, leb, some, List, [],
  ◌∷◌, ◌++◌, map, take, keep_if, All, All-take, All-keep_if, All-append, inl, inr, Bool-cases, Text,
  text_eq,
}
use sideshow.Actions.{Action}
use sideshow.Actions.Slugs.{unique_slug}
use sideshow.Actions.Store.{
  find_id, put_action, next_index, normal_action, wanted_slug, normalize_from,
}
use sideshow.Actions.Ops.{insert_by_index, sort_by_index, renumber}

abbrev pub IsAscending : List Action → Type 0
IsAscending [] = Unit
IsAscending (a ∷ actions) = All (λ b. suc a.index ≤ b.index) actions × IsAscending actions

further :
    (m n : ℕ) (actions : List Action)
    → m ≤ n
    → All (λ b. n ≤ b.index) actions
    → All (λ b. m ≤ b.index) actions
further m n [] l h = tt
further m n (a ∷ actions) l h = (omega (arith, h.0), further m n actions l h.1)

normalize_from-from :
    (local_base : Text) (i : ℕ) (seen : List Text) (actions : List Action)
    → All (λ b. i ≤ b.index) (normalize_from local_base i seen actions)
      × IsAscending (normalize_from local_base i seen actions)
unfolding normalize_from normal_action
normalize_from-from local_base i seen [] = (tt, tt)
normalize_from-from local_base i seen (a ∷ actions) =
    let seen' = unique_slug (wanted_slug a) seen ∷ seen in
    let rest = normalize_from-from local_base (suc i) seen' actions in
    let later = normalize_from local_base (suc i) seen' actions in
    ((omega arith, further i (suc i) later (omega arith) rest.0), rest)

pub normalize_from-IsAscending :
    (local_base : Text) (i : ℕ) (seen : List Text) (actions : List Action)
    → IsAscending (normalize_from local_base i seen actions)
normalize_from-IsAscending local_base i seen actions =
    (normalize_from-from local_base i seen actions).1

renumber-from :
    (i : ℕ) (actions : List Action)
    → All (λ b. i ≤ b.index) (renumber i actions) × IsAscending (renumber i actions)
unfolding renumber
renumber-from i [] = (tt, tt)
renumber-from i (a ∷ actions) =
    let rest = renumber-from (suc i) actions in
    ((omega arith, further i (suc i) (renumber (suc i) actions) (omega arith) rest.0), rest)

pub renumber-IsAscending : (i : ℕ) (actions : List Action) → IsAscending (renumber i actions)
renumber-IsAscending i actions = (renumber-from i actions).1

pub take-IsAscending :
    (n : ℕ) (actions : List Action) → IsAscending actions → IsAscending (take n actions)
take-IsAscending zero actions h = tt
take-IsAscending (suc n) [] h = tt
take-IsAscending (suc n) (a ∷ actions) h =
    (All-take (λ b. suc a.index ≤ b.index) n actions h.0, take-IsAscending n actions h.1)

pub keep_if-IsAscending :
    (p : Action → Bool) (actions : List Action)
    → IsAscending actions
    → IsAscending (keep_if p actions)
keep_if-IsAscending p [] h = tt
keep_if-IsAscending p (a ∷ actions) h = elim (Bool-cases (p a)) [
  | inl b ↦
      rw b
        (All-keep_if (λ b. suc a.index ≤ b.index) p actions h.0, keep_if-IsAscending p actions h.1)
  | inr b ↦ rw b (keep_if-IsAscending p actions h.1)
]

higher :
    (m n : ℕ) (actions : List Action)
    → m ≤ n
    → All (λ a. suc a.index ≤ m) actions
    → All (λ a. suc a.index ≤ n) actions
higher m n [] l h = tt
higher m n (a ∷ actions) l h = (omega (arith, h.0), higher m n actions l h.1)

next_index_grows :
    (a : Action) (actions : List Action)
    → (suc a.index ≤ next_index (a ∷ actions)) × (next_index actions ≤ next_index (a ∷ actions))
unfolding next_index
next_index_grows a actions = ground arith

below_next : (actions : List Action) → All (λ a. suc a.index ≤ next_index actions) actions
below_next [] = tt
below_next (a ∷ actions) =
    let grows = next_index_grows a actions in
    (
      grows.0,
      higher (next_index actions) (next_index (a ∷ actions)) actions grows.1 (below_next actions),
    )

last-IsAscending :
    (b : Action) (actions : List Action)
    → All (λ a. suc a.index ≤ b.index) actions
    → IsAscending actions
    → IsAscending (actions ++ b ∷ [])
last-IsAscending b [] h d = (tt, tt)
last-IsAscending b (a ∷ actions) h d = (
  All-append (λ c. suc a.index ≤ c.index) actions (b ∷ []) d.0 (h.0, tt),
  last-IsAscending b actions h.1 d.1,
)

-- A new action at the next index.
pub next-IsAscending :
    (b : Action) (actions : List Action)
    → b.index ≡ next_index actions
    → IsAscending actions
    → IsAscending (actions ++ b ∷ [])
next-IsAscending b actions e d =
    last-IsAscending b actions
      (subst (λ n. All (λ a. suc a.index ≤ n) actions) (sym e) (below_next actions)) d

abbrev indices : List Action → List ℕ
indices actions = map (λ a. a.index) actions

same_indices-All :
    (m : ℕ) (xs ys : List Action)
    → indices xs ≡ indices ys
    → All (λ b. m ≤ b.index) xs
    → All (λ b. m ≤ b.index) ys
same_indices-All m [] [] e h = tt
same_indices-All m [] (y ∷ ys) e h = absurd cc
same_indices-All m (x ∷ xs) [] e h = absurd cc
same_indices-All m (x ∷ xs) (y ∷ ys) e h =
    let head : x.index ≡ y.index = cc in
    let tail : indices xs ≡ indices ys = cc in
    (subst (λ n. m ≤ n) head h.0, same_indices-All m xs ys tail h.1)

same_indices-IsAscending :
    (xs ys : List Action) → indices xs ≡ indices ys → IsAscending xs → IsAscending ys
same_indices-IsAscending [] [] e h = tt
same_indices-IsAscending [] (y ∷ ys) e h = absurd cc
same_indices-IsAscending (x ∷ xs) [] e h = absurd cc
same_indices-IsAscending (x ∷ xs) (y ∷ ys) e h =
    let head : x.index ≡ y.index = cc in
    let tail : indices xs ≡ indices ys = cc in
    (
      subst (λ n. All (λ b. suc n ≤ b.index) ys) head
          (same_indices-All (suc x.index) xs ys tail h.0),
      same_indices-IsAscending xs ys tail h.1,
    )

module _ (id : Text) (a : Action) (actions : List Action) where
  pub find_here : text_eq a.id id ≡ true → find_id id (a ∷ actions) ≡ some a
  unfolding find_id
  find_here h = rw h refl

  pub find_later : text_eq a.id id ≡ false → find_id id (a ∷ actions) ≡ find_id id actions
  unfolding find_id
  find_later h = rw h refl

indices-put_action :
    (b old : Action) (actions : List Action)
    → find_id b.id actions ≡ some old
    → b.index ≡ old.index
    → indices (put_action b actions) ≡ indices actions
unfolding put_action
indices-put_action b old [] f e = refl
indices-put_action b old (a ∷ actions) f e = elim (Bool-cases (text_eq a.id b.id)) [
  | inl h ↦
      let first = find_here b.id a actions h in
      let same : old ≡ a = cc in rw h (ap (λ n. n ∷ indices actions) (e ∙ ap (λ k. k.index) same))
  | inr h ↦ rw h (
      ap (λ r. a.index ∷ r)
        (indices-put_action b old actions (sym (find_later b.id a actions h) ∙ f) e))
]

-- An action that is put where its id stands, with the index that is there.
pub put_action-IsAscending :
    (b old : Action) (actions : List Action)
    → find_id b.id actions ≡ some old
    → b.index ≡ old.index
    → IsAscending actions
    → IsAscending (put_action b actions)
put_action-IsAscending b old actions f e h =
    same_indices-IsAscending actions (put_action b actions)
      (sym (indices-put_action b old actions f e)) h

insert_by_index_first :
    (a : Action) (actions : List Action)
    → All (λ b. suc a.index ≤ b.index) actions
    → insert_by_index a actions ≡ a ∷ actions
unfolding insert_by_index
insert_by_index_first a [] h = refl
insert_by_index_first a (b ∷ actions) h =
    let before : leb a.index b.index ≡ true = ground (arith, h.0) in rw before refl

-- Sorting changes nothing then.
pub sort_by_index_ascending :
    (actions : List Action) → IsAscending actions → sort_by_index actions ≡ actions
unfolding sort_by_index
sort_by_index_ascending [] h = refl
sort_by_index_ascending (a ∷ actions) h =
    rw (sort_by_index_ascending actions h.1) (insert_by_index_first a actions h.0)
