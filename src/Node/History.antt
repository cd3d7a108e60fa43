-- ===== src/Node/History.antt =====
-- The history of what a node has shown (agent/state.go).
use sideshow.Base.{
  ◌≤◌, ◌≡◌, refl, sym, subst, ap, ◌∙◌, Bool, true, false, ◌&&◌, ◌==◌, List, [], ◌∷◌, take, length,
  length-take-le, keep_if, All, All-take, All-keep_if, Bool-cases, inl, inr, arith, Text, text_eq,
  text_eq_refl,
}
use sideshow.Mode.{Mode}
use sideshow.Mode.Equivalent.{label}
use sideshow.Node.{HistoryItem, State}
use sideshow.Node.Ident.{hist_id}
use sideshow.Node.Lists.{
  keep_if_passing, keep_if-passes, take-take, IsDistinct, keep_if-IsDistinct, take-IsDistinct,
}
use sideshow.Node.Ops.{
  max_history, item_of, is_other, push_history, is_shown, remember, record_mode, save,
  delete_history, if_removed, without_item,
}

-- What `RecordMode` says of an item.
pub record IsItem (h : HistoryItem) : Type 0 where
  pub id : h.id ≡ hist_id h.label
  pub label_of : h.label ≡ label h.mode
  pub type_of : h.type ≡ h.mode.type
  pub shown : is_shown h.mode ≡ true

pub record IsTidy (hs : List HistoryItem) : Type 0 where
  pub bounded : length hs ≤ max_history
  pub distinct : IsDistinct hs
  pub items : All IsItem hs

pub item_of-IsItem : (now : Text) (m : Mode) → is_shown m ≡ true → IsItem (item_of now m)
unfolding item_of
item_of-IsItem now m h = record { id = refl; label_of = refl; type_of = refl; shown = h }

others-distinct :
    (id : Text) (hs : List HistoryItem)
    → All (λ x. text_eq x.id id ≡ false) (keep_if (is_other id) hs)
others-distinct id [] = tt
others-distinct id (h ∷ hs) = elim (Bool-cases (text_eq h.id id)) [
  | inl b ↦ rw b (others-distinct id hs)
  | inr b ↦ rw b (b, others-distinct id hs)
]

pub push_history-IsTidy :
    (item : HistoryItem) (hs : List HistoryItem)
    → IsItem item
    → IsTidy hs
    → IsTidy (push_history item hs)
unfolding push_history
push_history-IsTidy item hs hi h =
    let all = item ∷ keep_if (is_other item.id) hs in
    record {
      bounded = length-take-le max_history all;
      distinct =
          take-IsDistinct max_history all
            (others-distinct item.id hs, keep_if-IsDistinct (is_other item.id) hs h.distinct);
      items =
          All-take IsItem max_history all (hi, All-keep_if IsItem (is_other item.id) hs h.items);
    }

keep_again :
    (item : HistoryItem) (hs : List HistoryItem)
    → keep_if (is_other item.id) (take max_history (item ∷ keep_if (is_other item.id) hs))
      ≡ take 49 (keep_if (is_other item.id) hs)
keep_again item hs =
    let kept = keep_if (is_other item.id) hs in
    rw (text_eq_refl item.id) (
      keep_if_passing (is_other item.id) (take 49 kept)
        (All-take (λ x. is_other item.id x ≡ true) 49 kept (keep_if-passes (is_other item.id) hs)))

push_history_again :
    (item next : HistoryItem) (hs : List HistoryItem)
    → item.id ≡ next.id
    → push_history next (push_history item hs) ≡ push_history next hs
unfolding push_history
push_history_again item next hs e =
    ap (λ r. next ∷ take 49 r)
      (subst
        (λ x.
          keep_if (is_other x) (take max_history (item ∷ keep_if (is_other item.id) hs))
          ≡ take 49 (keep_if (is_other x) hs))
        e (keep_again item hs))
    ∙ ap (λ r. next ∷ r) (take-take 49 49 (keep_if (is_other next.id) hs) (omega arith))

pub save-kept : (s : State) → (save s).kept ≡ s.kept
unfolding save
save-kept s = elim (Bool-cases (s.disk.has_path && s.disk.writable)) [
  | inl b ↦ rw b refl
  | inr b ↦ rw b refl
]

record_mode-history :
    (now : Text) (m : Mode) (s : State)
    → is_shown m ≡ true
    → (record_mode now m s).kept.history ≡ push_history (item_of now m) s.kept.history
unfolding record_mode remember
record_mode-history now m s h =
    ap (λ k. k.history) (save-kept (record s { kept = remember now m s.kept })) ∙ rw h refl

-- Showing again what carries the same label renews its one place in the history: the result is what
-- the later showing alone would have given.
pub record_mode_again :
    (now later : Text) (m n : Mode) (s : State)
    → is_shown m ≡ true
    → is_shown n ≡ true
    → label m ≡ label n
    → (record_mode later n (record_mode now m s)).kept.history
      ≡ (record_mode later n s).kept.history
unfolding item_of
record_mode_again now later m n s hm hn e =
    record_mode-history later n (record_mode now m s) hn
    ∙ ap (push_history (item_of later n)) (record_mode-history now m s hm)
    ∙ push_history_again (item_of now m) (item_of later n) s.kept.history (ap hist_id e)
    ∙ sym (record_mode-history later n s hn)

-- The list is the shortened one whether or not it is saved.
pub if_removed-kept : (b : Bool) (s : State) → (if_removed b s).1.kept ≡ s.kept
unfolding if_removed
if_removed-kept true s = refl
if_removed-kept false s = save-kept s

deleted_history :
    (id : Text) (s : State)
    → (delete_history id s).1.kept.history ≡ keep_if (is_other id) s.kept.history
unfolding delete_history
deleted_history id s =
    ap (λ k. k.history)
      (if_removed-kept (length (keep_if (is_other id) s.kept.history) == length s.kept.history)
        (without_item id s))
