-- ===== src/Node/Ops.antt =====
-- The operations on the active mode, the history and the flags of a node (agent/state.go).
use sideshow.Base.{
  ℕ, Bool, true, false, not, ◌&&◌, Option, none, some, List, [], ◌∷◌, map, take, length, keep_if,
  ◌==◌, if◌then◌else◌, Text, text_eq, is_empty,
}
use sideshow.Mode.{Mode, off, is_kind, kind_of}
use sideshow.Mode.Equivalent.{label}
use sideshow.Node.{HistoryItem, Kept, Disk, State}
use sideshow.Node.Reread.{reread}
use sideshow.Node.Ident.{hist_id}

abbrev pub max_history : ℕ
max_history = 50

abbrev pub on_disk : Bool → State → State
on_disk written s = if written then record s { disk = record s.disk { file = some s.kept } } else s

-- `save`. A write that fails leaves the file as it was, since it is replaced by a rename.
unfoldable pub save : State → State
save s = on_disk (s.disk.has_path && s.disk.writable) s

abbrev pub nothing_kept : Kept
nothing_kept = record {
  active = none;
  setup_complete = false;
  history = [];
  custom_modes = [];
  local_input = none;
}

-- What the decoder makes of the file.
abbrev pub reread_item : HistoryItem → HistoryItem
reread_item h = record h { mode = reread h.mode }

abbrev pub reread_active : Option Mode → Option Mode
reread_active none = none
reread_active (some m) = some (reread m)

abbrev pub reread_kept : Kept → Kept
reread_kept k = record k { active = reread_active k.active; history = map reread_item k.history }

abbrev pub loaded : Bool → Option Kept → Kept
loaded true (some k) = reread_kept k
loaded _ _ = nothing_kept

-- `NewState` with `load`
unfoldable pub new_state : Disk → State
unfolding reread
new_state d = record { kept = loaded d.has_path d.file; disk = d }

-- The item that `RecordMode` puts in front, at the time `now`.
unfoldable pub item_of : Text → Mode → HistoryItem
item_of now m = record {
  id = hist_id (label m);
  at = now;
  type = m.type;
  label = label m;
  mode = m;
}

abbrev pub is_other : Text → HistoryItem → Bool
is_other id h = not (text_eq h.id id)

unfoldable pub push_history : HistoryItem → List HistoryItem → List HistoryItem
push_history item history = take max_history (item ∷ keep_if (is_other item.id) history)

abbrev pub is_shown : Mode → Bool
is_shown m = not (is_kind (kind_of m) off) && not (is_empty m.type)

unfoldable pub remember : Text → Mode → Kept → Kept
unfolding item_of push_history
remember now m k = record k {
  active = some m;
  history = if is_shown m then push_history (item_of now m) k.history else k.history;
}

-- `RecordMode`
unfoldable pub record_mode : Text → Mode → State → State
unfolding remember save
record_mode now m s = save (record s { kept = remember now m s.kept })

abbrev pub named : Option Mode → Option Mode
named none = none
named (some m) = if is_empty m.type then none else some m

-- `Restore`
unfoldable pub restore : State → Option Mode
restore s = named s.kept.active

-- `removed := len(list) != before; if removed { s.save() }; return removed`
unfoldable pub if_removed : Bool → State → Bool × State
unfolding save
if_removed same_length s = if same_length then (false, s) else (true, save s)

abbrev pub without_item : Text → State → State
without_item id s = record s {
  kept = record s.kept { history = keep_if (is_other id) s.kept.history };
}

-- `DeleteHistory`, with whether the item was there
unfoldable pub delete_history : Text → State → Bool × State
unfolding if_removed
delete_history id s =
    if_removed (length (keep_if (is_other id) s.kept.history) == length s.kept.history)
      (without_item id s)

-- `ClearHistory`
unfoldable pub clear_history : State → State
unfolding save
clear_history s = save (record s { kept = record s.kept { history = [] } })

-- `SetSetupComplete` and `SetLocalInput`
unfoldable pub set_setup_complete : Bool → State → State
unfolding save
set_setup_complete v s = save (record s { kept = record s.kept { setup_complete = v } })

unfoldable pub set_local_input : Bool → State → State
unfolding save
set_local_input v s = save (record s { kept = record s.kept { local_input = some v } })

-- `LocalInputAllowed`
abbrev pub or_default : Bool → Option Bool → Bool
or_default def none = def
or_default def (some v) = v

unfoldable pub local_input_allowed : Bool → State → Bool
local_input_allowed def s = or_default def s.kept.local_input
