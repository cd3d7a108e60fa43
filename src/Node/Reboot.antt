-- ===== src/Node/Reboot.antt =====
-- What a node remembers through a reboot, and its history through all operations (agent/state.go).
use sideshow.Base.{ℕ, ◌≡◌, refl, Bool, true, false, Option, none, some, Text, is_empty}
use sideshow.Mode.{Mode}
use sideshow.Mode.Equivalent.{equivalent}
use sideshow.Mode.Equivalent.Reads.{equivalent-ReadsAs}
use sideshow.Node.{CustomMode, Kept, State}
use sideshow.Node.Reread.{reread, reread-ReadsAs}
use sideshow.Node.Ops.{
  remember, save, new_state, record_mode, restore, delete_history, clear_history,
  set_setup_complete, set_local_input,
}
use sideshow.Node.Launchers.{upsert_custom, delete_custom}
use sideshow.Node.History.{IsTidy}

-- A reboot comes back to the mode that was recorded last: the restored mode is the one that was
-- shown, up to the form that its lists have in JSON, and the supervisor takes the two for the same.
pub reboot_shows :
    (now : Text) (m : Mode) (s : State)
    → is_empty m.type ≡ false
    → s.disk.has_path ≡ true
    → s.disk.writable ≡ true
    → (restore (new_state (record_mode now m s).disk) ≡ some (reread m))
      × (equivalent (reread m) m ≡ true)
unfolding restore new_state record_mode remember save reread
reboot_shows now m s hm hp hw =
    (rw (hp, hw, hm) refl, equivalent-ReadsAs (reread m) m (reread-ReadsAs m))

abbrev OfFile : (Kept → Type 0) → Option Kept → Type 0
OfFile P none = Unit
OfFile P (some k) = P k

pub record IsOrderly (s : State) : Type 0 where
  pub history : IsTidy s.kept.history
  pub file : OfFile (λ k. IsTidy k.history) s.disk.file

-- An operation, a reboot, or a change of whether the disk can be written.
pub data Step : State → State → Type 0 where
  recording : {s : State} (now : Text) (m : Mode) → Step s (record_mode now m s)
  deleting : {s : State} (id : Text) → Step s (delete_history id s).1
  clearing : {s : State} → Step s (clear_history s)
  completing : {s : State} (v : Bool) → Step s (set_setup_complete v s)
  allowing : {s : State} (v : Bool) → Step s (set_local_input v s)
  upserting : {s : State} (nano : ℕ) (cm : CustomMode) → Step s (upsert_custom nano cm s).1
  deleting_custom : {s : State} (id : Text) → Step s (delete_custom id s).1
  rebooting : {s : State} → Step s (new_state s.disk)
  disk_turning :
      {s : State} (writable : Bool)
      → Step s (record s { disk = record s.disk { writable = writable } })

pub data Reach : State → Type 0 where
  fresh :
      (has_path writable : Bool)
      → Reach (new_state (record { has_path = has_path; writable = writable; file = none }))
  then_step : {s s' : State} → Reach s → Step s s' → Reach s'
