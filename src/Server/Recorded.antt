-- ===== src/Server/Recorded.antt =====
-- What a reboot brings back of a request (agent/server.go).
use sideshow.Base.{
  ◌≡◌, refl, sym, ap, subst, ◌∙◌, true, false, ◌&&◌, not, Option, none, some, if◌then◌else◌, inl,
  inr, Bool-cases, Text, is_empty,
}
use sideshow.Mode.{Mode, web, off, is_kind, kind, kind_of, normalize, foreground}
use sideshow.Mode.Equivalent.{equivalent, equivalent_equivalence, equivalent_type, equivalent_url}
use sideshow.Supervisor.World.{World, Failure}
use sideshow.Supervisor.Kiosk.{on_screen}
use sideshow.Supervisor.Switch.{switch}
use sideshow.Supervisor.Ownership.Logic.{Core, core}
use sideshow.Supervisor.Shown.{switch_shows}
use sideshow.Supervisor.Shown.Base.{Wanted}
use sideshow.Supervisor.Shown.Claim.{Idle, Shows}
use sideshow.Node.{State}
use sideshow.Node.Reread.{reread}
use sideshow.Node.Ops.{new_state, restore}
use sideshow.Node.Reboot.{reboot_shows}
use sideshow.Server.{
  Server, mode_from_status, is_setup_bootstrap_mode, record_active, switched, show_mode,
}

-- Two modes that are equivalent are the page of the setup, or neither is.
same_setup :
    (u : Text) (a b : Mode)
    → equivalent a b ≡ true
    → is_setup_bootstrap_mode u a ≡ is_setup_bootstrap_mode u b
unfolding is_setup_bootstrap_mode
same_setup u a b h =
    let kinds = ap kind (equivalent_type a b h) in
    elim (Bool-cases (is_kind (kind_of a) web)) [
      | inl e ↦ rw (sym kinds, e, equivalent_url a b h e) refl
      | inr e ↦ rw (sym kinds, e) refl
    ]

-- The mode comes back after a reboot, or one that is equivalent to it.
abbrev pub ComesBack : Mode → State → Type 0
ComesBack m s = (r : Mode) × (restore (new_state s.disk) ≡ some r) × (equivalent r m ≡ true)

recorded-ComesBack :
    (now : Text) (m : Mode) (s : Server)
    → Shows m (core s.sup)
    → is_empty m.type ≡ false
    → is_setup_bootstrap_mode s.setup_url m ≡ false
    → s.state.disk.has_path ≡ true
    → s.state.disk.writable ≡ true
    → ComesBack m (record_active now s).state
unfolding record_active on_screen
recorded-ComesBack now m s (r, shown, same) named other p w =
    let back = equivalent_equivalence.1 r.mode m same in
    let setup = same_setup s.setup_url r.mode m same ∙ other in
    let filled : is_empty r.mode.type ≡ false =
      subst (λ t. is_empty t ≡ false) (equivalent_type m r.mode back) named in
    let kept = reboot_shows now r.mode s.state filled p w in
    rw (shown, setup)
      (reread r.mode, kept.0, equivalent_equivalence.2 (reread r.mode) r.mode m kept.1 same)

record_active-keeps :
    (now : Text) (s : Server)
    → ((record_active now s).sup ≡ s.sup) × ((record_active now s).content ≡ s.content)
unfolding record_active
record_active-keeps now s =
    elim (Bool-cases (is_setup_bootstrap_mode s.setup_url (mode_from_status (on_screen s.sup)))) [
      | inl b ↦ rw b (refl, refl)
      | inr b ↦ rw b (refl, refl)
    ]

-- A mode that a switch can show and a reboot bring back, where the state can be written.
pub record IsKeepable (m : Mode) (s : Server) : Type 0 where
  pub on : is_kind (kind_of m) off ≡ false
  pub named : is_empty m.type ≡ false
  pub no_setup : is_setup_bootstrap_mode s.setup_url m ≡ false
  pub has_path : s.state.disk.has_path ≡ true
  pub writable : s.state.disk.writable ≡ true

-- The mode, or an equivalent one, is on screen and comes back after a reboot.
pub record IsKept (m : Mode) (s : Server) : Type 0 where
  pub shown : Shows m (core s.sup)
  pub back : ComesBack m s.state

shown_when_on : (m : Mode) (c : Core) → is_kind (kind_of m) off ≡ false → Wanted m c → Shows m c
shown_when_on m c on w = subst (λ b. if b && not (foreground m) then Idle c else Shows m c) on w

switched-IsKept :
    (now : Text) (m : Mode) (s : Server) (o : Option Failure) (w : World)
    → IsKeepable m s
    → (o ≡ none → Wanted m (core w))
    → (switched now s (o, w)).0 ≡ none
    → IsKept m (switched now s (o, w)).1 × ((switched now s (o, w)).1.content ≡ s.content)
switched-IsKept now m s (some e) w k h fine = absurd cc
switched-IsKept now m s none w k h fine =
    let after : Server = record s { sup = w } in
    let shown : Shows m (core w) = shown_when_on m (core w) k.on (h refl) in
    let same = record_active-keeps now after in
    (
      record {
        shown = rw same.0 shown;
        back = recorded-ComesBack now m after shown k.named k.no_setup k.has_path k.writable;
      },
      same.1,
    )

-- A request for a mode that is answered without an error leaves it, or an equivalent one, on screen,
-- and a reboot comes back to it, when the mode is not off, has a type, is not the page of the setup,
-- and the state can be written.
pub show_mode-IsKept :
    (now : Text) (m : Mode) (s : Server)
    → IsKeepable (normalize m) s
    → (show_mode now m s).0 ≡ none
    → IsKept (normalize m) (show_mode now m s).1 × ((show_mode now m s).1.content ≡ s.content)
unfolding show_mode
show_mode-IsKept now m s k fine =
    switched-IsKept now (normalize m) s (switch m s.sup).0 (switch m s.sup).1 k
      (switch_shows m s.sup) fine
