-- ===== src/Server/Fired.antt =====
-- What follows when a saved action is fired, by a request or by the scheduler (agent/server.go).
use sideshow.Base.{
  ◌≡◌, refl, sym, ap, subst, ◌∙◌, Bool, true, false, not, none, some, [], if◌then◌else◌, inl, inr,
  Bool-cases, Text, text, text_eq,
}
use sideshow.Mode.{Mode, normalize}
use sideshow.Supervisor.Kiosk.{on_screen}
use sideshow.Content.Owner.{disable_owners-kept}
use sideshow.Actions.{Action}
use sideshow.Actions.Ops.{get}
use sideshow.Display.State.{Display, Seat, Outcome, primary_name}
use sideshow.Display.Ops.{screen, asleep}
use sideshow.Server.{
  Server, on_backend, without_owner, run_action, seated, on_display, turn, fire_scheduled,
}
use sideshow.Server.Recorded.{IsKeepable, IsKept, show_mode-IsKept}

-- The mode that an action puts on screen.
abbrev pub mode_fired : Action → Server → Mode
mode_fired a s = normalize (on_backend (on_screen s.sup) a.mode)

-- It is kept, and no document owns the page.
abbrev pub IsFired : Mode → Server → Type 0
IsFired m s = IsKept m s × (s.content.kept.enabled ≡ false)

run_action-IsFired :
    (now : Text) (a : Action) (s : Server)
    → IsKeepable (mode_fired a s) s
    → (run_action now a s).0 ≡ none
    → IsFired (mode_fired a s) (run_action now a s).1
unfolding run_action
run_action-IsFired now a s k fine =
    let free = without_owner s in
    let m = on_backend (on_screen s.sup) a.mode in
    let kept : IsKeepable (normalize m) free = record {
      on = k.on;
      named = k.named;
      no_setup = k.no_setup;
      has_path = k.has_path;
      writable = k.writable;
    } in
    let shown = show_mode-IsKept now m free kept fine in
    (
      shown.0,
      ap (λ c. c.kept.enabled) shown.1 ∙ ap (λ c. c.enabled) (disable_owners-kept s.content),
    )

-- The display is all that is changed.
on_display-display :
    (s : Server) (o : Outcome) → (d : Display) × ((on_display s o).0.1 ≡ record s { display = d })
on_display-display s (none, (d, calls)) = (d, refl)
on_display-display s (some e, (d, calls)) = (d, refl)

turn-display :
    (seat : Seat) (on : Bool) (s : Server)
    → (d : Display) × ((turn seat on s).0.1 ≡ record s { display = d })
turn-display seat on s =
    let d = primary_name seat s.display in
    elim (Bool-cases (if on then not (asleep d) else asleep d)) [
      | inl b ↦ rw b (d, refl)
      | inr b ↦ rw b (on_display-display (record s { display = d }) (screen seat [] on d))
    ]

woken-IsFired :
    (now : Text) (a : Action) (s t : Server) (d : Display)
    → t ≡ record s { display = d }
    → IsKeepable (mode_fired a s) s
    → (run_action now a t).0 ≡ none
    → IsFired (mode_fired a s) (run_action now a t).1
woken-IsFired now a s t d e k =
    subst (λ x. (run_action now a x).0 ≡ none → IsFired (mode_fired a s) (run_action now a x).1)
      (sym e)
      (run_action-IsFired now a (record s { display = d })
        (record {
          on = k.on;
          named = k.named;
          no_setup = k.no_setup;
          has_path = k.has_path;
          writable = k.writable;
        }))

-- A saved action that the scheduler fires by a slug other than @sleep and @wake, without an error,
-- is what the screen shows, whatever the display answered when it was woken; no document owns the
-- page, and a reboot comes back to it, when its mode is not off, has a type, is not the page of
-- the setup, and the state can be written.
pub fire_scheduled-IsFired :
    (now : Text) (seat : Seat) (slug : Text) (a : Action) (s : Server)
    → text_eq slug (text "@sleep") ≡ false
    → text_eq slug (text "@wake") ≡ false
    → get slug s.actions ≡ some a
    → IsKeepable (mode_fired a s) s
    → (fire_scheduled now seat slug s).0.0 ≡ none
    → IsFired (mode_fired a s) (fire_scheduled now seat slug s).0.1
unfolding fire_scheduled
fire_scheduled-IsFired now seat slug a s no_sleep no_wake found k =
    let woken = turn-display (seated seat s.sup) true s in
    rw (no_sleep, no_wake, found)
      (woken-IsFired now a s (turn (seated seat s.sup) true s).0.1 woken.0 woken.1 k)
