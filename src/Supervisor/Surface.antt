-- ===== src/Supervisor/Surface.antt =====
-- What the supervisor does to the screen and to the children (agent/supervisor.go, with `Attach`,
-- `Navigate` and `Detach` of agent/chrome.go and `postStart` of agent/main.go).
use sideshow.Base.{
  ℕ, zero, suc, ◌+◌, Bool, true, false, not, ◌&&◌, Option, none, some, [], ◌∷◌, Text, text,
  if◌then◌else◌,
}
use sideshow.Mode.{Mode, str_of, is_wayland, is_wayland_primary, uses_chrome, str, flag}
use sideshow.Mode.Command.{Config, Command, built, failed, mode_command}
use sideshow.Mode.Equivalent.{equivalent}
use sideshow.Supervisor.World.{
  RunState, starting, running, Hook, Runner, chvt, find_binary, spawn, cdp_connect, cdp_navigate,
  World, Act, pure, ◌>>=◌, ◌>>◌, gets, skip, ask, set_attached, set_vt, member, without,
}

-- `activateVT`: no switch for VT 0. A failed `chvt` leaves the active VT as it is.
unfoldable pub activate_vt : ℕ → Act Bool
activate_vt zero = pure true
activate_vt (suc n) = do done ← ask (chvt (suc n)); if done then set_vt (suc n) else skip; pure done

unfoldable pub detach : Act (Unit {0})
detach = set_attached false

-- `Navigate`: an error unless the controller is attached.
unfoldable pub navigate : Text → Act Bool
navigate url = do on ← gets (λ w. w.attached); if on then ask (cdp_navigate url) else pure false

-- `connect`: detaches first, and is attached if the page target answers.
unfoldable pub connect : Act Bool
unfolding detach
connect = do detach; found ← ask cdp_connect; set_attached found; pure found

-- `Attach`: connects, then navigates; a failed navigation detaches.
unfoldable pub attach : Text → Act Bool
unfolding connect navigate detach
attach url = do
  found ← connect
  if found then (do done ← navigate url; if done then skip else detach; pure done) else pure false

-- Whether the program of the command is there to be run.
unfoldable pub find_program : Command → Act Bool
find_program (failed e) = pure false
find_program (built name args) = ask (find_binary name)

-- `preflight`
unfoldable pub preflight : Mode → Act Bool
unfolding find_program
preflight m = do cfg ← gets (λ w. w.cfg); find_program (mode_command cfg m)

-- `postStart`
unfoldable pub post_start : Mode → Act Bool
unfolding attach
post_start m = if uses_chrome m then attach (str_of m (text "url")) else pure true

-- `newModeRunner`
unfoldable pub new_runner : Mode → Hook → Act Runner
new_runner m h w = (
  record { id = w.next_id; mode = m; state = starting; hook = h },
  record w { next_id = w.next_id + 1 },
)

unfoldable pub now_live : ℕ → Act (Unit {0})
now_live i w = (tt, record w { live = i ∷ w.live })

abbrev pub spawned : Runner → Bool → Act (Option Runner)
spawned r false = pure none
spawned r true = do now_live r.id; post_start r.mode; pure (some (record r { state = running }))

unfoldable pub spawn_child : Runner → Command → Act (Option Runner)
unfolding now_live post_start
spawn_child r (failed e) = pure none
spawn_child r (built name args) = do done ← ask (spawn r.mode); spawned r done

-- `newModeRunner` and `start`: the runner, if its child could be built and started. A failed
-- `postStart` does not fail the start.
unfoldable pub launch : Mode → Hook → Act (Option Runner)
unfolding new_runner spawn_child
launch m h = do r ← new_runner m h; cfg ← gets (λ w. w.cfg); spawn_child r (mode_command cfg m)

-- `Stop`: when it returns the child has been reaped. The run loop detaches the controller as the
-- child of a Chromium mode ends.
unfoldable pub stop : Runner → Act (Unit {0})
stop r w = (
  tt,
  record w {
    live = without r.id w.live;
    attached = w.attached && not (member r.id w.live && uses_chrome r.mode);
  },
)

unfoldable pub stop_any : Option Runner → Act (Unit {0})
unfolding stop
stop_any none = skip
stop_any (some r) = stop r

abbrev pub is_running : RunState → Bool
is_running running = true
is_running _ = false

unfoldable pub is_alive : Runner → Bool
is_alive r = elim r.state [ running ↦ true | starting ↦ true | _ ↦ false ]

unfoldable pub running_mode : Runner → Mode → Bool
running_mode r m = is_running r.state && equivalent r.mode m

unfoldable pub primary_vt : Config → Mode → ℕ
primary_vt cfg m = if is_wayland_primary m then cfg.wayland_vt else cfg.x_vt

unfoldable pub cdp_port_of : Config → Mode → ℕ
cdp_port_of cfg m = if is_wayland m then cfg.wayland_cdp_port else cfg.cdp_port

abbrev pub on_wayland : Option Runner → Bool
on_wayland none = false
on_wayland (some r) = is_wayland_primary r.mode

-- `baseVT`
unfoldable pub base_vt : World → ℕ
base_vt w = if on_wayland w.runner then w.cfg.wayland_vt else w.cfg.x_vt

abbrev pub empty_mode : Mode
empty_mode = record { type = []; params = []; display = [] }

-- `currentBaseMode`
unfoldable pub current_base_mode : World → Mode
current_base_mode w = elim w.runner [ none ↦ empty_mode | some r ↦ r.mode ]

-- The X11 kiosk of `restoreWebKiosk`.
abbrev pub kiosk_mode : Text → Bool → Mode
kiosk_mode url dark = record {
  type = text "web";
  params = (text "url", str url) ∷ (text "dark", flag dark) ∷ [];
  display = text "compositor";
}
