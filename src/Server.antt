-- ===== src/Server.antt =====
-- What a request and the scheduler set off (agent/server.go): the handlers after their body was
-- decoded, over the supervisor, the node's state, the content manager, the display and the actions.
pub mod Recorded
pub mod Fired
pub mod Sleeping
use sideshow.Base.{
  ℕ, Bool, true, false, ◌&&◌, ◌||◌, not, Option, none, some, List, [], ◌∷◌, if◌then◌else◌, ◌⊎◌, inl,
  inr, Text, text, text_eq, is_empty,
}
use sideshow.Mode.{Mode, Params, str, flag, web, is_kind, kind_of, str_of}
use sideshow.Supervisor.World.{Runner, World, Failure, RunState}
use sideshow.Supervisor.Kiosk.{on_screen, shows_foreground, on_wayland_primary}
use sideshow.Supervisor.Switch.{switch}
use sideshow.Node.{CustomMode, State}
use sideshow.Node.Ops.{record_mode}
use sideshow.Node.Launchers.{mode_of, get_custom}
use sideshow.Content.{OutputContent, Content}
use sideshow.Content.Manage.{OutputError, not_switched, disable_owners, set_output_content}
use sideshow.Actions.{Action, Actions}
use sideshow.Actions.Ops.{get}
use sideshow.Display.State.{Display, Seat, Call, DisplayError, Outcome, primary_name}
use sideshow.Display.Ops.{screen, asleep}

-- The parts of `Server` that these handlers use, with the URL that `setupURL` makes.
pub record Server : Type 0 where
  pub sup : World
  pub state : State
  pub content : Content
  pub display : Display
  pub actions : Actions
  pub setup_url : Text

pub data ServerError : Type 0 where
  missing_url missing_slug not_found : ServerError
  switch_error : Failure → ServerError
  not_assigned : OutputError → ServerError
  not_on_display : DisplayError → ServerError

abbrev pub Answer : Type 0
Answer = Option ServerError × Server

-- `modeFromStatus(s.sup.Status())`
abbrev pub mode_from_status : Option Runner → Mode
mode_from_status none = record { type = text "off"; params = []; display = text "compositor" }
mode_from_status (some r) = r.mode

-- `isSetupBootstrapMode`
unfoldable pub is_setup_bootstrap_mode : Text → Mode → Bool
is_setup_bootstrap_mode setup_url m =
    is_kind (kind_of m) web
    && not (is_empty (str_of m (text "url")))
    && text_eq (str_of m (text "url")) setup_url

-- `recordActive`, at the time `now`
unfoldable pub record_active : Text → Server → Server
record_active now s =
    let m = mode_from_status (on_screen s.sup) in
    if is_setup_bootstrap_mode s.setup_url m
    then s
    else record s { state = record_mode now m s.state }

abbrev pub switched : Text → Server → Option Failure × World → Answer
switched now s (none, w) = (none, record_active now (record s { sup = w }))
switched now s (some e, w) = (some (switch_error e), record s { sup = w })

-- `handleMode`, and the end of the other handlers that switch
unfoldable pub show_mode : Text → Mode → Server → Answer
show_mode now m s = switched now s (switch m s.sup)

-- The display of a web mode that is on screen is inherited.
abbrev pub inherited : Option Runner → Text → Text
inherited none d = d
inherited (some r) d =
    if is_kind (kind_of r.mode) web && not (is_empty r.mode.display) then r.mode.display else d

abbrev pub without_owner : Server → Server
without_owner s = record s { content = disable_owners s.content }

-- `handleURL`
unfoldable pub show_url : Text → Text → Bool → Server → Answer
show_url now url dark s =
    if is_empty url
    then (some missing_url, s)
    else show_mode now
        (record {
          type = text "web";
          params = (text "url", str url) ∷ (text "dark", flag dark) ∷ [];
          display = inherited (on_screen s.sup) [];
        })
        (without_owner s)

abbrev pub text_param : Text → Text → Params → Params
text_param key s ps = if is_empty s then ps else (key, str s) ∷ ps

abbrev pub flag_param : Text → Option Bool → Params → Params
flag_param key none ps = ps
flag_param key (some b) ps = (key, flag b) ∷ ps

-- `handleMedia`
unfoldable pub show_media : Text → Text → Text → Option Bool → Option Bool → Server → Answer
show_media now url path loop mute s =
    show_mode now
      (record {
        type = text "media";
        params = text_param (text "url") url (
            text_param (text "path") path
              (flag_param (text "loop") loop (flag_param (text "mute") mute [])));
        display = text "compositor";
      })
      s

abbrev pub launch_found : Text → Option CustomMode → Server → Answer
launch_found now none s = (some not_found, s)
launch_found now (some cm) s = show_mode now (mode_of cm) s

-- `handleCustomLaunch`
unfoldable pub launch_custom : Text → Text → Server → Answer
launch_custom now id s = launch_found now (get_custom id s.state) s

abbrev pub on_backend : Option Runner → Mode → Mode
on_backend r m =
    if is_kind (kind_of m) web && is_empty m.display
    then record m { display = inherited r m.display }
    else m

-- `runAction`
unfoldable pub run_action : Text → Action → Server → Answer
run_action now a s = show_mode now (on_backend (on_screen s.sup) a.mode) (without_owner s)

abbrev pub run_found : Text → Option Action → Server → Answer
run_found now none s = (some not_found, s)
run_found now (some a) s = run_action now a s

-- `handleActionFire`, for the slug of the path
unfoldable pub fire_action : Text → Text → Server → Answer
fire_action now slug s =
    if is_empty slug then (some missing_slug, s) else run_found now (get slug s.actions) s

-- What the display asks of the supervisor.
abbrev pub seated : Seat → World → Seat
seated seat w = record seat { wayland = on_wayland_primary w; foreground = shows_foreground w }

abbrev pub on_display : Server → Outcome → Answer × List Call
on_display s (none, (d, calls)) = ((none, record s { display = d }), calls)
on_display s (some e, (d, calls)) = ((some (not_on_display e), record s { display = d }), calls)

-- The display is turned off or on, unless it is so already.
abbrev pub turn : Seat → Bool → Server → Answer × List Call
turn seat on s =
    let d = primary_name seat s.display in
    if (if on then not (asleep d) else asleep d)
    then ((none, record s { display = d }), [])
    else on_display (record s { display = d }) (screen seat [] on d)

abbrev pub run_awake : Text → Action → Answer × List Call → Answer × List Call
run_awake now a ((e, s), calls) = (run_action now a s, calls)

abbrev pub fire_found : Text → Seat → Option Action → Server → Answer × List Call
fire_found now seat none s = ((some not_found, s), [])
fire_found now seat (some a) s = run_awake now a (turn seat true s)

-- `fireScheduled`, with the calls to the display
unfoldable pub fire_scheduled : Text → Seat → Text → Server → Answer × List Call
fire_scheduled now seat action s =
    if text_eq action (text "@sleep")
    then turn (seated seat s.sup) false s
    else if text_eq action (text "@wake")
    then turn (seated seat s.sup) true s
    else fire_found now (seated seat s.sup) (get action s.actions) s

-- A request that is refused does not come to ask for the primary output.
abbrev pub asked : OutputError → Bool
asked (not_switched e) = true
asked _ = false

abbrev pub assigned : Text → Server → Display → Option OutputError × (Content × World) → Answer
assigned now s d (none, (c, w)) =
    (none, record_active now (record s { content = c; sup = w; display = d }))
assigned now s d (some e, (c, w)) = (
  some (not_assigned e),
  record s { content = c; sup = w; display = if asked e then d else s.display },
)

-- `handleOutputContent`
unfoldable pub assign_output : Text → Seat → Text → OutputContent → Server → Answer
assign_output now seat name oc s =
    let d = primary_name (seated seat s.sup) s.display in
    assigned now s d (set_output_content d.primary name oc s.content s.sup)
