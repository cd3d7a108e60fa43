-- ===== src/Lib.antt =====
-- The agent of sideshow: one process that owns the screen of a display node.
--
-- The program's parts and how they meet. A request names a display mode (agent/modes.go); it is
-- normalized and validated, and the supervisor (agent/supervisor.go) brings it on screen: it stops
-- the runners that are in the way, hands the DRM master over by switching virtual terminals, starts
-- the mode's child with the command of agent/main.go, and drives a Chromium kiosk over the CDP
-- controller of agent/chrome.go. A run loop for each runner calls back when its mode ends.
--
-- Base has what the modules share: tests on numbers, lists, and Go strings as lists of code points
-- (`TrimSpace`, `ToLower`, `HasPrefix`, `Fields`, `%d`).
-- Mode is agent/modes.go: `Mode` is the struct, `kind` and `surface` are the `switch` on its type and
-- display, `normalize`, `validate`, `equivalent` and `label` are the functions of these names, and
-- Mode/Command has `mode_command` (`modeCommand`) with the argument lists of agent/main.go.
-- Supervisor is agent/supervisor.go. Supervisor/World has the state: the fields of `Supervisor`, the
-- attached flag and the port of the CDP controller, the active VT, and the addresses of the runners
-- whose child runs. What programs and the system do is asked of the world: `answer q n` answers the
-- n-th question, and the theorems hold for every such function. Supervisor/Surface has the actions
-- on the screen and the children, Supervisor/Switch `Switch` and what it calls, Supervisor/Recover
-- what follows when a run loop ends (`ended`) and `Shutdown`, Supervisor/Kiosk the other operations,
-- Supervisor/RunLoop the decisions of `runLoop` after each exit of a child (`loop_step`).
-- A call runs from taking the switch token to giving it back without another call in between, as the
-- token demands; what happens between calls is a step of `Step`, in any order.
--
-- Schedule is agent/weekly.go with `parseHHMM` of agent/displaystate.go: Schedule/Clock has
-- `parse_hhmm` with what `Sscanf` does, Schedule/Calendar the use of package `time`,
-- Schedule/Sanitize the functions that clean a submission, Schedule/Timeline `desiredLocked` and the
-- state, Schedule/Engine `Set`, `tick`, `MigrateNightly`, `load` and `save`. The scheduler fires an
-- action by its name (`fire_scheduled` of Server).
-- Node is agent/state.go: Node/Ident has `hist_id` (FNV-1a over the UTF-8 bytes), Node/Ops the
-- operations on the active mode, the history and the flags with their file, Node/Launchers those on the
-- saved custom modes, Node/Reread what JSON makes of a mode. Server records
-- a mode after each successful switch, and the agent restores it at boot.
--
-- Watchdog is agent/watchdog.go: `watch_step` is one round of the loop with the calls it makes,
-- Watchdog/Reboots the ledger (`allow_reboot`), and `watch_life` the loop across boots. What a round
-- reads of the supervisor and of the network is its argument.
-- Files is the part of agent/content.go and agent/library.go that keeps paths inside their directory:
-- Base/Paths has `filepath.Clean` and `Join`, Files/Docs `safe_doc_rel` and `safe_doc_path`,
-- Files/Source `validate_doc_src`, Files/Library the operations of the media library, each as the call
-- it makes at its end, and Files/Upload the upload. A `Tree` answers for symbolic links and for what
-- exists, and the theorems hold for every one.
-- Playlist is agent/playlist.go: `sanitize_items`, `set`, `new_playlist` and the file.
-- Actions is agent/actions.go: Actions/Slugs has `slugify` and `unique_slug`, Actions/Store the loading
-- and `upsert`, Actions/Ops the other operations. An action carries a mode or a playlist, whose items
-- are sanitized as those of Playlist; Server fires it.
-- Content is agent/content.go over the calls of the supervisor: Content/Manage has the operations and
-- the tick that decides between a document and the periodic reload, with the clock as an argument.
-- Display is agent/display.go and agent/displaystate.go: Display/Xrandr and Display/Wayland read what
-- `xrandr` and `wlr-randr` print, Display/State has the rotations, the sleeping outputs and their file,
-- Display/Ops `Rotate`, `Screen`, `SetLayout` and what is applied at boot. A `Seat` holds the answers
-- of these programs during one operation; a map of Go is a list of its entries, in any order.
-- Server has the handlers of agent/server.go that bring something on screen, after their body was
-- decoded, and `fire_scheduled` (`fireScheduled`), with which the scheduler calls: they join the
-- supervisor, the node's state, the content manager, the actions and the display. The URL of the setup
-- page, which agent/setup.go makes of the address, is a field of `Server`.
--
-- Bounds. Numbers of Go's `int` are natural numbers: VT numbers and ports are not negative. Of the two
-- functions on fuel `decimal` has one unit for each unit of its argument and one more, and `next_free`
-- one for each taken slug, which is enough since one candidate more than there are taken slugs has a
-- free one. Durations and intervals of a playlist, which may be negative, are integers.
--
-- Not modelled: the zoom of the pages and the views that list the outputs, the legacy window of
-- display.json, the other files of the agent (network, VNC, statistics, the other handlers of the
-- HTTP server, the decoding of bodies and the flags of the main function), log lines and the words
-- of error messages (an error is a constructor, its HTTP code `code_of`), panics and their
-- recovery, the Wayland output list after a start, letters outside ASCII in `ToLower` but for the
-- two whose lower case is in ASCII, a shutdown in the middle of a switch, years with five digits,
-- and the local times that a change of the clocks skips.
pub mod Base
pub mod Mode
pub mod Supervisor
pub mod Schedule
pub mod Node
pub mod Actions
pub mod Content
pub mod Display
pub mod Files
pub mod Playlist
pub mod Server
pub mod Watchdog
mod Tests
