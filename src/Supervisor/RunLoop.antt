-- ===== src/Supervisor/RunLoop.antt =====
-- The decisions of `runLoop` (agent/supervisor.go), which watches the child of one runner: when it
-- restarts the child, how long it waits, and when it gives up or retires. Times are milliseconds of a
-- clock. What the loop does to the screen and the browser between two children is left out.
use sideshow.Base.{
  ℕ, ◌+◌, ◌*◌, ◌-◌, Bool, true, false, ◌&&◌, ◌||◌, List, [], ◌∷◌, ◌++◌, keep_if, length, ltb, leb,
  if◌then◌else◌,
}
use sideshow.Mode.{Mode, console, is_surface, surface_of, foreground, retires_when_done}
use sideshow.Supervisor.World.{RunState, starting, running, crashed, stopped}

abbrev pub restart_backoff_min : ℕ
restart_backoff_min = 1000

abbrev pub restart_backoff_max : ℕ
restart_backoff_max = 15000

abbrev pub healthy_run : ℕ
healthy_run = 30000

abbrev pub fail_burst : ℕ
fail_burst = 5

abbrev pub fail_window : ℕ
fail_window = 30000

-- The locals of the loop, and the fields of the runner that it changes.
pub record Loop : Type 0 where
  pub started_at : ℕ
  pub backoff : ℕ
  pub burst : List ℕ
  pub restarts : ℕ
  pub state : RunState
  pub retire : Bool

-- How a child ended, and what became of the attempt to start the next: whether the runner had been
-- stopped when the wait was over, the clock at the test for a healthy run and at the count of the
-- exit, whether the runner was stopped in the backoff, whether the command was built and started,
-- and when.
pub record Exit : Type 0 where
  pub stopped : Bool
  pub clean : Bool
  pub since : ℕ
  pub now : ℕ
  pub stopped_later : Bool
  pub built : Bool
  pub spawned : Bool
  pub restarted_at : ℕ

pub data Next : Type 0 where
  again : Loop → Next
  over : Loop → Next

-- `newModeRunner` and `start`, for a child that is up
abbrev pub fresh_loop : ℕ → Loop
fresh_loop t = record {
  started_at = t;
  backoff = restart_backoff_min;
  burst = [];
  restarts = 0;
  state = running;
  retire = false;
}

-- `filterAfter(burst, now.Add(-failWindow))`
abbrev pub is_recent : ℕ → ℕ → Bool
is_recent now t = ltb now (t + fail_window)

unfoldable pub filter_after : ℕ → List ℕ → List ℕ
filter_after now ts = keep_if (is_recent now) ts

unfoldable pub retires : Mode → Bool → Bool
retires m clean =
    foreground m && retires_when_done m && (is_surface (surface_of m) console || clean)

-- The exit is counted; a long healthy run forgives those before.
unfoldable pub counted : Exit → Loop → Loop
unfolding filter_after
counted e l =
    let healthy = leb healthy_run (e.since - l.started_at) in
    record l {
      backoff = if healthy then restart_backoff_min else l.backoff;
      burst = filter_after e.now (if healthy then [] else l.burst) ++ e.now ∷ [];
      restarts = l.restarts + 1;
      state = starting;
    }

abbrev pub at_most : ℕ → ℕ → ℕ
at_most most n = if leb n most then n else most

-- After the backoff: the next child, with twice the backoff for the one after it.
unfoldable pub respawn : Exit → Loop → Next
respawn e l =
    let l' : Loop = record l { backoff = at_most restart_backoff_max (l.backoff * 2) } in
    if e.built && e.spawned
    then again (record l' { started_at = e.restarted_at; state = running })
    else over (record l' { state = crashed })

unfoldable pub after_exit : Exit → Loop → Next
unfolding respawn
after_exit e l =
    if leb fail_burst (length l.burst)
    then over (record l { state = crashed })
    else if e.stopped_later
    then over (record l { state = stopped })
    else respawn e l

-- One pass of the loop, from the wait for a child to the next child.
unfoldable pub loop_step : Mode → Exit → Loop → Next
unfolding retires counted after_exit
loop_step m e l =
    if e.stopped
    then over (record l { state = stopped })
    else if retires m e.clean
    then over (record l { state = stopped; retire = true })
    else after_exit e (counted e l)

-- Pass after pass, until the loop returns.
unfoldable pub run_loop : Mode → List Exit → Next → Next
run_loop m [] n = n
run_loop m (e ∷ es) (over l) = over l
run_loop m (e ∷ es) (again l) = run_loop m es (loop_step m e l)

abbrev pub is_crashed : RunState → Bool
is_crashed crashed = true
is_crashed _ = false

-- Whether `onTerminal` is called when the loop returns.
abbrev pub calls_hook : Loop → Bool
calls_hook l = is_crashed l.state || l.retire
