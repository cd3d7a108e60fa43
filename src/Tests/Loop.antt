-- ===== src/Tests/Loop.antt =====
-- The run loop of a runner (agent/supervisor.go).
use sideshow.Base.{ℕ, ◌≡◌, ◌≤◌, ◌<◌, refl, arith, true, false, List, [], ◌∷◌, length, text}
use sideshow.Mode.{Mode, str, strings}
use sideshow.Supervisor.World.{crashed}
use sideshow.Supervisor.RunLoop.{
  Loop, Exit, Next, again, over, fail_burst, fresh_loop, run_loop, calls_hook,
}
use sideshow.Supervisor.RateLimit.{IsWithin, run_loop_limit}
use sideshow.Supervisor.LoopEnds.{IsSound, run_loop-IsSound}
use sideshow.Tests.Open.{loop_open}

abbrev page : Mode
page = record {
  type = text "web";
  params = (text "url", str (text "https://example.org/")) ∷ [];
  display = text "compositor";
}

abbrev top : Mode
top = record {
  type = text "app";
  params = (text "argv", strings (text "htop" ∷ [])) ∷ [];
  display = text "console";
}

-- A child that crashes at a time, where the next one comes up.
abbrev crash : ℕ → Exit
crash t = record {
  stopped = false;
  clean = false;
  since = t;
  now = t;
  stopped_later = false;
  built = true;
  spawned = true;
  restarted_at = t;
}

abbrev four : List Exit
four = crash 1000 ∷ crash 2000 ∷ crash 3000 ∷ crash 4000 ∷ []

abbrev loop_of : Next → Loop
loop_of (again l) = l
loop_of (over l) = l

abbrev after_four : Loop
after_four = loop_of (run_loop page four (again (fresh_loop 0)))

four_restarts : run_loop page four (again (fresh_loop 0)) ≡ again after_four
unfolding loop_open
four_restarts = refl

fifth_gives_up : (loop_of (run_loop page (crash 5000 ∷ []) (again after_four))).state ≡ crashed
unfolding loop_open
fifth_gives_up = refl

-- A console program that was quit retires, and the hook is called.
quit_retires : calls_hook (loop_of (run_loop top (crash 1000 ∷ []) (again (fresh_loop 0)))) ≡ true
unfolding loop_open
quit_retires = refl

within : (t : ℕ) → 0 ≤ t → t < 30000 → IsWithin 0 (crash t)
within t h l = record {
  after = h;
  before = omega arith;
  ordered = omega arith;
  restarted = omega arith;
}

run_loop_limit_example : length four < fail_burst
unfolding loop_open
run_loop_limit_example =
    run_loop_limit page 0 four (fresh_loop 0) after_four (omega arith)
      (
        within 1000 (omega arith) (omega arith),
        (
          within 2000 (omega arith) (omega arith),
          (within 3000 (omega arith) (omega arith), (within 4000 (omega arith) (omega arith), tt)),
        ),
      )
      refl

run_loop-IsSound_example : IsSound (run_loop page four (again (fresh_loop 0)))
run_loop-IsSound_example = run_loop-IsSound page four (again (fresh_loop 0)) (record {
  patient = (omega arith, omega arith);
  state = refl;
  few = omega arith;
  retire = refl;
})
