-- ===== src/Tests/Watchdog.antt =====
-- The watchdog (agent/watchdog.go).
use sideshow.Base.{
  ℕ, zero, suc, ◌+◌, ◌*◌, ◌≤◌, ◌≡◌, refl, subst, arith, true, false, none, List, [], ◌∷◌, length,
  keep_if, text,
}
use sideshow.Supervisor.World.{RunState, running, crashed}
use sideshow.Watchdog.{Round, begin, watch_rounds}
use sideshow.Watchdog.Reboots.{Ledger, is_kept, max_reboots_per_window}
use sideshow.Watchdog.Calm.{reboots}
use sideshow.Watchdog.Window.{Event, round, IsDownUntil, watch_life, watch_life_window}
use sideshow.Tests.Open.{watch_open}

-- A round at a time, on a node with the network up and a web kiosk in X.
abbrev round_at : RunState → ℕ → Round
round_at state t = record {
  up = true;
  type = text "web";
  display = text "compositor";
  state = state;
  attached = false;
  reattach_fails = false;
  reattached = false;
  now = t;
  stamp = t;
}

abbrev no_record : Ledger
no_record = record { has_path = true; writable = true; file = none }

-- Rounds every 30 seconds in which the mode is given up.
abbrev down_rounds : ℕ → ℕ → List Event
down_rounds zero t = []
down_rounds (suc n) t = round (round_at crashed t) ∷ down_rounds n (t + 30)

down_rounds-IsDownUntil : (n t s : ℕ) → s ≤ t → IsDownUntil s (down_rounds n t) (t + 30 * n)
down_rounds-IsDownUntil zero t s h = omega arith
down_rounds-IsDownUntil (suc n) t s h =
    let later = down_rounds-IsDownUntil n (t + 30) t (omega arith) in
    let same : t + 30 + 30 * n ≡ t + 30 * suc n = omega arith in
    (refl, h, omega arith, subst (IsDownUntil t (down_rounds n (t + 30))) same later)

four_attempts :
    length (reboots (watch_life true (down_rounds 42 1000) (begin true no_record)).1) ≡ 3
unfolding watch_open
four_attempts = refl

watch_life_window_example :
    length (
      keep_if
        (is_kept 2260)
        (reboots (watch_life true (down_rounds 42 1000) (begin true no_record)).1))
    ≤ max_reboots_per_window
watch_life_window_example =
    watch_life_window true (down_rounds 42 1000) (begin true no_record) 1000 2260 refl
      (down_rounds-IsDownUntil 42 1000 1000 (omega arith))

abbrev stuck_rounds : ℕ → ℕ → List Round
stuck_rounds zero t = []
stuck_rounds (suc n) t = round_at running t ∷ stuck_rounds n (t + 30)

-- Five reboots of a wedged kiosk in half an hour.
five_in_half_an_hour :
    length (reboots (watch_rounds true (stuck_rounds 60 1000) (begin true no_record)).1) ≡ 5
unfolding watch_open
five_in_half_an_hour = refl
