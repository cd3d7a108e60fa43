-- ===== src/Supervisor/LoopEnds.antt =====
-- The states that `runLoop` goes through and ends in (agent/supervisor.go).
use sideshow.Base.{
  ◌*◌, ◌-◌, ◌≤◌, ◌<◌, ◌≡◌, ◌⊎◌, refl, Bool, true, false, ◌&&◌, List, [], ◌∷◌, length, inl, inr,
  arith, leb, if◌then◌else◌,
}
use sideshow.Mode.{Mode}
use sideshow.Supervisor.World.{running, crashed, stopped}
use sideshow.Supervisor.RunLoop.{
  restart_backoff_min, restart_backoff_max, healthy_run, fail_burst, Loop, Exit, Next, again, over,
  at_most, retires, counted, respawn, after_exit, loop_step, run_loop,
}

abbrev pub IsPatient : Loop → Type 0
IsPatient l = (restart_backoff_min ≤ l.backoff) × (l.backoff ≤ restart_backoff_max)

-- The loop between two exits.
pub record IsGoing (l : Loop) : Type 0 where
  pub patient : IsPatient l
  pub state : l.state ≡ running
  pub few : length l.burst < fail_burst
  pub retire : l.retire ≡ false

-- The loop when it has returned.
pub record IsOver (l : Loop) : Type 0 where
  pub patient : IsPatient l
  pub ended : (l.state ≡ stopped) ⊎ ((l.state ≡ crashed) × (l.retire ≡ false))

abbrev pub IsSound : Next → Type 0
IsSound (again l) = IsGoing l
IsSound (over l) = IsOver l

IsSound-if :
    (b : Bool) (x y : Next) → IsSound x → (b ≡ false → IsSound y) → IsSound (if b then x else y)
IsSound-if true x y hx hy = hx
IsSound-if false x y hx hy = hy refl

-- The loop while an exit is worked on.
record IsCounting (l : Loop) : Type 0 where
  patient : IsPatient l
  retire : l.retire ≡ false

reset_backoff :
    (b : Bool) (l : Loop)
    → IsPatient l
    → (restart_backoff_min ≤ (if b then restart_backoff_min else l.backoff))
      × ((if b then restart_backoff_min else l.backoff) ≤ restart_backoff_max)
reset_backoff true l p = (omega arith, omega arith)
reset_backoff false l p = p

counted-IsCounting :
    (e : Exit) (l : Loop) → IsPatient l → l.retire ≡ false → IsCounting (counted e l)
unfolding counted
counted-IsCounting e l p r = record {
  patient = reset_backoff (leb healthy_run (e.since - l.started_at)) l p;
  retire = r;
}

respawn-IsSound :
    (e : Exit) (l : Loop) → IsCounting l → length l.burst < fail_burst → IsSound (respawn e l)
unfolding respawn
respawn-IsSound e l c f =
    let p : IsPatient (record l { backoff = at_most restart_backoff_max (l.backoff * 2) }) =
      (ground (arith, c.patient.0), ground (arith, c.patient.0)) in
    IsSound-if (e.built && e.spawned) _ _
      (record { patient = p; state = refl; few = f; retire = c.retire })
      (λ h. record { patient = p; ended = inr (refl, c.retire) })

after_exit-IsSound : (e : Exit) (l : Loop) → IsCounting l → IsSound (after_exit e l)
unfolding after_exit
after_exit-IsSound e l c =
    IsSound-if (leb fail_burst (length l.burst)) _ _
      (record { patient = c.patient; ended = inr (refl, c.retire) })
      (λ h.
        IsSound-if e.stopped_later _ _ (record { patient = c.patient; ended = inl refl })
          (λ k. respawn-IsSound e l c (ground arith)))

loop_step-IsSound : (m : Mode) (e : Exit) (l : Loop) → IsGoing l → IsSound (loop_step m e l)
unfolding loop_step
loop_step-IsSound m e l g =
    IsSound-if e.stopped _ _ (record { patient = g.patient; ended = inl refl })
      (λ h.
        IsSound-if (retires m e.clean) _ _ (record { patient = g.patient; ended = inl refl })
          (λ k. after_exit-IsSound e (counted e l) (counted-IsCounting e l g.patient g.retire)))

-- Between two exits the runner is running, with fewer than five exits on record; when the loop returns
-- the runner is stopped, or crashed and not retired. The wait before a restart stays between one and
-- fifteen seconds throughout.
pub run_loop-IsSound :
    (m : Mode) (es : List Exit) (n : Next) → IsSound n → IsSound (run_loop m es n)
unfolding run_loop
run_loop-IsSound m [] n h = h
run_loop-IsSound m (e ∷ es) (over l) h = h
run_loop-IsSound m (e ∷ es) (again l) h =
    run_loop-IsSound m es (loop_step m e l) (loop_step-IsSound m e l h)
