-- ===== src/Supervisor/Ownership/Closing.antt =====
-- `Shutdown` leaves no child behind.
use sideshow.Base.{
  ◌≡◌, refl, ap, ◌∙◌, ℕ, ◌⊎◌, inl, inr, ◌==◌, true, false, Option, none, some, List, [], ◌∷◌, All,
  arith,
}
use sideshow.Supervisor.World.{
  Runner, World, ◌>>=◌, ◌>>◌, gets, skip, set_runner, set_fg, holds, without,
}
use sideshow.Supervisor.Surface.{stop_any, activate_vt, detach}
use sideshow.Supervisor.Ownership.Logic.{Core, core, Neutral}
use sideshow.Supervisor.Ownership.Invariant.{IsSettled, All-without}
use sideshow.Supervisor.Ownership.Screen.{calm_rules}
use sideshow.Supervisor.Surface.{stop_any}
use sideshow.Supervisor.Recover.{shutdown}

abbrev without_any : Option Runner → List ℕ → List ℕ
without_any none is = is
without_any (some r) is = without r.id is

owned_none : (is : List ℕ) → All (λ i. (holds i none ≡ true) ⊎ (holds i none ≡ true)) is → is ≡ []
owned_none [] h = refl
owned_none (i ∷ is) h = absurd (nobody h.0)
  where
    nobody : ((holds i none ≡ true) ⊎ (holds i none ≡ true)) → ⊥
    nobody (inl e) = cc
    nobody (inr e) = cc

others_fg :
    (b f : Option Runner) (is : List ℕ)
    → All (λ i. (holds i b ≡ true) ⊎ (holds i f ≡ true)) is
    → All (λ i. (holds i b ≡ true) ⊎ (holds i none ≡ true)) (without_any f is)
others_fg b none is h = h
others_fg b (some r) is h = All-without _ _ r.id is (λ j n x. left j n x) h
  where
    left :
        (j : ℕ)
        → (j == r.id) ≡ false
        → (holds j b ≡ true) ⊎ (holds j (some r) ≡ true)
        → (holds j b ≡ true) ⊎ (holds j none ≡ true)
    left j n (inl e) = inl e
    left j n (inr e) = ground arith

others_base :
    (b : Option Runner) (is : List ℕ)
    → All (λ i. (holds i b ≡ true) ⊎ (holds i none ≡ true)) is
    → All (λ i. (holds i none ≡ true) ⊎ (holds i none ≡ true)) (without_any b is)
others_base none is h = h
others_base (some r) is h = All-without _ _ r.id is (λ j n x. left j n x) h
  where
    left :
        (j : ℕ)
        → (j == r.id) ≡ false
        → (holds j (some r) ≡ true) ⊎ (holds j none ≡ true)
        → (holds j none ≡ true) ⊎ (holds j none ≡ true)
    left j n (inl e) = ground arith
    left j n (inr e) = inr e

core-stop_any :
    (r : Option Runner) (w : World)
    → core (stop_any r w).1 ≡ record (core w) { live = without_any r w.live }
unfolding stop_any skip
core-stop_any none w = refl
core-stop_any (some r) w = refl

Neutral-end : Neutral (do detach; cfg ← gets (λ w. w.cfg); activate_vt cfg.x_vt; skip)
Neutral-end = search calm_rules depth 8

core-shutdown :
    (w : World)
    → core (shutdown w).1 ≡ record {
      runner = none;
      fg_runner = none;
      live = without_any w.runner (without_any w.fg_runner w.live);
      next_id = w.next_id;
    }
unfolding shutdown gets set_runner set_fg ◌>>=◌ ◌>>◌
core-shutdown w =
    let closed = record w { runner = none; fg_runner = none } in
    let quiet = (stop_any w.fg_runner closed).1 in
    Neutral-end.same (stop_any w.runner quiet).1
    ∙ core-stop_any w.runner quiet
    ∙ ap (λ (c : Core). record c { live = without_any w.runner c.live })
        (core-stop_any w.fg_runner closed)

-- After `Shutdown` both slots are empty and no child runs, whatever the system answered.
pub shutdown_reaps_all :
    (w : World)
    → IsSettled (core w)
    → ((shutdown w).1.live ≡ [])
      × ((shutdown w).1.runner ≡ none)
      × ((shutdown w).1.fg_runner ≡ none)
shutdown_reaps_all w s =
    let e = core-shutdown w in
    (
      ap Core.live e
          ∙ owned_none _
              (others_base w.runner _ (others_fg w.runner w.fg_runner w.live s.children.owned)),
      ap Core.runner e,
      ap Core.fg_runner e,
    )
