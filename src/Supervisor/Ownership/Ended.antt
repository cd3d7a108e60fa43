-- ===== src/Supervisor/Ownership/Ended.antt =====
-- The core after a run loop has ended, and the bases that are started on an empty screen.
use sideshow.Base.{
  ◌≡◌, refl, ℕ, ◌⊎◌, inl, inr, ◌==◌, true, false, ◌||◌, Option, none, some, List, [], ◌∷◌, All,
  arith,
}
use sideshow.Mode.{Mode}
use sideshow.Supervisor.World.{Runner, set_fg, holds}
use sideshow.Supervisor.Ownership.Logic.{
  Core, core, Holds, Neutral-gets, Neutral-skip, Holds-neutral, Holds-weaken, Holds-bind,
  Holds-then, Holds-if, Holds-pure, Holds-after, Holds-after_then,
}
use sideshow.Supervisor.Ownership.Invariant.{Installed, IsSettled, Slots, Slots, NoFg}
use sideshow.Supervisor.Ownership.Screen.{
  Neutral-activate_vt, Neutral-detach, Neutral-target, Neutral-preflight, calm_rules,
}
use sideshow.Mode.{off, is_kind, kind_of}
use sideshow.Supervisor.World.{Failure, start_failed, preflight_failed}
use sideshow.Supervisor.Switch.{installed_base, start_primary}
use sideshow.Supervisor.Recover.{or_kiosk, restore_base}
use sideshow.Supervisor.Ownership.Launch.{After, Holds-launch, Slots-not_launched}
use sideshow.Base.{is_empty}
use sideshow.Supervisor.Ownership.Slots.{Holds-install_base}
use sideshow.Supervisor.Ownership.Compositor.{Holds-restore_web_kiosk}

-- No child of the runner with the address runs.
abbrev Gone : ℕ → Core → Type 0
Gone i c = All (λ j. (j == i) ≡ false) c.live

abbrev pub Ended : ℕ → Core → Type 0
Ended i c = IsSettled c × Gone i c

pub All-zip :
    (P Q R : ℕ → Type 0) (is : List ℕ)
    → ((i : ℕ) → P i → Q i → R i)
    → All P is
    → All Q is
    → All R is
All-zip P Q R [] f h k = tt
All-zip P Q R (i ∷ is) f h k = (f i h.0 k.0, All-zip P Q R is f h.1 k.1)

-- An empty runner may leave its slot.
fg_gone :
    (i j : ℕ) (b f : Option Runner)
    → holds i f ≡ true
    → (holds j b ≡ true) ⊎ (holds j f ≡ true)
    → (j == i) ≡ false
    → (holds j b ≡ true) ⊎ (holds j none ≡ true)
fg_gone i j b none e h n = cc
fg_gone i j b (some r) e (inl h) n = inl h
fg_gone i j b (some r) e (inr h) n = ground arith

pub base_gone :
    (i j : ℕ) (b f : Option Runner)
    → holds i b ≡ true
    → (holds j b ≡ true) ⊎ (holds j f ≡ true)
    → (j == i) ≡ false
    → (holds j none ≡ true) ⊎ (holds j f ≡ true)
base_gone i j none f e h n = cc
base_gone i j (some r) f e (inl h) n = ground arith
base_gone i j (some r) f e (inr h) n = inr h

pub Holds-forget_fg :
    (i : ℕ) → Holds (λ c. Ended i c × (holds i c.fg_runner ≡ true)) (set_fg none) (λ _. NoFg)
unfolding set_fg
Holds-forget_fg i = record {
  at = λ w p. (
    record {
      owned =
          All-zip (Installed (core w)) (λ j. (j == i) ≡ false) _ w.live
            (λ j. fg_gone i j w.runner w.fg_runner p.1) p.0.0.children.owned p.0.1;
      fresh = p.0.0.children.fresh;
      distinct = p.0.0.children.distinct;
    },
    refl,
  );
}

-- A primary that replaces nothing: an error leaves both slots empty.
abbrev Outcome : Option Failure → Core → Type 0
Outcome none c = NoFg c
Outcome (some e) c = Slots none none c

Holds-installed_alone :
    (m : Mode) (o : Option Runner) → Holds (After none none m o) (installed_base m false o) Outcome
Holds-installed_alone m none =
    Holds-weaken (λ c a. Slots-not_launched none none m c a) (λ e c s. s)
      (Holds-after _ _ (Neutral-gets _) λ cfg. Holds-after_then _ _ (Neutral-activate_vt _) (
        Holds-after_then _ _ (Neutral-target _)
          (Holds-after_then _ _ Neutral-skip (Holds-pure (some start_failed) (λ c s. s)))))
Holds-installed_alone m (some r) =
    Holds-then _ _ (Holds-install_base none m (some r)) (Holds-pure none (λ c s. s))

Holds-start_alone : (m : Mode) → Holds (Slots none none) (start_primary m none) Outcome
unfolding start_primary
Holds-start_alone m = Holds-after _ _ (Neutral-preflight m) λ ready.
    Holds-if ready _ _
      (Holds-after_then _ _ Neutral-skip (
        Holds-after_then _ _ Neutral-detach (
          Holds-after _ _ (Neutral-gets _) λ cfg. Holds-after_then _ _ (Neutral-activate_vt _) (
            Holds-after_then _ _ (Neutral-target _)
              (Holds-bind _ _ (Holds-launch none none m _) (Holds-installed_alone m))))))
      (Holds-pure (some preflight_failed) (λ c s. s))

Holds-or_kiosk : (e : Option Failure) → Holds (Outcome e) (or_kiosk e) (λ _. NoFg)
Holds-or_kiosk none = Holds-neutral Neutral-skip (λ u c s. s)
Holds-or_kiosk (some e) = Holds-after _ _ (Neutral-gets _) λ cfg.
    Holds-after_then _ _ (Neutral-activate_vt _)
      (Holds-after_then _ _ (Neutral-target _) (Holds-restore_web_kiosk none [] true))

pub Holds-restore_base : (m : Mode) → Holds (Slots none none) (restore_base m) (λ _. NoFg)
unfolding restore_base
Holds-restore_base m =
    Holds-if (is_empty m.type || is_kind (kind_of m) off) _ _
      (Holds-neutral (search calm_rules depth 8) (λ u c s. (s.0, s.2)))
      (Holds-bind _ _ (Holds-start_alone m) Holds-or_kiosk)
