-- ===== src/Supervisor/Ownership/Recovery.antt =====
-- The recoveries that follow when a run loop ends keep the screen settled.
use sideshow.Base.{
  ◌≡◌, refl, sym, ap, ◌∙◌, ℕ, inl, inr, ◌==◌, Bool, true, false, not, ◌||◌, Option, none, some,
  List, [], ◌∷◌, Text, All, arith, Bool-cases,
}
use sideshow.Mode.{Mode, kms, is_surface, surface_of}
use sideshow.Supervisor.World.{Hook, Runner, World, Act, ◌>>◌, set_runner, holds, without}
use sideshow.Supervisor.Ownership.Logic.{
  Core, core, Holds, Neutral-gets, Holds-neutral, Holds-weaken, Holds-read, Holds-then, Holds-after,
  Holds-after_then,
}
use sideshow.Supervisor.Ownership.Invariant.{Installed, IsOwned, IsSettled, Slots, Slots, NoFg}
use sideshow.Supervisor.Ownership.Screen.{
  Neutral-activate_vt, Neutral-detach, Neutral-target, Neutral-settled, calm_rules,
}
use sideshow.Supervisor.World.{RunState, Hook, no_hook, to_base, to_x}
use sideshow.Supervisor.Recover.{
  after_foreground, return_to_base, return_to_x, recover_with, run_hook, set_state_at, set_state,
  reap, ended,
}
use sideshow.Supervisor.Ownership.Slots.{IsSettled-without_fg, IsOwned-relabelled, stopped_Slots}
use sideshow.Supervisor.Ownership.Compositor.{Holds-restore_web_kiosk}
use sideshow.Supervisor.Ownership.Ended.{
  Ended, All-zip, base_gone, Holds-forget_fg, Holds-restore_base,
}

Holds-after_foreground :
    (b : Option Runner) (m : Mode)
    → Holds (λ c. NoFg c × (c.runner ≡ b)) (after_foreground b m) (λ _. NoFg)
unfolding after_foreground
Holds-after_foreground (some r) m = Holds-neutral (search calm_rules depth 8) (λ u c s. s.0)
Holds-after_foreground none m =
    Holds-weaken (λ c s. (s.0.0, s.1, s.0.1)) (λ u c s. s) (Holds-restore_base m)

Holds-return_to_base :
    (i : ℕ) (m : Mode)
    → Holds (λ c. Ended i c × (holds i c.fg_runner ≡ true)) (return_to_base m) (λ _. IsSettled)
unfolding return_to_base
Holds-return_to_base i m = Holds-then _ _ (Holds-forget_fg i) (
    Holds-weaken (λ c s. s) (λ u c s. IsSettled-without_fg c s)
      (Holds-read _ λ b.
        Holds-then _ _ (Holds-after_foreground b m) (Holds-neutral Neutral-settled (λ u c s. s))))

-- A base that is left is not behind a KMS mode, and neither is the kiosk that replaces it.
not_kms :
    (c : Core) (i : ℕ)
    → IsSettled c
    → holds i c.runner ≡ true
    → (r : Runner) → c.fg_runner ≡ some r
    → is_surface (surface_of r.mode) kms ≡ true
    → ⊥
not_kms c i s h r e k = let n = s.alone r e k in cc (ap (holds i) n, h)

Holds-forget_base :
    (i : ℕ) (f : Option Runner)
    → Holds
        (λ c. (Ended i c × (holds i c.runner ≡ true)) × (c.fg_runner ≡ f))
        (set_runner none)
        (λ _. Slots none f)
unfolding set_runner
Holds-forget_base i f = record {
  at = λ w p. (
    record {
      owned =
          All-zip (Installed (core w)) (λ j. (j == i) ≡ false) _ w.live
            (λ j. base_gone i j w.runner w.fg_runner p.0.1) p.0.0.0.children.owned p.0.0.1;
      fresh = p.0.0.0.children.fresh;
      distinct = p.0.0.0.children.distinct;
    },
    refl,
    p.1,
  );
}

Holds-return_to_x :
    (i : ℕ) (f : Option Runner) (url : Text) (dark : Bool)
    → Holds
        (λ c. (Ended i c × (holds i c.runner ≡ true)) × (c.fg_runner ≡ f))
        (return_to_x url dark)
        (λ _ c. IsOwned c × (c.fg_runner ≡ f))
unfolding return_to_x
Holds-return_to_x i f url dark = Holds-then _ _ (Holds-forget_base i f) (
    Holds-after_then _ _ Neutral-detach (
      Holds-after _ _ (Neutral-gets _) λ cfg. Holds-after_then _ _ (Neutral-target _) (
        Holds-after_then _ _ (Neutral-activate_vt _) (
          Holds-then _ _ (Holds-restore_web_kiosk f url dark)
            (Holds-neutral Neutral-settled (λ u c s. s))))))

return_to_x-IsSettled :
    (i : ℕ) (url : Text) (dark : Bool) (w : World)
    → Ended i (core w)
    → holds i w.runner ≡ true
    → IsSettled (core (return_to_x url dark w).1)
return_to_x-IsSettled i url dark w e h =
    let s = (Holds-return_to_x i w.fg_runner url dark).at w ((e, h), refl) in
    record { children = s.0; alone = λ r f k. absurd (not_kms (core w) i e.0 h r (sym s.1 ∙ f) k) }

free_and_installed : (s b : Bool) → (s || not b) ≡ false → b ≡ true
free_and_installed s b h = ground arith

recover_with-IsSettled :
    (b : Bool) (body : Act (Unit {0})) (w : World)
    → IsSettled (core w)
    → (b ≡ true → IsSettled (core (body (record w { switching = true })).1))
    → IsSettled (core (recover_with b body w).1)
unfolding recover_with
recover_with-IsSettled b body w s keep = elim (Bool-cases (w.switching || not b)) [
  | inl e ↦ rw e s
  | inr e ↦ rw e (keep (free_and_installed w.switching b e))
]

run_hook-IsSettled :
    (i : ℕ) (h : Hook) (w : World) → Ended i (core w) → IsSettled (core (run_hook i h w).1)
run_hook-IsSettled i no_hook w e = e.0
run_hook-IsSettled i (to_base base) w e =
    recover_with-IsSettled _ _ w e.0
      (λ h. (Holds-return_to_base i base).at (record w { switching = true }) (e, h))
run_hook-IsSettled i (to_x url dark) w e =
    recover_with-IsSettled _ _ w e.0
      (λ h. return_to_x-IsSettled i url dark (record w { switching = true }) e h)

kind_kept :
    (i : ℕ) (s : RunState) (slot : Option Runner) (r : Runner)
    → set_state_at i s slot ≡ some r
    → (t : Runner) × (slot ≡ some t) × (t.mode ≡ r.mode)
unfolding set_state_at
kind_kept i s none r e = cc
kind_kept i s (some t) r e = (t, refl, ground arith)

holds-set_state_at :
    (i j : ℕ) (s : RunState) (slot : Option Runner) → holds j (set_state_at i s slot) ≡ holds j slot
unfolding set_state_at
holds-set_state_at i j s none = refl
holds-set_state_at i j s (some r) = ground arith

none_kept :
    (i : ℕ) (s : RunState) (slot : Option Runner) → slot ≡ none → set_state_at i s slot ≡ none
unfolding set_state_at
none_kept i s none e = refl
none_kept i s (some r) e = cc

pub set_state-IsSettled :
    (i : ℕ) (s : RunState) (w : World) → IsSettled (core w) → IsSettled (core (set_state i s w).1)
unfolding set_state
set_state-IsSettled i s w h = record {
  children =
      IsOwned-relabelled (core w) _ _ (λ j. holds-set_state_at i j s w.runner)
        (λ j. holds-set_state_at i j s w.fg_runner) h.children;
  alone = λ r e k.
      let (t, f, g) = kind_kept i s w.fg_runner r e in
      none_kept i s w.runner (h.alone t f (ap (λ m. is_surface (surface_of m) kms) g ∙ k));
}

Gone-without : (i : ℕ) (is : List ℕ) → All (λ j. (j == i) ≡ false) (without i is)
Gone-without i [] = tt
Gone-without i (j ∷ js) = elim (Bool-cases (j == i)) [
  | inl e ↦ rw e (Gone-without i js)
  | inr e ↦ rw e (e, Gone-without i js)
]

reap-Ended : (i : ℕ) (w : World) → IsSettled (core w) → Ended i (core (reap i w).1)
unfolding reap
reap-Ended i w h = (
  record {
    children =
        (stopped_Slots w.runner w.fg_runner (core w) (core (reap i w).1) i h.children refl refl
          (λ j n x. x) refl refl).0;
    alone = h.alone;
  },
  Gone-without i w.live,
)

-- A run loop may end at any time: the recovery that follows, or its refusal because another call
-- holds the token, keeps the children owned and a KMS mode alone.
pub ended-IsSettled :
    (r : Runner) (s : RunState) (w : World) → IsSettled (core w) → IsSettled (core (ended r s w).1)
unfolding ended ◌>>◌
ended-IsSettled r s w h =
    run_hook-IsSettled r.id r.hook (reap r.id (set_state r.id s w).1).1
      (reap-Ended r.id (set_state r.id s w).1 (set_state-IsSettled r.id s w h))
