-- ===== src/Supervisor/Ownership/Foreground.antt =====
-- A foreground switch keeps the screen settled.
use sideshow.Base.{◌≡◌, Bool, true, false, ◌&&◌, Option, none, some, arith}
use sideshow.Mode.{Mode, kms, is_surface, surface_of}
use sideshow.Supervisor.World.{Hook, Runner, pure, ◌>>◌}
use sideshow.Supervisor.Ownership.Logic.{
  Core, Holds, Neutral, Neutral-gets, Holds-neutral, Holds-weaken, Holds-test, Holds-given,
  Holds-pair, Holds-bind, Holds-then, Holds-if, Holds-pure, Holds-after, Holds-after_then,
}
use sideshow.Supervisor.Ownership.Invariant.{IsSettled, Slots, Slots}
use sideshow.Supervisor.Ownership.Screen.{
  Neutral-ask, Neutral-activate_vt, Neutral-preflight, calm_rules,
}
use sideshow.Mode.{is_cog_kiosk}
use sideshow.Supervisor.World.{Failure, cog_bus, Try, vt_failed, to_base}
use sideshow.Supervisor.Surface.{running_mode, is_alive}
use sideshow.Supervisor.Switch.{
  free_base, installed_fg, show_fg, launch_vt, launch_cog, launch_foreground, cog_navigate,
  switch_foreground, or_failed,
}
use sideshow.Supervisor.Ownership.Launch.{After, Holds-launch, Slots-not_launched}
use sideshow.Supervisor.Ownership.Slots.{
  Holds-clear_fg, Holds-free_base, Holds-drop_stop_fg, Holds-install_fg, Holds-set_fg_mode,
  IsSettled-without_fg, IsSettled-without_base,
}

fg_refused :
    (b : Option Runner) (m : Mode) (next : Try)
    → Holds (After b none m none) (installed_fg none next) (λ _. IsSettled)
fg_refused b m next =
    Holds-neutral (search calm_rules)
      (λ e c a. let s = Slots-not_launched b none m c a in IsSettled-without_fg c (s.0, s.2))

Holds-show_fg :
    (b : Option Runner) (m : Mode) (o : Option Runner)
    → Holds (After b none m o) (show_fg m o) (λ _. IsSettled)
Holds-show_fg b m none = fg_refused b m (pure none)
Holds-show_fg b m (some r) = Holds-then _ _ (Holds-install_fg b m r) (
    Holds-given λ e. Holds-after _ _ (Neutral-gets _) λ cfg.
      Holds-after _ _ (Neutral-activate_vt _) λ shown.
        Holds-if shown _ _ (Holds-then _ _ (Holds-free_base b m r e) (Holds-pure none (λ c s. s))) (
          Holds-pair {0} _ _ _ (Holds-drop_stop_fg b r)
            (Holds-pure (some vt_failed) (λ c s. IsSettled-without_fg c (s.0, s.2)))))

Holds-installed_cog :
    (b : Option Runner) (m : Mode) (o : Option Runner)
    → Holds (After b none m o) (installed_fg o (do free_base m; pure none)) (λ _. IsSettled)
Holds-installed_cog b m none = fg_refused b m (free_base m >> pure none)
Holds-installed_cog b m (some r) =
    Holds-then _ _ (Holds-install_fg b m r)
      (Holds-given λ e. Holds-then _ _ (Holds-free_base b m r e) (Holds-pure none (λ c s. s)))

Holds-launch_vt :
    (b : Option Runner) (m : Mode) (h : Hook)
    → Holds (Slots b none) (launch_vt m h) (λ _. IsSettled)
unfolding launch_vt
Holds-launch_vt b m h = Holds-bind _ _ (Holds-launch b none m h) (Holds-show_fg b m)

Holds-launch_cog :
    (b : Option Runner) (m : Mode) (h : Hook)
    → Holds (Slots b none) (launch_cog m h) (λ _. IsSettled)
unfolding launch_cog
Holds-launch_cog b m h = Holds-after _ _ (Neutral-gets _) λ cfg.
    Holds-after_then _ _ (Neutral-ask cog_bus) (
      Holds-after _ _ (Neutral-activate_vt _) λ shown.
        Holds-if shown _ _ (Holds-bind _ _ (Holds-launch b none m h) (Holds-installed_cog b m))
          (Holds-neutral (search calm_rules) (λ e c s. IsSettled-without_fg c (s.0, s.2))))

Holds-launch_foreground :
    (b f : Option Runner) (m : Mode)
    → Holds
        (λ c. IsSettled c × (c.runner ≡ b) × (c.fg_runner ≡ f))
        (launch_foreground m f)
        (λ _. IsSettled)
unfolding launch_foreground
Holds-launch_foreground b f m = Holds-after _ _ (Neutral-preflight m) λ ready.
    Holds-if ready _ _
      (Holds-then _ _
        (Holds-weaken (λ c s. (s.0.children, s.1, s.2)) (λ u c s. s) (Holds-clear_fg b f))
        (Holds-after _ _ (Neutral-gets _) λ base.
          Holds-if (is_cog_kiosk m) _ _ (Holds-launch_cog b m (to_base base))
            (Holds-launch_vt b m (to_base base))))
      (Holds-pure _ (λ c s. s.0))

kms_of_cog : (m : Mode) → is_cog_kiosk m ≡ true → is_surface (surface_of m) kms ≡ true
unfolding is_cog_kiosk
kms_of_cog m h = ground arith

Holds-cog_navigate :
    (f : Option Runner) (m : Mode) (r : Runner)
    → Holds (Slots none f) (cog_navigate m r) (λ _. IsSettled)
unfolding cog_navigate
Holds-cog_navigate f m r = Holds-after _ _ (Neutral-gets _) λ cfg.
    Holds-after _ _ (Neutral-activate_vt _) λ shown.
      Holds-if shown _ _
        (Holds-after _ _ (Neutral-ask _) λ done.
          Holds-if done _ _
            (Holds-then _ _ (Holds-set_fg_mode f r.id m) (Holds-pure none (λ c s. s)))
            (Holds-pure _ (IsSettled-without_base f)))
        (Holds-pure _ (IsSettled-without_base f))

pub Neutral-or_failed : (e : Failure) (b : Bool) → Neutral (or_failed e b)
Neutral-or_failed e true = search calm_rules
Neutral-or_failed e false = search calm_rules

cog_alone :
    (b : Option Runner) (r : Runner) (m : Mode)
    → (is_alive r && is_cog_kiosk m && is_cog_kiosk r.mode) ≡ true
    → (c : Core) → IsSettled c × (c.runner ≡ b) × (c.fg_runner ≡ some r)
    → Slots none (some r) c
cog_alone b r m h c s = (s.0.children, s.0.alone r s.2 (kms_of_cog r.mode (ground arith)), s.2)

pub Holds-switch_foreground :
    (b f : Option Runner) (m : Mode)
    → Holds
        (λ c. IsSettled c × (c.runner ≡ b) × (c.fg_runner ≡ f))
        (switch_foreground m f)
        (λ _. IsSettled)
unfolding switch_foreground
Holds-switch_foreground b none m = Holds-launch_foreground b none m
Holds-switch_foreground b (some r) m =
    Holds-if (running_mode r m) _ _
      (Holds-neutral (search (calm_rules, Neutral-or_failed)) (λ e c s. s.0))
      (Holds-test (is_alive r && is_cog_kiosk m && is_cog_kiosk r.mode) _ _
        (λ h. Holds-weaken (cog_alone b r m h) (λ e c s. s) (Holds-cog_navigate (some r) m r))
        (λ h. Holds-launch_foreground b (some r) m))
