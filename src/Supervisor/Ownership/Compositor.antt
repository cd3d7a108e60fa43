-- ===== src/Supervisor/Ownership/Compositor.antt =====
-- A compositor switch keeps the screen settled.
use sideshow.Base.{◌≡◌, Bool, ◌&&◌, Option, none, some, Text}
use sideshow.Mode.{Mode}
use sideshow.Base.{is_some}
use sideshow.Supervisor.World.{Runner}
use sideshow.Supervisor.Ownership.Logic.{
  Holds, Neutral, Neutral-gets, Neutral-skip, Holds-neutral, Holds-weaken, Holds-bind, Holds-then,
  Holds-if, Holds-pure, Holds-after, Holds-after_then,
}
use sideshow.Supervisor.Ownership.Invariant.{IsOwned, Slots, Slots, NoFg}
use sideshow.Supervisor.Ownership.Screen.{
  Neutral-activate_vt, Neutral-detach, Neutral-target, Neutral-attach, Neutral-navigate,
  Neutral-preflight, calm_rules,
}
use sideshow.Mode.{off, web, is_kind, kind_of}
use sideshow.Mode.Equivalent.{equivalent}
use sideshow.Supervisor.Switch.{
  restore_web_kiosk, installed_base, start_primary, go_off, show_again, web_in_place, reuse_base,
  same_backend, switch_compositor,
}
use sideshow.Supervisor.Ownership.Launch.{After, Holds-launch, Slots-not_launched}
use sideshow.Supervisor.Ownership.Slots.{
  Holds-clear_fg, Holds-take_base, Holds-remove_base, Holds-install_base, Holds-set_base_mode,
}

pub Holds-restore_web_kiosk :
    (f : Option Runner) (url : Text) (dark : Bool)
    → Holds (Slots none f) (restore_web_kiosk url dark) (λ _ c. IsOwned c × (c.fg_runner ≡ f))
unfolding restore_web_kiosk
Holds-restore_web_kiosk f url dark =
    Holds-after _ _ (Neutral-gets _)
      λ cfg. Holds-bind _ _ (Holds-launch none f _ _) λ fb. Holds-install_base f _ fb

Holds-installed_base :
    (m : Mode) (had_base : Bool) (o : Option Runner)
    → Holds (After none none m o) (installed_base m had_base o) (λ _. NoFg)
Holds-installed_base m had_base none =
    Holds-weaken (λ c a. Slots-not_launched none none m c a) (λ e c s. s)
      (Holds-after _ _ (Neutral-gets _) λ cfg. Holds-after_then _ _ (Neutral-activate_vt _) (
        Holds-after_then _ _ (Neutral-target _) (
          Holds-then _ _
            (Holds-if had_base _ _ (Holds-restore_web_kiosk none _ _)
              (Holds-neutral Neutral-skip (λ u c s. (s.0, s.2))))
            (Holds-pure _ (λ c s. s)))))
Holds-installed_base m had_base (some r) =
    Holds-then _ _ (Holds-install_base none m (some r)) (Holds-pure none (λ c s. s))

pub Holds-start_primary :
    (m : Mode) (prev : Option Runner) → Holds (Slots prev none) (start_primary m prev) (λ _. NoFg)
unfolding start_primary
Holds-start_primary m prev = Holds-after _ _ (Neutral-preflight m) λ ready.
    Holds-if ready _ _
      (Holds-then _ _ (Holds-take_base prev none) (
        Holds-after_then _ _ Neutral-detach (
          Holds-after _ _ (Neutral-gets _) λ cfg. Holds-after_then _ _ (Neutral-activate_vt _) (
            Holds-after_then _ _ (Neutral-target _) (
              Holds-bind _ _ (Holds-launch none none m _)
                (Holds-installed_base m (is_some prev)))))))
      (Holds-pure _ (λ c s. (s.0, s.2)))

Holds-go_off : (base : Option Runner) → Holds (Slots base none) (go_off base) (λ _. NoFg)
unfolding go_off
Holds-go_off base =
    Holds-then _ _ (Holds-remove_base base none)
      (Holds-neutral (search calm_rules) (λ e c s. (s.0, s.2)))

pub Neutral-show_again : (m : Mode) (b : Bool) → Neutral (show_again m b)
unfolding show_again
Neutral-show_again m b = search calm_rules depth 8

Holds-web_in_place :
    (m : Mode) (base : Runner) (b : Bool) → Holds NoFg (web_in_place m base b) (λ _. NoFg)
unfolding web_in_place
Holds-web_in_place m base b = Holds-after_then _ _ (Neutral-show_again m b) (
    Holds-after _ _ (Neutral-gets _) λ cfg. Holds-after_then _ _ (Neutral-target _) (
      Holds-after _ _ (Neutral-gets _) λ on.
        Holds-if _ _ _
          (Holds-after_then _ _ Neutral-detach (
            Holds-after_then _ _ (Neutral-attach _)
              (Holds-then _ _ (Holds-set_base_mode base.id m) (Holds-pure none (λ c s. s)))))
          (Holds-after _ _ (Neutral-navigate _) λ done.
            Holds-if done _ _
              (Holds-then _ _ (Holds-set_base_mode base.id m) (Holds-pure none (λ c s. s)))
              (Holds-pure _ (λ c s. s)))))

Holds-reuse_base :
    (m : Mode) (base : Option Runner) (b : Bool)
    → Holds (Slots base none) (reuse_base m base b) (λ _. NoFg)
Holds-reuse_base m none b = Holds-start_primary m none
Holds-reuse_base m (some r) b =
    Holds-if (same_backend r m && is_kind (kind_of m) web) _ _
      (Holds-weaken (λ c s. (s.0, s.2)) (λ e c s. s) (Holds-web_in_place m r b))
      (Holds-if (same_backend r m && equivalent r.mode m) _ _
        (Holds-after_then _ _ (Neutral-show_again m b) (Holds-pure none (λ c s. (s.0, s.2))))
        (Holds-start_primary m (some r)))

pub Holds-switch_compositor :
    (b f : Option Runner) (m : Mode) → Holds (Slots b f) (switch_compositor m b f) (λ _. NoFg)
unfolding switch_compositor
Holds-switch_compositor b f m =
    Holds-then _ _ (Holds-clear_fg b f)
      (Holds-if (is_kind (kind_of m) off) _ _ (Holds-go_off b) (Holds-reuse_base m b (is_some f)))

-- What a call does under the token, started from a settled state, ends in one.
