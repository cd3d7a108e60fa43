-- ===== src/Supervisor/Shown/Base.antt =====
-- A compositor switch shows its mode.
use sideshow.Base.{
  ◌≡◌, refl, Bool, false, not, ◌&&◌, Option, none, some, arith, is_some, if◌then◌else◌,
}
use sideshow.Mode.{Mode, web, off, is_kind, kind_of, foreground}
use sideshow.Mode.Equivalent.{equivalent, equivalent_equivalence}
use sideshow.Mode.Command.{Config}
use sideshow.Supervisor.World.{
  Hook, Runner, preflight_failed, start_failed, navigate_failed, pure, ◌>>◌, skip, set_runner,
}
use sideshow.Supervisor.Surface.{activate_vt, launch, stop}
use sideshow.Supervisor.Switch.{
  set_base_mode, take_base, installed_base, start_primary, remove_base, go_off, web_in_place,
  same_backend, reuse_base, switch_compositor,
}
use sideshow.Supervisor.Ownership.Logic.{
  Core, core, Holds, Holds-pure, Holds-bind, Holds-then, Holds-if, Holds-test, Holds-given,
  Holds-after, Holds-after_then, Holds-weaken, Holds-neutral, Neutral-gets,
}
use sideshow.Supervisor.Ownership.Screen.{
  Neutral-activate_vt, Neutral-preflight, Neutral-detach, Neutral-target, Neutral-attach,
  Neutral-navigate, calm_rules,
}
use sideshow.Supervisor.Ownership.Launch.{launch-Launched}
use sideshow.Supervisor.Ownership.Compositor.{Neutral-show_again}
use sideshow.Supervisor.Shown.Claim.{
  Shows, Idle, Kept, Done, failed_Done, same_mode, Shows-base, Fresh, Launched-Kept, anything,
  fails,
}
use sideshow.Supervisor.Shown.Foreground.{Holds-clear_fg-Kept, Holds-set_base_mode_Done}

Holds-take_base-Kept :
    (b : Option Runner) → Holds (Kept b none) (take_base b) (λ _ c. c.fg_runner ≡ none)
unfolding take_base stop skip ◌>>◌
Holds-take_base-Kept none = record { at = λ w p. p.1 }
Holds-take_base-Kept (some r) = record { at = λ w p. p.1 }

Holds-set_runner-Kept :
    (r : Runner) → Holds (λ c. c.fg_runner ≡ none) (set_runner (some r)) (λ _. Kept (some r) none)
unfolding set_runner
Holds-set_runner-Kept r = record { at = λ w p. (refl, p) }

-- With the foreground slot empty the base that is installed is what is shown.
Holds-installed_base-Done :
    (m : Mode) (had : Bool) (o : Option Runner)
    → Holds (λ c. (c.fg_runner ≡ none) × Fresh m o) (installed_base m had o) (Done m)
Holds-installed_base-Done m had none = Holds-bind {A = Config} _ _ (anything _) (λ cfg.
    Holds-then _ _ (anything (activate_vt cfg.x_vt))
      (Holds-then _ _ (anything _) (Holds-then _ _ (anything _) (fails m start_failed))))
Holds-installed_base-Done m had (some r) = Holds-given λ e.
    Holds-then _ _ (Holds-set_runner-Kept r)
      (Holds-pure none (λ c k h. Shows-base m r c k (same_mode r m e)))

Holds-launch_base :
    (m : Mode) (h : Hook)
    → Holds (λ c. c.fg_runner ≡ none) (launch m h) (λ o c. (c.fg_runner ≡ none) × Fresh m o)
Holds-launch_base m h = record {
  at = λ w p.
      let k =
        Launched-Kept w.runner none m (core w) _ (launch m h w).0 (launch-Launched m h w)
          (refl, p) in
      (k.0.1, k.1);
}

Holds-start_primary-Done :
    (b : Option Runner) (m : Mode) → Holds (Kept b none) (start_primary m b) (Done m)
unfolding start_primary
Holds-start_primary-Done b m = Holds-after _ _ (Neutral-preflight m) λ ready.
    Holds-if ready _ _
      (Holds-then _ _ (Holds-take_base-Kept b) (
        Holds-after_then _ _ Neutral-detach (
          Holds-after _ _ (Neutral-gets _) λ cfg. Holds-after_then _ _ (Neutral-activate_vt _) (
            Holds-after_then _ _ (Neutral-target _)
              (Holds-bind _ _ (Holds-launch_base m _) (Holds-installed_base-Done m (is_some b)))))))
      (Holds-pure (some preflight_failed) (λ c k. failed_Done m preflight_failed c))

Holds-web_in_place-Done :
    (m : Mode) (r : Runner) (came : Bool)
    → Holds (Kept (some r) none) (web_in_place m r came) (Done m)
unfolding web_in_place
Holds-web_in_place-Done m r came = Holds-after_then _ _ (Neutral-show_again m came) (
    Holds-after _ _ (Neutral-gets _) λ cfg. Holds-after_then _ _ (Neutral-target _) (
      Holds-after _ _ (Neutral-gets _) λ on.
        Holds-if _ _ _
          (Holds-after_then _ _ Neutral-detach (Holds-after_then _ _ (Neutral-attach _) renamed))
          (Holds-after _ _ (Neutral-navigate _) λ done.
            Holds-if done _ _ renamed
              (Holds-pure (some navigate_failed) (λ c k. failed_Done m navigate_failed c)))))
  where
    renamed : Holds (Kept (some r) none) (do set_base_mode r.id m; pure none) (Done m)
    renamed = Holds-then _ _ (Holds-set_base_mode_Done m r) (
        Holds-pure none
          (λ c k h. Shows-base m (record r { mode = m }) c k (equivalent_equivalence.0 m)))

Holds-reuse_base-Done :
    (b : Option Runner) (m : Mode) (came : Bool)
    → Holds (Kept b none) (reuse_base m b came) (Done m)
Holds-reuse_base-Done none m came = Holds-start_primary-Done none m
Holds-reuse_base-Done (some r) m came =
    Holds-if (same_backend r m && is_kind (kind_of m) web) _ _ (Holds-web_in_place-Done m r came) (
      Holds-test (same_backend r m && equivalent r.mode m) _ _
        (λ q.
          Holds-after_then _ _ (Neutral-show_again m came)
            (Holds-pure none (λ c k h. Shows-base m r c k (ground arith))))
        (λ q. Holds-start_primary-Done (some r) m))

Holds-removed : (b : Option Runner) → Holds (Kept b none) (remove_base b) (λ _. Idle)
unfolding remove_base set_runner stop skip ◌>>◌
Holds-removed none = record { at = λ w p. p }
Holds-removed (some r) = record { at = λ w p. (refl, p.1) }

Holds-go_off-Idle : (b : Option Runner) → Holds (Kept b none) (go_off b) (λ _. Idle)
unfolding go_off
Holds-go_off-Idle b =
    Holds-then _ _ (Holds-removed b) (Holds-neutral (search calm_rules) (λ e c k. k))

-- What a switch to the mode asks for: off is a blank screen.
abbrev pub Wanted : Mode → Core → Type 0
Wanted m c = if is_kind (kind_of m) off && not (foreground m) then Idle c else Shows m c

pub Holds-switch_compositor-Wanted :
    (b f : Option Runner) (m : Mode)
    → foreground m ≡ false
    → Holds (Kept b f) (switch_compositor m b f) (λ e c. e ≡ none → Wanted m c)
unfolding switch_compositor
Holds-switch_compositor-Wanted b f m n = Holds-then _ _ (Holds-clear_fg-Kept b f) (
    Holds-test (is_kind (kind_of m) off) _ _
      (λ o. Holds-weaken (λ c k. k) (λ e c k h. rw (o, n) k) (Holds-go_off-Idle b))
      (λ o.
        Holds-weaken (λ c k. k) (λ e c k h. rw o (k h)) (Holds-reuse_base-Done b m (is_some f))))
