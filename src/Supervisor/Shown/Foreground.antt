-- ===== src/Supervisor/Shown/Foreground.antt =====
-- A foreground switch shows its mode.
use sideshow.Base.{
  ◌≡◌, refl, ap, ◌∙◌, Bool, true, false, ◌&&◌, Option, none, some, arith, Bool-cases, inl, inr,
}
use sideshow.Mode.{Mode, kms, is_surface, surface_of, is_cog_kiosk}
use sideshow.Mode.Equivalent.{equivalent, equivalent_equivalence}
use sideshow.Supervisor.World.{
  Hook, to_base, Runner, World, Failure, vt_failed, preflight_failed, cog_failed, start_failed,
  cog_bus, Try, pure, ◌>>=◌, ◌>>◌, gets, skip, set_runner, set_fg, set_attached,
}
use sideshow.Supervisor.Surface.{activate_vt, detach, stop, is_alive, running_mode}
use sideshow.Supervisor.Switch.{
  set_mode_at, set_base_mode, set_fg_mode, drop_fg, clear_fg, detach_stop, release_base, free_base,
  cog_navigate, installed_fg, launch_cog, show_fg, launch_vt, launch_foreground, switch_foreground,
  or_failed,
}
use sideshow.Supervisor.Ownership.Logic.{
  Core, Holds, Holds-pure, Holds-bind, Holds-then, Holds-if, Holds-test, Holds-given, Holds-after,
  Holds-after_then, Holds-weaken, Neutral-gets,
}
use sideshow.Supervisor.Ownership.Screen.{Neutral-activate_vt, Neutral-ask, Neutral-preflight}
use sideshow.Supervisor.Shown.Claim.{
  Kept, Done, failed_Done, same_mode, Shows-fg, Fresh, Holds-launch-Kept, anything, fails,
}

fg-detach_stop : (b : Option Runner) (w : World) → (detach_stop b w).1.fg_runner ≡ w.fg_runner
unfolding detach_stop skip detach stop set_attached ◌>>◌
fg-detach_stop none w = refl
fg-detach_stop (some r) w = refl

Holds-free_base_fg :
    (f : Option Runner) (m : Mode)
    → Holds (λ c. c.fg_runner ≡ f) (free_base m) (λ _ c. c.fg_runner ≡ f)
unfolding free_base release_base gets set_runner skip ◌>>=◌ ◌>>◌
Holds-free_base_fg f m = elim (Bool-cases (is_surface (surface_of m) kms)) [
  | inl k ↦ rw k (record { at = λ w p. fg-detach_stop w.runner (record w { runner = none }) ∙ p })
  | inr n ↦ rw n (record { at = λ w p. p })
]

Holds-set_fg-Kept :
    (b : Option Runner) (r : Runner)
    → Holds (Kept b none) (set_fg (some r)) (λ _ c. c.fg_runner ≡ some r)
unfolding set_fg
Holds-set_fg-Kept b r = record { at = λ w p. refl }

-- The end of a foreground switch.
freed_Done :
    (m : Mode) (r : Runner)
    → r.mode ≡ m
    → Holds (λ c. c.fg_runner ≡ some r) (do free_base m; pure none) (Done m)
freed_Done m r e =
    Holds-then _ _ (Holds-free_base_fg (some r) m)
      (Holds-pure none (λ c f h. Shows-fg m r c f (same_mode r m e)))

refused_Done :
    (m : Mode) (next : Try) {P : Core → Type 0} → Holds P (installed_fg none next) (Done m)
refused_Done m next =
    Holds-bind _ _ (anything _)
      (λ back. Holds-then _ _ (anything (activate_vt back)) (fails m start_failed))

Holds-show_fg-Done :
    (b : Option Runner) (m : Mode) (o : Option Runner)
    → Holds (λ c. Kept b none c × Fresh m o) (show_fg m o) (Done m)
Holds-show_fg-Done b m none = refused_Done m (pure none)
Holds-show_fg-Done b m (some r) = Holds-given λ e. Holds-then _ _ (Holds-set_fg-Kept b r) (
    Holds-after _ _ (Neutral-gets _) λ cfg. Holds-after _ _ (Neutral-activate_vt _) λ shown.
      Holds-if shown _ _ (freed_Done m r e) (
        Holds-then _ _ (anything (drop_fg r.id))
          (Holds-then _ _ (anything (stop r)) (fails m vt_failed))))

installed_cog_Done :
    (b : Option Runner) (m : Mode) (o : Option Runner)
    → Holds (λ c. Kept b none c × Fresh m o) (installed_fg o (do free_base m; pure none)) (Done m)
installed_cog_Done b m none = refused_Done m (free_base m >> pure none)
installed_cog_Done b m (some r) =
    Holds-given λ e. Holds-then _ _ (Holds-set_fg-Kept b r) (freed_Done m r e)

Holds-launch_cog-Done :
    (b : Option Runner) (m : Mode) (h : Hook) → Holds (Kept b none) (launch_cog m h) (Done m)
unfolding launch_cog
Holds-launch_cog-Done b m h = Holds-after _ _ (Neutral-gets _) λ cfg.
    Holds-after_then _ _ (Neutral-ask cog_bus) (
      Holds-after _ _ (Neutral-activate_vt _) λ shown.
        Holds-if shown _ _ (Holds-bind _ _ (Holds-launch-Kept b none m h) (installed_cog_Done b m))
          (Holds-bind _ _ (anything _)
            (λ back. Holds-then _ _ (anything (activate_vt back)) (fails m vt_failed))))

pub Holds-clear_fg-Kept : (b f : Option Runner) → Holds (Kept b f) (clear_fg f) (λ _. Kept b none)
unfolding clear_fg set_fg stop skip ◌>>◌
Holds-clear_fg-Kept b none = record { at = λ w p. p }
Holds-clear_fg-Kept b (some r) = record { at = λ w p. (p.0, refl) }

Holds-launch_foreground-Done :
    (b f : Option Runner) (m : Mode) → Holds (Kept b f) (launch_foreground m f) (Done m)
unfolding launch_foreground launch_vt
Holds-launch_foreground-Done b f m = Holds-after _ _ (Neutral-preflight m) λ ready.
    Holds-if ready _ _
      (Holds-then _ _ (Holds-clear_fg-Kept b f) (
        Holds-after _ _ (Neutral-gets _) λ base.
          Holds-if (is_cog_kiosk m) _ _ (Holds-launch_cog-Done b m (to_base base))
            (Holds-bind _ _ (Holds-launch-Kept b none m (to_base base)) (Holds-show_fg-Done b m))))
      (Holds-weaken (λ c p. tt) (λ e c d. d) (fails m preflight_failed))

-- `setMode` on the runner that is on screen.
set_mode_self : (r : Runner) (m : Mode) → set_mode_at r.id m (some r) ≡ some (record r { mode = m })
unfolding set_mode_at
set_mode_self r m = ground arith

Holds-set_fg_mode_Done :
    (b : Option Runner) (m : Mode) (r : Runner)
    → Holds
        (Kept b (some r))
        (set_fg_mode r.id m)
        (λ _ c. c.fg_runner ≡ some (record r { mode = m }))
unfolding set_fg_mode
Holds-set_fg_mode_Done b m r = record {
  at = λ w p. ap (set_mode_at r.id m) p.1 ∙ set_mode_self r m;
}

pub Holds-set_base_mode_Done :
    (m : Mode) (r : Runner)
    → Holds
        (Kept (some r) none)
        (set_base_mode r.id m)
        (λ _. Kept (some (record r { mode = m })) none)
unfolding set_base_mode
Holds-set_base_mode_Done m r = record {
  at = λ w p. (ap (set_mode_at r.id m) p.0 ∙ set_mode_self r m, p.1);
}

Holds-cog_navigate-Done :
    (b : Option Runner) (m : Mode) (r : Runner)
    → Holds (Kept b (some r)) (cog_navigate m r) (Done m)
unfolding cog_navigate
Holds-cog_navigate-Done b m r = Holds-after _ _ (Neutral-gets _) λ cfg.
    Holds-after _ _ (Neutral-activate_vt _) λ shown.
      Holds-if shown _ _
        (Holds-after _ _ (Neutral-ask _) λ done.
          Holds-if done _ _
            (Holds-then _ _ (Holds-set_fg_mode_Done b m r) (
              Holds-pure none
                (λ c f h. Shows-fg m (record r { mode = m }) c f (equivalent_equivalence.0 m))))
            (Holds-pure (some cog_failed) (λ c k. failed_Done m cog_failed c)))
        (Holds-pure (some vt_failed) (λ c k. failed_Done m vt_failed c))

or_failed-Done :
    (b : Option Runner) (m : Mode) (r : Runner) (e : Failure) (shown : Bool)
    → equivalent r.mode m ≡ true
    → Holds (Kept b (some r)) (or_failed e shown) (Done m)
or_failed-Done b m r e true q = Holds-pure none (λ c k h. Shows-fg m r c k.1 q)
or_failed-Done b m r e false q = Holds-pure (some e) (λ c k. failed_Done m e c)

equivalent_of_running :
    (r : Runner) (m : Mode) → running_mode r m ≡ true → equivalent r.mode m ≡ true
unfolding running_mode
equivalent_of_running r m h = ground arith

pub Holds-switch_foreground-Done :
    (b f : Option Runner) (m : Mode) → Holds (Kept b f) (switch_foreground m f) (Done m)
unfolding switch_foreground
Holds-switch_foreground-Done b none m = Holds-launch_foreground-Done b none m
Holds-switch_foreground-Done b (some r) m =
    Holds-test (running_mode r m) _ _
      (λ q. Holds-after _ _ (Neutral-gets _) λ cfg.
        Holds-after _ _ (Neutral-activate_vt _)
          λ shown. or_failed-Done b m r vt_failed shown (equivalent_of_running r m q))
      (λ q.
        Holds-if (is_alive r && is_cog_kiosk m && is_cog_kiosk r.mode) _ _
          (Holds-cog_navigate-Done b m r) (Holds-launch_foreground-Done b (some r) m))
