-- ===== src/Supervisor/Refused.antt =====
-- What a refused switch leaves as it was.
use sideshow.Base.{
  ◌≡◌, ◌⊎◌, inl, inr, refl, sym, subst, Bool, true, false, ◌&&◌, Option, none, some, arith, ltb,
  Bool-cases, if◌then◌else◌,
}
use sideshow.Mode.{Mode, web, off, is_kind, kind_of, is_cog_kiosk, foreground, normalize}
use sideshow.Mode.Equivalent.{equivalent}
use sideshow.Mode.Validate.{ModeError, validate}
use sideshow.Supervisor.World.{
  Runner, World, Failure, code_of, vt_collision, vt_failed, preflight_failed, Act, Try, pure, ◌>>=◌,
  ◌>>◌, gets, skip,
}
use sideshow.Supervisor.Surface.{activate_vt, preflight, is_alive, running_mode}
use sideshow.Supervisor.Switch.{
  clear_fg, launch_foreground, switch_foreground, start_primary, go_off, same_backend, reuse_base,
  switch_compositor, collides, switch_body, with_token, checked, switch, or_failed,
}
use sideshow.Supervisor.Ownership.Logic.{core, Neutral}
use sideshow.Supervisor.Ownership.Screen.{Neutral-preflight}
use sideshow.Supervisor.Serious.{
  IsSerious, Serious, Serious-none, Serious-vt_failed, Serious-bind, Serious-then, serious_rules,
  Serious-launch_cog, Serious-launch_vt, Serious-cog_navigate, Serious-installed_base,
  Serious-go_off, Serious-web_in_place,
}

-- Either the answer is serious, or the slots and the children are what they were.
abbrev pub Keeps : Try → World → Type 0
Keeps act w = IsSerious (act w).0 ⊎ (core (act w).1 ≡ core w)

-- An action that works only after a neutral test.
module _ (test : Act Bool) (calm : Neutral test) (act : Try) (grave : Serious act)
    (e : Option Failure) where
  either :
      (b : Bool) (v w : World)
      → core v ≡ core w
      → IsSerious ((if b then act else pure e) v).0
        ⊎ (core ((if b then act else pure e) v).1 ≡ core w)
  unfolding pure
  either true v w h = inl (grave.at v)
  either false v w h = inr h

  Keeps-tested : (w : World) → Keeps (test >>= λ b. if b then act else pure e) w
  unfolding ◌>>=◌
  Keeps-tested w = either (test w).0 (test w).1 w (calm.same w)

Keeps-launch_foreground :
    (m : Mode) (f : Option Runner) (w : World) → Keeps (launch_foreground m f) w
unfolding launch_foreground
Keeps-launch_foreground m f =
    Keeps-tested (preflight m) (Neutral-preflight m) _
      (search (serious_rules, Serious-launch_cog, Serious-launch_vt) depth 10)
      (some preflight_failed)

Keeps-start_primary : (m : Mode) (b : Option Runner) (w : World) → Keeps (start_primary m b) w
unfolding start_primary
Keeps-start_primary m b =
    Keeps-tested (preflight m) (Neutral-preflight m) _
      (search (serious_rules, Serious-installed_base) depth 14) (some preflight_failed)

Keeps-if : (b : Bool) (m n : Try) (w : World) → Keeps m w → Keeps n w → Keeps (if b then m else n) w
Keeps-if true m n w hm hn = hm
Keeps-if false m n w hm hn = hn

or_failed-Serious : (b : Bool) → Serious (or_failed vt_failed b)
or_failed-Serious true = Serious-none
or_failed-Serious false = Serious-vt_failed

shown_again : Serious (gets (λ w. w.cfg) >>= λ cfg. activate_vt cfg.mode_vt >>= or_failed vt_failed)
shown_again = Serious-bind _ _ (λ cfg. Serious-bind _ _ or_failed-Serious)

Keeps-switch_foreground :
    (m : Mode) (f : Option Runner) (w : World) → Keeps (switch_foreground m f) w
unfolding switch_foreground
Keeps-switch_foreground m none w = Keeps-launch_foreground m none w
Keeps-switch_foreground m (some r) w = Keeps-if (running_mode r m) _ _ w (inl (shown_again.at w)) (
    Keeps-if (is_alive r && is_cog_kiosk m && is_cog_kiosk r.mode) _ _ w
      (inl ((Serious-cog_navigate m r).at w)) (Keeps-launch_foreground m (some r) w))

Keeps-reuse_base :
    (m : Mode) (b : Option Runner) (came : Bool) (w : World) → Keeps (reuse_base m b came) w
Keeps-reuse_base m none came w = Keeps-start_primary m none w
Keeps-reuse_base m (some r) came w =
    Keeps-if (same_backend r m && is_kind (kind_of m) web) _ _ w
      (inl ((Serious-web_in_place m r came).at w))
      (Keeps-if (same_backend r m && equivalent r.mode m) _ _ w
        (inl ((Serious-then _ _ Serious-none).at w)) (Keeps-start_primary m (some r) w))

Keeps-switch_compositor :
    (m : Mode) (b : Option Runner) (w : World) → Keeps (switch_compositor m b none) w
unfolding switch_compositor clear_fg skip ◌>>◌ ◌>>=◌
Keeps-switch_compositor m b w =
    Keeps-if (is_kind (kind_of m) off) (go_off b) (reuse_base m b false) w
      (inl ((Serious-go_off b).at w)) (Keeps-reuse_base m b false w)

Keeps-switch_body :
    (m : Mode) (w : World) → (foreground m ≡ true) ⊎ (w.fg_runner ≡ none) → Keeps (switch_body m) w
unfolding switch_body
Keeps-switch_body m w h = by_surface (foreground m) refl
  where
    shown_there :
        (b : Bool)
        → IsSerious (if b then (some vt_collision, w) else switch_foreground m w.fg_runner w).0
          ⊎ (core (if b then (some vt_collision, w) else switch_foreground m w.fg_runner w).1
              ≡ core w)
    shown_there true = inr refl
    shown_there false = Keeps-switch_foreground m w.fg_runner w

    over : World → Option Failure × World
    over w =
        if collides w.cfg w.runner
        then (some vt_collision, w)
        else switch_foreground m w.fg_runner w

    no_overlay : foreground m ≡ false → w.fg_runner ≡ none
    no_overlay f = elim h [ inl t ↦ ground arith | inr n ↦ n ]

    by_surface :
        (b : Bool)
        → foreground m ≡ b
        → IsSerious (if b then over w else switch_compositor m w.runner w.fg_runner w).0
          ⊎ (core (if b then over w else switch_compositor m w.runner w.fg_runner w).1 ≡ core w)
    by_surface true f = shown_there (collides w.cfg w.runner)
    by_surface false f =
        subst (λ g. Keeps (switch_compositor m w.runner g) w) (sym (no_overlay f))
          (Keeps-switch_compositor m w.runner w)

Keeps-with_token :
    (body : Try) (w : World)
    → Keeps body (record w { switching = true })
    → Keeps (with_token body) w
unfolding with_token
Keeps-with_token body w h = elim (Bool-cases w.switching) [
  | inl e ↦ rw e (inr refl)
  | inr e ↦ rw e h
]

Keeps-checked :
    (e : Option ModeError) (body : Try) (w : World) → Keeps body w → Keeps (checked e body) w
unfolding pure
Keeps-checked none body w h = h
Keeps-checked (some e) body w h = inr refl

not_serious :
    {P : Type 0} (o : Option Failure) (e : Failure)
    → o ≡ some e
    → ltb (code_of e) 500 ≡ true
    → IsSerious o ⊎ P
    → P
not_serious o e r l (inl s) = ground (arith, subst IsSerious r s)
not_serious o e r l (inr p) = p

-- A switch that is refused, with a code below 500, leaves the runners and the children as they were:
-- for a mode on the foreground always, and for a mode on a compositor when no foreground mode is
-- installed.
pub switch_refused :
    (m : Mode) (w : World) (e : Failure)
    → (foreground (normalize m) ≡ true) ⊎ (w.fg_runner ≡ none)
    → (switch m w).0 ≡ some e
    → ltb (code_of e) 500 ≡ true
    → core (switch m w).1 ≡ core w
unfolding switch
switch_refused m w e h r l =
    let n = normalize m in
    not_serious (switch m w).0 e r l (
      Keeps-checked (validate n) (with_token (switch_body n)) w (
        Keeps-with_token (switch_body n) w (Keeps-switch_body n (record w { switching = true }) h)))
