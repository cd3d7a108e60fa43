-- ===== src/Supervisor/Serious.antt =====
-- The parts of a switch that fail only after they have worked on the screen.
use sideshow.Base.{◌≡◌, refl, Bool, true, false, Option, none, some, ltb, if◌then◌else◌}
use sideshow.Mode.{Mode}
use sideshow.Supervisor.World.{
  Hook, Runner, World, Failure, code_of, vt_failed, cog_failed, start_failed, navigate_failed, Act,
  Try, pure, ◌>>=◌, ◌>>◌,
}
use sideshow.Supervisor.Switch.{
  cog_navigate, installed_fg, launch_cog, show_fg, launch_vt, installed_base, go_off, web_in_place,
}

-- No error, or one of the codes from 500 on: the screen was worked on.
abbrev pub IsSerious : Option Failure → Type 0
IsSerious none = Unit
IsSerious (some e) = ltb (code_of e) 500 ≡ false

pub record Serious (act : Try) : Type 0 where
  pub at : (w : World) → IsSerious (act w).0

pub Serious-none : Serious (pure none)
unfolding pure
Serious-none = record { at = λ w. tt }

module _ (e : Failure) where
  Serious-some : ltb (code_of e) 500 ≡ false → Serious (pure (some e))
  unfolding pure
  Serious-some h = record { at = λ w. h }

pub Serious-vt_failed : Serious (pure (some vt_failed))
unfolding code_of
Serious-vt_failed = Serious-some vt_failed refl

pub Serious-start_failed : Serious (pure (some start_failed))
unfolding code_of
Serious-start_failed = Serious-some start_failed refl

pub Serious-navigate_failed : Serious (pure (some navigate_failed))
unfolding code_of
Serious-navigate_failed = Serious-some navigate_failed refl

pub Serious-cog_failed : Serious (pure (some cog_failed))
unfolding code_of
Serious-cog_failed = Serious-some cog_failed refl

module _ {ℓ} {A : Type ℓ} where
  pub Serious-bind : (m : Act A) (f : A → Try) → ((a : A) → Serious (f a)) → Serious (m >>= f)
  unfolding ◌>>=◌
  Serious-bind m f h = record { at = λ w. (h (m w).0).at (m w).1 }

  pub Serious-then : (m : Act A) (n : Try) → Serious n → Serious (m >> n)
  unfolding ◌>>◌
  Serious-then m n h = Serious-bind m (λ _. n) (λ a. h)

pub Serious-if : (b : Bool) (m n : Try) → Serious m → Serious n → Serious (if b then m else n)
Serious-if true m n hm hn = hm
Serious-if false m n hm hn = hn

pub ruleset serious_rules = (
  Serious-none, Serious-vt_failed, Serious-start_failed, Serious-navigate_failed,
  Serious-cog_failed, Serious-bind, Serious-then, Serious-if,
)

Serious-installed_fg :
    (o : Option Runner) (next : Try) → Serious next → Serious (installed_fg o next)
Serious-installed_fg none next h = search serious_rules
Serious-installed_fg (some r) next h = Serious-then _ _ h

pub Serious-launch_cog : (m : Mode) (h : Hook) → Serious (launch_cog m h)
unfolding launch_cog
Serious-launch_cog m h = search (serious_rules, Serious-installed_fg) depth 14

Serious-show_fg : (m : Mode) (o : Option Runner) → Serious (show_fg m o)
Serious-show_fg m none = search serious_rules depth 10
Serious-show_fg m (some r) = search serious_rules depth 14

pub Serious-launch_vt : (m : Mode) (h : Hook) → Serious (launch_vt m h)
unfolding launch_vt
Serious-launch_vt m h = Serious-bind _ _ (Serious-show_fg m)

pub Serious-cog_navigate : (m : Mode) (r : Runner) → Serious (cog_navigate m r)
unfolding cog_navigate
Serious-cog_navigate m r = search serious_rules depth 14

pub Serious-installed_base :
    (m : Mode) (had : Bool) (o : Option Runner) → Serious (installed_base m had o)
Serious-installed_base m had none = search serious_rules depth 14
Serious-installed_base m had (some r) = search serious_rules depth 8

pub Serious-go_off : (b : Option Runner) → Serious (go_off b)
unfolding go_off
Serious-go_off b = search serious_rules depth 10

pub Serious-web_in_place : (m : Mode) (r : Runner) (came : Bool) → Serious (web_in_place m r came)
unfolding web_in_place
Serious-web_in_place m r came = search serious_rules depth 14
