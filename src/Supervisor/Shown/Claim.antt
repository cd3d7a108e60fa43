-- ===== src/Supervisor/Shown/Claim.antt =====
-- What it means that a mode is shown, and the parts of a switch that keep the slots in view.
use sideshow.Base.{◌≡◌, ◌∙◌, true, Option, none, some}
use sideshow.Mode.{Mode}
use sideshow.Mode.Equivalent.{equivalent, equivalent_equivalence}
use sideshow.Supervisor.World.{Hook, Runner, Failure, Act, pure}
use sideshow.Supervisor.Surface.{launch}
use sideshow.Supervisor.Ownership.Logic.{Core, core, Holds, Holds-pure}
use sideshow.Supervisor.Ownership.Launch.{Launched, launch-Launched}

-- `Status`: the runner that is reported, the foreground one before the base.
abbrev pub screen : Core → Option Runner
screen c = elim c.fg_runner [ none ↦ c.runner | some r ↦ some r ]

-- The runner on screen runs the mode, or one that is equivalent to it.
abbrev pub Shows : Mode → Core → Type 0
Shows m c = (r : Runner) × (screen c ≡ some r) × (equivalent r.mode m ≡ true)

abbrev pub Idle : Core → Type 0
Idle c = (c.runner ≡ none) × (c.fg_runner ≡ none)

abbrev pub Kept : Option Runner → Option Runner → Core → Type 0
Kept b f c = (c.runner ≡ b) × (c.fg_runner ≡ f)

-- If there is no error, the mode is shown.
abbrev pub Done : Mode → Option Failure → Core → Type 0
Done m e c = e ≡ none → Shows m c

pub failed_Done : (m : Mode) (e : Failure) (c : Core) → Done m (some e) c
failed_Done m e c h = cc

pub same_mode : (r : Runner) (m : Mode) → r.mode ≡ m → equivalent r.mode m ≡ true
same_mode r m e = rw e (equivalent_equivalence.0 m)

pub Shows-fg :
    (m : Mode) (r : Runner) (c : Core)
    → c.fg_runner ≡ some r
    → equivalent r.mode m ≡ true
    → Shows m c
Shows-fg m r c f e = (r, rw f, e)

pub Shows-base :
    (m : Mode) (r : Runner) (c : Core)
    → Kept (some r) none c
    → equivalent r.mode m ≡ true
    → Shows m c
Shows-base m r c k e = (r, rw (k.1, k.0), e)

abbrev pub Fresh : Mode → Option Runner → Type 0
Fresh m none = Unit
Fresh m (some r) = r.mode ≡ m

pub Launched-Kept :
    (b f : Option Runner) (m : Mode) (c d : Core) (o : Option Runner)
    → Launched m c o d
    → Kept b f c
    → Kept b f d × Fresh m o
Launched-Kept b f m c d none (er, ef, el, en) (pb, pf) = ((er ∙ pb, ef ∙ pf), tt)
Launched-Kept b f m c d (some r) (er, ef, el, en, ei, em) (pb, pf) = ((er ∙ pb, ef ∙ pf), em)

pub Holds-launch-Kept :
    (b f : Option Runner) (m : Mode) (h : Hook)
    → Holds (Kept b f) (launch m h) (λ o c. Kept b f c × Fresh m o)
Holds-launch-Kept b f m h = record {
  at = λ w p. Launched-Kept b f m (core w) _ (launch m h w).0 (launch-Launched m h w) p;
}

-- An action whose effect does not matter, since an error follows.
pub anything {ℓ} : {A : Type ℓ} {P : Core → Type 0} (m : Act A) → Holds P m (λ _ _. Unit {0})
anything m = record { at = λ w p. tt }

pub fails : (m : Mode) (e : Failure) → Holds (λ _. Unit {0}) (pure (some e)) (Done m)
fails m e = Holds-pure (some e) (λ c u. failed_Done m e c)
