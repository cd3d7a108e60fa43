-- ===== src/Supervisor/Ownership/Logic.antt =====
-- Pre- and postconditions of actions on the slots and the children.
use sideshow.Base.{◌≡◌, refl, sym, subst, ◌∙◌, ℕ, Bool, true, false, Option, List, if◌then◌else◌}
use sideshow.Supervisor.World.{Runner, World, Act, pure, ◌>>=◌, ◌>>◌, gets, skip}

pub record Core : Type 0 where
  pub runner : Option Runner
  pub fg_runner : Option Runner
  pub live : List ℕ
  pub next_id : ℕ

abbrev pub core : World → Core
core w = record { runner = w.runner; fg_runner = w.fg_runner; live = w.live; next_id = w.next_id }

-- From a state with `P`, `m` ends in a state with `Q`.
pub record Holds {ℓ} {A : Type ℓ} (P : Core → Type 0) (m : Act A) (Q : A → Core → Type 0)
    : Type ℓ where
  pub at : (w : World) → P (core w) → Q (m w).0 (core (m w).1)

-- `m` leaves the slots and the children alone.
pub record Neutral {ℓ} {A : Type ℓ} (m : Act A) : Type ℓ where
  pub same : (w : World) → core (m w).1 ≡ core w

module _ {ℓ} {A : Type ℓ} where
  pub Neutral-pure : (a : A) → Neutral (pure a)
  unfolding pure
  Neutral-pure a = record { same = λ w. refl }

  pub Neutral-gets : (f : World → A) → Neutral (gets f)
  unfolding gets
  Neutral-gets f = record { same = λ w. refl }

  pub Neutral-if : (b : Bool) (m n : Act A) → Neutral m → Neutral n → Neutral (if b then m else n)
  Neutral-if true m n hm hn = hm
  Neutral-if false m n hm hn = hn

  pub Holds-pure :
      {P : Core → Type 0} {Q : A → Core → Type 0} (a : A)
      → ((c : Core) → P c → Q a c)
      → Holds P (pure a) Q
  unfolding pure
  Holds-pure a h = record { at = λ w. h (core w) }

  pub Holds-neutral :
      {P : Core → Type 0} {Q : A → Core → Type 0} {m : Act A}
      → Neutral m
      → ((a : A) (c : Core) → P c → Q a c)
      → Holds P m Q
  Holds-neutral {P} {Q} {m} n h = record {
    at = λ w p. subst (λ c. Q (m w).0 c) (sym (n.same w)) (h (m w).0 (core w) p);
  }

  pub Holds-if :
      {P : Core → Type 0} {Q : A → Core → Type 0} (b : Bool) (m n : Act A)
      → Holds P m Q
      → Holds P n Q
      → Holds P (if b then m else n) Q
  Holds-if true m n hm hn = hm
  Holds-if false m n hm hn = hn

  -- A branch may use the test that led to it.
  pub Holds-test :
      {P : Core → Type 0} {Q : A → Core → Type 0} (b : Bool) (m n : Act A)
      → (b ≡ true → Holds P m Q)
      → (b ≡ false → Holds P n Q)
      → Holds P (if b then m else n) Q
  Holds-test true m n hm hn = hm refl
  Holds-test false m n hm hn = hn refl

  -- A fact that does not depend on the state.
  pub Holds-given :
      {P : Core → Type 0} {E : Type 0} {Q : A → Core → Type 0} {m : Act A}
      → (E → Holds P m Q)
      → Holds (λ c. P c × E) m Q
  Holds-given h = record { at = λ w p. (h p.1).at w p.0 }

  pub Holds-weaken :
      {P P' : Core → Type 0} {Q Q' : A → Core → Type 0} {m : Act A}
      → ((c : Core) → P' c → P c)
      → ((a : A) (c : Core) → Q a c → Q' a c)
      → Holds P m Q
      → Holds P' m Q'
  Holds-weaken {m = m} before after h = record {
    at = λ w p. after (m w).0 (core (m w).1) (h.at w (before (core w) p));
  }

pub Neutral-skip : Neutral skip
unfolding skip
Neutral-skip = record { same = λ w. refl }

module _ {ℓ} {A B : Type ℓ} where
  pub Neutral-bind :
      (m : Act A) (f : A → Act B) → Neutral m → ((a : A) → Neutral (f a)) → Neutral (m >>= f)
  unfolding ◌>>=◌
  Neutral-bind m f hm hf = record { same = λ w. let (a, w') = m w in (hf a).same w' ∙ hm.same w }

  pub Holds-bind :
      {P : Core → Type 0} {Q : A → Core → Type 0} {R : B → Core → Type 0} (m : Act A)
      (f : A → Act B)
      → Holds P m Q
      → ((a : A) → Holds (Q a) (f a) R)
      → Holds P (m >>= f) R
  unfolding ◌>>=◌
  Holds-bind m f hm hf = record { at = λ w p. let (a, w') = m w in (hf a).at w' (hm.at w p) }

  pub Neutral-then : (m : Act A) (n : Act B) → Neutral m → Neutral n → Neutral (m >> n)
  unfolding ◌>>◌
  Neutral-then m n hm hn = Neutral-bind m (λ _. n) hm (λ _. hn)

  pub Holds-then :
      {P Q : Core → Type 0} {R : B → Core → Type 0} (m : Act A) (n : Act B)
      → Holds P m (λ _. Q)
      → Holds Q n R
      → Holds P (m >> n) R
  unfolding ◌>>◌
  Holds-then m n hm hn = Holds-bind m (λ _. n) hm (λ _. hn)

  -- A neutral first step keeps the precondition.
  pub Holds-after :
      {P : Core → Type 0} {R : B → Core → Type 0} (m : Act A) (f : A → Act B)
      → Neutral m
      → ((a : A) → Holds P (f a) R)
      → Holds P (m >>= f) R
  Holds-after m f hm hf = Holds-bind m f (Holds-neutral hm (λ a c p. p)) hf

  pub Holds-after_then :
      {P : Core → Type 0} {R : B → Core → Type 0} (m : Act A) (n : Act B)
      → Neutral m
      → Holds P n R
      → Holds P (m >> n) R
  Holds-after_then m n hm hn = Holds-then m n (Holds-neutral hm (λ a c p. p)) hn

-- The next step may use what it read in the slot.
pub Holds-read {ℓ} :
    {A : Type ℓ} {P : Core → Type 0} {R : A → Core → Type 0} (k : Option Runner → Act A)
    → ((b : Option Runner) → Holds (λ c. P c × (c.runner ≡ b)) (k b) R)
    → Holds P (gets (λ w. w.runner) >>= k) R
unfolding ◌>>=◌ gets
Holds-read k h = record { at = λ w p. (h w.runner).at w (p, refl) }

-- Two steps that are specified together.
pub Holds-pair {ℓ} :
    {A B C : Type ℓ} {P Q : Core → Type 0} {R : C → Core → Type 0} (m : Act A) (n : Act B)
    (k : Act C)
    → Holds P (m >> n) (λ _. Q)
    → Holds Q k R
    → Holds P (m >> (n >> k)) R
unfolding ◌>>◌
Holds-pair m n k h hk = record { at = λ w p. hk.at ((m >> n) w).1 (h.at w p) }

pub ruleset neutral_rules =
    (Neutral-pure, Neutral-gets, Neutral-if, Neutral-skip, Neutral-bind, Neutral-then)
