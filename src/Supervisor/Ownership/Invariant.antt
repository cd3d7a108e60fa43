-- ===== src/Supervisor/Ownership/Invariant.antt =====
-- The ownership invariant of the slots and the children, and the list facts behind it.
use sideshow.Base.{
  ◌≡◌, ℕ, ◌≤◌, ◌<◌, ◌⊎◌, inl, inr, ◌==◌, Bool, true, false, Option, none, some, List, [], ◌∷◌, All,
  All-keep_if, keep_if, arith, Bool-cases,
}
use sideshow.Mode.{kms, is_surface, surface_of}
use sideshow.Supervisor.World.{Runner, holds, without}
use sideshow.Supervisor.Ownership.Logic.{Core}

-- A runner with the address stands in a slot.
abbrev pub Installed : Core → ℕ → Type 0
Installed c i = (holds i c.runner ≡ true) ⊎ (holds i c.fg_runner ≡ true)

abbrev pub Distinct : List ℕ → Type 0
Distinct [] = Unit
Distinct (i ∷ is) = All (λ j. (j == i) ≡ false) is × Distinct is

-- Every child that runs belongs to an installed runner, and no runner has two.
pub record IsOwned (c : Core) : Type 0 where
  pub owned : All (Installed c) c.live
  pub fresh : All (λ i. i < c.next_id) c.live
  pub distinct : Distinct c.live

-- A mode on the KMS framebuffer has the screen for itself: there is no base behind it.
abbrev pub KmsAlone : Core → Type 0
KmsAlone c =
    (r : Runner)
    → c.fg_runner ≡ some r
    → is_surface (surface_of r.mode) kms ≡ true
    → c.runner ≡ none

pub record IsSettled (c : Core) : Type 0 where
  pub children : IsOwned c
  pub alone : KmsAlone c

-- The slots hold `b` and `f`.
abbrev pub Slots : Option Runner → Option Runner → Core → Type 0
Slots b f c = IsOwned c × (c.runner ≡ b) × (c.fg_runner ≡ f)

-- Nothing in the foreground.
abbrev pub NoFg : Core → Type 0
NoFg c = IsOwned c × (c.fg_runner ≡ none)

pub All-later : (n k : ℕ) (is : List ℕ) → n ≤ k → All (λ i. i < n) is → All (λ i. i < k) is
All-later n k [] e h = tt
All-later n k (i ∷ is) e h = (omega arith, All-later n k is e h.1)

pub All-below : (n : ℕ) (is : List ℕ) → All (λ i. i < n) is → All (λ j. (j == n) ≡ false) is
All-below n [] h = tt
All-below n (i ∷ is) h = (ground arith, All-below n is h.1)

pub Distinct-keep_if : (p : ℕ → Bool) (is : List ℕ) → Distinct is → Distinct (keep_if p is)
Distinct-keep_if p [] d = tt
Distinct-keep_if p (i ∷ is) d =
    ground (arith, All-keep_if (λ j. (j == i) ≡ false) p is d.0, Distinct-keep_if p is d.1)

-- After the child of one runner is gone, the others need only the other slot.
pub All-without :
    (P Q : ℕ → Type 0) (i : ℕ) (is : List ℕ)
    → ((j : ℕ) → (j == i) ≡ false → P j → Q j)
    → All P is
    → All Q (without i is)
All-without P Q i [] f h = tt
All-without P Q i (j ∷ js) f h = elim (Bool-cases (j == i)) [
  | inl e ↦ rw e (All-without P Q i js f h.1)
  | inr e ↦ rw e (f j e h.0, All-without P Q i js f h.1)
]

pub All-map {ℓ} :
    {A : Type ℓ} (P Q : A → Type 0) (xs : List A) → ((x : A) → P x → Q x) → All P xs → All Q xs
All-map P Q [] f h = tt
All-map P Q (x ∷ xs) f h = (f x h.0, All-map P Q xs f h.1)
