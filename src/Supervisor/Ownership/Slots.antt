-- ===== src/Supervisor/Ownership/Slots.antt =====
-- The steps that install and remove runners.
use sideshow.Base.{
  ◌≡◌, refl, ◌∙◌, ℕ, ◌<◌, ◌⊎◌, inl, inr, ◌==◌, true, false, not, Option, none, some, All-keep_if,
  arith, Bool-cases, if◌then◌else◌,
}
use sideshow.Mode.{Mode, kms, is_surface, surface_of}
use sideshow.Supervisor.World.{
  Runner, ◌>>=◌, ◌>>◌, gets, skip, set_runner, set_fg, set_attached, holds, without,
}
use sideshow.Supervisor.Surface.{detach, stop}
use sideshow.Supervisor.Ownership.Logic.{Core, core, Holds, Holds-weaken}
use sideshow.Supervisor.Ownership.Invariant.{
  Installed, IsOwned, IsSettled, Slots, NoFg, All-later, All-map, Distinct-keep_if, All-without,
}
use sideshow.Supervisor.Switch.{
  clear_fg, take_base, detach_stop, release_base, remove_base, free_base, drop_fg, set_mode_at,
  set_base_mode, set_fg_mode, install_base,
}
use sideshow.Supervisor.Ownership.Launch.{
  After, IsOwned-installed_fg, IsOwned-installed_base, Slots-not_launched,
}

pub stopped_Slots :
    (b f : Option Runner) (c d : Core) (i : ℕ)
    → IsOwned c
    → d.live ≡ without i c.live
    → d.next_id ≡ c.next_id
    → ((j : ℕ) → (j == i) ≡ false → Installed c j → Installed d j)
    → d.runner ≡ b
    → d.fg_runner ≡ f
    → Slots b f d
stopped_Slots b f c d i o l n keep pb pf = (
  record {
    owned = rw l (All-without (Installed c) (Installed d) i c.live keep o.owned);
    fresh = rw l (
        All-keep_if (λ j. j < d.next_id) (λ j. not (j == i)) c.live
          (All-later c.next_id d.next_id c.live (omega arith) o.fresh));
    distinct = rw l (Distinct-keep_if (λ j. not (j == i)) c.live o.distinct);
  },
  pb,
  pf,
)

-- Who owned a child beside the runner of address `i`, when that runner leaves its slot.
fg_left :
    (x : Option Runner) (i j : ℕ) (r : Runner)
    → r.id ≡ i
    → (j == i) ≡ false
    → (holds j x ≡ true) ⊎ (holds j (some r) ≡ true)
    → (holds j x ≡ true) ⊎ (holds j none ≡ true)
fg_left x i j r e n (inl h) = inl h
fg_left x i j r e n (inr h) = ground arith

base_left :
    (x : Option Runner) (i j : ℕ) (r : Runner)
    → r.id ≡ i
    → (j == i) ≡ false
    → (holds j (some r) ≡ true) ⊎ (holds j x ≡ true)
    → (holds j none ≡ true) ⊎ (holds j x ≡ true)
base_left x i j r e n (inl h) = ground arith
base_left x i j r e n (inr h) = inr h

dropped :
    (slot : Option Runner) (r : Runner)
    → slot ≡ some r
    → (if holds r.id slot then none else slot) ≡ none
dropped slot r e = rw e (ground arith)

pub Holds-clear_fg : (b f : Option Runner) → Holds (Slots b f) (clear_fg f) (λ _. Slots b none)
unfolding clear_fg set_fg stop skip ◌>>◌
Holds-clear_fg b none = record { at = λ w p. p }
Holds-clear_fg b (some r) = record {
  at = λ w p.
      stopped_Slots b none (core w) (core ((clear_fg (some r)) w).1) r.id p.0 refl refl
        (λ j n. rw p.2 (fg_left w.runner r.id j r refl n)) p.1 refl;
}

pub Holds-take_base : (b f : Option Runner) → Holds (Slots b f) (take_base b) (λ _. Slots none f)
unfolding take_base stop skip ◌>>◌
Holds-take_base none f = record { at = λ w p. p }
Holds-take_base (some r) f = record {
  at = λ w p.
      stopped_Slots none f (core w) (core (take_base (some r) w).1) r.id p.0 refl refl
        (λ j n. rw (dropped w.runner r p.1, p.1) (base_left w.fg_runner r.id j r refl n))
        (dropped w.runner r p.1) p.2;
}

pub Holds-remove_base :
    (b f : Option Runner) → Holds (Slots b f) (remove_base b) (λ _. Slots none f)
unfolding remove_base set_runner stop skip ◌>>◌
Holds-remove_base none f = record { at = λ w p. p }
Holds-remove_base (some r) f = record {
  at = λ w p.
      stopped_Slots none f (core w) (core (remove_base (some r) w).1) r.id p.0 refl refl
        (λ j n. rw p.1 (base_left w.fg_runner r.id j r refl n)) refl p.2;
}

pub Holds-release_base : (b f : Option Runner) → Holds (Slots b f) release_base (λ _. Slots none f)
unfolding release_base remove_base set_runner detach set_attached stop skip gets ◌>>=◌ ◌>>◌
Holds-release_base none f = record { at = λ w p. rw (p.1, detach_stop) (rw p.1 at p.0, refl, p.2) }
Holds-release_base (some r) f = record {
  at = λ w p. rw (p.1, detach_stop) ((Holds-remove_base (some r) f).at w p);
}

pub Holds-drop_stop_fg :
    (b : Option Runner) (r : Runner)
    → Holds (Slots b (some r)) (drop_fg r.id >> stop r) (λ _. Slots b none)
unfolding drop_fg stop ◌>>◌
Holds-drop_stop_fg b r = record {
  at = λ w p.
      stopped_Slots b none (core w) (core ((drop_fg r.id >> stop r) w).1) r.id p.0 refl refl
        (λ j n. rw (dropped w.fg_runner r p.2, p.2) (fg_left w.runner r.id j r refl n)) p.1
        (dropped w.fg_runner r p.2);
}

pub IsSettled-without_base : (f : Option Runner) (c : Core) → Slots none f c → IsSettled c
IsSettled-without_base f c s = record { children = s.0; alone = λ r e k. s.1 }

pub IsSettled-without_fg : (c : Core) → NoFg c → IsSettled c
IsSettled-without_fg c s = record { children = s.0; alone = λ r e k. cc (s.1) }

shown_is :
    (r t : Runner) (c : Core)
    → c.fg_runner ≡ some r
    → c.fg_runner ≡ some t
    → is_surface (surface_of t.mode) kms ≡ true
    → is_surface (surface_of r.mode) kms ≡ true
shown_is r t c e f k = ground arith

IsSettled-over_base :
    (b : Option Runner) (r : Runner) (c : Core)
    → is_surface (surface_of r.mode) kms ≡ false
    → Slots b (some r) c
    → IsSettled c
IsSettled-over_base b r c n s = record {
  children = s.0;
  alone = λ t e k. cc (shown_is r t c s.2 e k, n);
}

-- After another foreground mode took the screen; a KMS mode leaves no base.
pub Holds-free_base :
    (b : Option Runner) (m : Mode) (r : Runner)
    → r.mode ≡ m
    → Holds (Slots b (some r)) (free_base m) (λ _. IsSettled)
unfolding free_base skip
Holds-free_base b m r e = elim (Bool-cases (is_surface (surface_of m) kms)) [
  | inl k ↦ rw k (
      Holds-weaken (λ c p. p) (λ u c s. IsSettled-without_base (some r) c s)
        (Holds-release_base b (some r)))
  | inr n ↦ rw n (record { at = λ w p. IsSettled-over_base b r (core w) (rw e n) p })
]

pub Holds-install_fg :
    (b : Option Runner) (m : Mode) (r : Runner)
    → Holds (After b none m (some r)) (set_fg (some r)) (λ _ c. Slots b (some r) c × (r.mode ≡ m))
unfolding set_fg
Holds-install_fg b m r = record {
  at = λ w a. ((IsOwned-installed_fg b m r (core w) a, a.2.0 ∙ a.1.1, refl), a.2.5);
}

pub Holds-install_base :
    (f : Option Runner) (m : Mode) (o : Option Runner)
    → Holds (After none f m o) (install_base o) (λ _ c. IsOwned c × (c.fg_runner ≡ f))
unfolding set_runner skip
Holds-install_base f m none = record {
  at = λ w a. let s = Slots-not_launched none f m (core w) a in (s.0, s.2);
}
Holds-install_base f m (some r) = record {
  at = λ w a. (IsOwned-installed_base f m r (core w) a, a.2.1 ∙ a.1.2);
}

-- `setMode` keeps the address, so it keeps the owner.
pub holds-set_mode_at :
    (i j : ℕ) (m : Mode) (slot : Option Runner) → holds j (set_mode_at i m slot) ≡ holds j slot
unfolding set_mode_at
holds-set_mode_at i j m none = refl
holds-set_mode_at i j m (some r) = ground arith

pub IsOwned-relabelled :
    (c : Core) (x y : Option Runner)
    → ((j : ℕ) → holds j x ≡ holds j c.runner)
    → ((j : ℕ) → holds j y ≡ holds j c.fg_runner)
    → IsOwned c
    → IsOwned (record c { runner = x; fg_runner = y })
IsOwned-relabelled c x y p q o = record {
  owned = All-map (Installed c) _ c.live (λ j. rw (p j, q j) (λ h. h)) o.owned;
  fresh = o.fresh;
  distinct = o.distinct;
}

pub Holds-set_base_mode : (i : ℕ) (m : Mode) → Holds NoFg (set_base_mode i m) (λ _. NoFg)
unfolding set_base_mode
Holds-set_base_mode i m = record {
  at = λ w p. (
    IsOwned-relabelled (core w) _ _ (λ j. holds-set_mode_at i j m w.runner) (λ j. refl) p.0,
    p.1,
  );
}

pub Holds-set_fg_mode :
    (f : Option Runner) (i : ℕ) (m : Mode) → Holds (Slots none f) (set_fg_mode i m) (λ _. IsSettled)
unfolding set_fg_mode
Holds-set_fg_mode f i m = record {
  at = λ w p. record {
    children =
        IsOwned-relabelled (core w) _ _ (λ j. refl) (λ j. holds-set_mode_at i j m w.fg_runner) p.0;
    alone = λ r e k. p.1;
  };
}
