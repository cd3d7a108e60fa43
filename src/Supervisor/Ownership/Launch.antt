-- ===== src/Supervisor/Ownership/Launch.antt =====
-- What `launch` leaves, and how its runner comes to own its child.
use sideshow.Base.{
  ◌≡◌, refl, ap, ◌∙◌, ℕ, ◌+◌, ◌⊎◌, inl, inr, Bool, true, false, Option, none, some, ◌∷◌, All, arith,
}
use sideshow.Mode.{Mode}
use sideshow.Mode.Command.{Command, mode_command, built, failed}
use sideshow.Supervisor.World.{Hook, Runner, spawn, World, pure, ◌>>=◌, ◌>>◌, gets, ask, holds}
use sideshow.Supervisor.Surface.{new_runner, now_live, spawned, spawn_child, launch}
use sideshow.Supervisor.Ownership.Logic.{Core, core, Holds}
use sideshow.Supervisor.Ownership.Invariant.{
  Installed, IsOwned, Slots, All-later, All-map, All-below,
}
use sideshow.Supervisor.Ownership.Screen.{Neutral-post_start}

-- What a launch leaves: the slots are as they were; a runner that was started is new, has the mode
-- and is the one more child that runs.
abbrev pub Launched : Mode → Core → Option Runner → Core → Type 0
Launched m before none after =
    (after.runner ≡ before.runner)
    × (after.fg_runner ≡ before.fg_runner)
    × (after.live ≡ before.live)
    × (after.next_id ≡ before.next_id + 1)
Launched m before (some r) after =
    (after.runner ≡ before.runner)
    × (after.fg_runner ≡ before.fg_runner)
    × (after.live ≡ before.next_id ∷ before.live)
    × (after.next_id ≡ before.next_id + 1)
    × (r.id ≡ before.next_id)
    × (r.mode ≡ m)

abbrev Spawned : Runner → Core → Option Runner → Core → Type 0
Spawned r before none after = after ≡ before
Spawned r before (some s) after =
    (after ≡ record before { live = r.id ∷ before.live }) × (s.id ≡ r.id) × (s.mode ≡ r.mode)

spawned-Spawned :
    (r : Runner) (b : Bool) (w : World)
    → Spawned r (core w) (spawned r b w).0 (core (spawned r b w).1)
unfolding ◌>>=◌ ◌>>◌ pure now_live
spawned-Spawned r false w = refl
spawned-Spawned r true w =
    ((Neutral-post_start r.mode).same (record w { live = r.id ∷ w.live }), refl, refl)

spawn_child-Spawned :
    (r : Runner) (c : Command) (w : World)
    → Spawned r (core w) (spawn_child r c w).0 (core (spawn_child r c w).1)
unfolding spawn_child ◌>>=◌ ask pure
spawn_child-Spawned r (failed e) w = refl
spawn_child-Spawned r (built name args) w =
    spawned-Spawned r (w.answer (spawn r.mode) w.asked) (record w { asked = w.asked + 1 })

Launched-of_Spawned :
    (r : Runner) (before after : Core) (o : Option Runner)
    → r.id ≡ before.next_id
    → Spawned r (record before { next_id = before.next_id + 1 }) o after
    → Launched r.mode before o after
Launched-of_Spawned r before after none e h =
    (ap Core.runner h, ap Core.fg_runner h, ap Core.live h, ap Core.next_id h)
Launched-of_Spawned r before after (some s) e h = (
  ap Core.runner h.0,
  ap Core.fg_runner h.0,
  ap Core.live h.0 ∙ ap (λ i. i ∷ before.live) e,
  ap Core.next_id h.0,
  h.1 ∙ e,
  h.2,
)

pub launch-Launched :
    (m : Mode) (h : Hook) (w : World) → Launched m (core w) (launch m h w).0 (core (launch m h w).1)
unfolding launch ◌>>=◌ gets
launch-Launched m h w =
    Launched-of_Spawned (new_runner m h w).0 (core w) (core (launch m h w).1) (launch m h w).0 refl
      (spawn_child-Spawned (new_runner m h w).0 (mode_command w.cfg m) (new_runner m h w).1)

-- The child of a new runner may be added once its runner stands in a slot.
IsOwned-launched :
    (c d : Core)
    → IsOwned c
    → d.live ≡ c.next_id ∷ c.live
    → d.next_id ≡ c.next_id + 1
    → Installed d c.next_id
    → All (Installed d) c.live
    → IsOwned d
IsOwned-launched c d o l n new old = record {
  owned = rw l (new, old);
  fresh = rw l (omega arith, All-later c.next_id d.next_id c.live (omega arith) o.fresh);
  distinct = rw l (All-below c.next_id c.live o.fresh, o.distinct);
}

next_only :
    (c d : Core)
    → IsOwned c
    → d.runner ≡ c.runner
    → d.fg_runner ≡ c.fg_runner
    → d.live ≡ c.live
    → d.next_id ≡ c.next_id + 1
    → IsOwned d
next_only c d o b f l n = record {
  owned = rw l (All-map (Installed c) (Installed d) c.live (λ i. rw (b, f) (λ h. h)) o.owned);
  fresh = rw l (All-later c.next_id d.next_id c.live (omega arith) o.fresh);
  distinct = rw l o.distinct;
}

-- The state before a launch is kept beside the state after it.
abbrev pub After : Option Runner → Option Runner → Mode → Option Runner → Core → Type 0
After b f m o d = (c : Core) × Slots b f c × Launched m c o d

pub Holds-launch :
    (b f : Option Runner) (m : Mode) (h : Hook) → Holds (Slots b f) (launch m h) (After b f m)
Holds-launch b f m h = record { at = λ w p. (core w, p, launch-Launched m h w) }

pub IsOwned-installed_fg :
    (b : Option Runner) (m : Mode) (r : Runner) (d : Core)
    → After b none m (some r) d
    → IsOwned (record d { fg_runner = some r })
IsOwned-installed_fg b m r d (c, (o, pb, pf), (er, ef, el, en, ei, em)) =
    IsOwned-launched c (record d { fg_runner = some r }) o el en (inr (ground arith))
      (All-map (Installed c) _ c.live (λ i. rw (er, pf) (fg_filled i)) o.owned)
  where
    fg_filled :
        (i : ℕ)
        → (holds i c.runner ≡ true) ⊎ (holds i none ≡ true)
        → (holds i c.runner ≡ true) ⊎ (holds i (some r) ≡ true)
    fg_filled i (inl h) = inl h
    fg_filled i (inr h) = cc

pub IsOwned-installed_base :
    (f : Option Runner) (m : Mode) (r : Runner) (d : Core)
    → After none f m (some r) d
    → IsOwned (record d { runner = some r })
IsOwned-installed_base f m r d (c, (o, pb, pf), (er, ef, el, en, ei, em)) =
    IsOwned-launched c (record d { runner = some r }) o el en (inl (ground arith))
      (All-map (Installed c) _ c.live (λ i. rw (ef, pb) (base_filled i)) o.owned)
  where
    base_filled :
        (i : ℕ)
        → (holds i none ≡ true) ⊎ (holds i c.fg_runner ≡ true)
        → (holds i (some r) ≡ true) ⊎ (holds i c.fg_runner ≡ true)
    base_filled i (inl h) = cc
    base_filled i (inr h) = inr h

pub Slots-not_launched :
    (b f : Option Runner) (m : Mode) (d : Core) → After b f m none d → Slots b f d
Slots-not_launched b f m d (c, (o, pb, pf), (er, ef, el, en)) =
    (next_only c d o er ef el en, er ∙ pb, ef ∙ pf)
