-- ===== src/Display/Stuck.antt =====
-- A sleep that no call of `Screen` ends (agent/displaystate.go).
use sideshow.Base.{
  ℕ, ◌≡◌, refl, arith, Bool, true, false, some, List, [], ◌∷◌, inl, inr, Bool-cases, Text, text_eq,
  is_empty,
}
use sideshow.Display.State.{Display, Seat, lookup, put, primary_name}
use sideshow.Display.Ops.{power_output, wake, sleep, screen_target, screen, asleep}

-- The primary output is known, and a sleep stands under the empty name.
abbrev pub IsStuck : Display → Type 0
IsStuck d = (lookup [] d.asleeps ≡ some true) × (is_empty d.primary ≡ false)

lookup-put_other :
    (c : ℕ) (target : Text) (b : Bool) (m : List (Text × Bool))
    → lookup [] m ≡ some true
    → lookup [] (put (c ∷ target) b m) ≡ some true
unfolding lookup put text_eq
lookup-put_other c target b [] h = absurd cc
lookup-put_other c target b (([], a) ∷ rest) h = h
lookup-put_other c target b ((d ∷ n, a) ∷ rest) h =
    elim (Bool-cases (text_eq (d ∷ n) (c ∷ target))) [
      | inl e ↦ rw e h
      | inr e ↦ rw e (lookup-put_other c target b rest h)
    ]

pub IsStuck-asleep : (d : Display) → IsStuck d → asleep d ≡ true
unfolding asleep
IsStuck-asleep d h = rw h.0 (ground arith)

wake-IsStuck :
    (seat : Seat) (cec_ok : Bool) (c : ℕ) (target : Text) (d : Display)
    → IsStuck d
    → IsStuck (wake seat cec_ok (c ∷ target) d).1.0
wake-IsStuck seat cec_ok c target d h =
    elim (Bool-cases (power_output seat cec_ok (c ∷ target) true).0) [
      | inl b ↦ rw b (lookup-put_other c target false d.asleeps h.0, h.1)
      | inr b ↦ rw b h
    ]

sleep-IsStuck :
    (seat : Seat) (cec_ok : Bool) (c : ℕ) (target : Text) (d : Display)
    → IsStuck d
    → IsStuck (sleep seat cec_ok (c ∷ target) d).1.0
sleep-IsStuck seat cec_ok c target d h =
    elim (Bool-cases (power_output seat cec_ok (c ∷ target) false).0) [
      | inl b ↦ rw b (lookup-put_other c target true d.asleeps h.0, h.1)
      | inr b ↦ rw b h
    ]

screen_target-IsStuck :
    (seat : Seat) (on : Bool) (target : Text) (d : Display)
    → IsStuck d
    → is_empty target ≡ false
    → IsStuck (screen_target seat on target d).1.0
unfolding primary_name
screen_target-IsStuck seat on [] d h t = absurd cc
screen_target-IsStuck seat true (c ∷ target) d h t = rw h.1 (wake-IsStuck seat _ c target d h)
screen_target-IsStuck seat false (c ∷ target) d h t = rw h.1 (sleep-IsStuck seat _ c target d h)

pub screen-IsStuck :
    (seat : Seat) (output : Text) (on : Bool) (d : Display)
    → IsStuck d
    → IsStuck (screen seat output on d).1.0
unfolding screen primary_name
screen-IsStuck seat [] on d h = rw h.1 (screen_target-IsStuck seat on d.primary d h h.1)
screen-IsStuck seat (c ∷ output) on d h = screen_target-IsStuck seat on (c ∷ output) d h refl
