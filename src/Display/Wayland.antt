-- ===== src/Display/Wayland.antt =====
-- The outputs that `wlr-randr` prints, and which of them are turned off (agent/display.go).
use sideshow.Base.{
  ◌≡◌, refl, subst, ◌∙◌, arith, Bool, true, false, ◌&&◌, ◌||◌, not, Option, none, some, List, [],
  ◌∷◌, onto, keep_if, All, if◌then◌else◌, inl, inr, Bool-cases, Text, text, text_eq, text_eq_refl,
  text_eq_iff, text_eq_sym, is_empty, fields, split_on, contains,
}
use sideshow.Display.Xrandr.{is_header}

abbrev pub first_word : List Text → Option Text
first_word [] = none
first_word (w ∷ ws) = some w

abbrev pub header_name : Text → Option Text
header_name line = if is_header line then first_word (fields line) else none

unfoldable pub header_names : List Text → List Text
header_names [] = []
header_names (line ∷ lines) = onto (header_name line) (header_names lines)

-- `parseWlrOutputs`
unfoldable pub parse_wlr_outputs : Text → List Text
parse_wlr_outputs s = header_names (split_on 10 s)

-- `res[name] = on`
unfoldable pub put_enabled : Text → Bool → List (Text × Bool) → List (Text × Bool)
put_enabled name on [] = (name, on) ∷ []
put_enabled name on ((n, b) ∷ rest) =
    let later = put_enabled name on rest in
    if text_eq n name then (name, on) ∷ rest else (n, b) ∷ later

abbrev pub name_after : Option Text → Text → Text
name_after none cur = cur
name_after (some n) cur = n

-- The lines, with the output whose lines are read.
unfoldable pub enabled_from : List Text → Text → List (Text × Bool) → List (Text × Bool)
enabled_from [] cur res = res
enabled_from ([] ∷ lines) cur res = enabled_from lines cur res
enabled_from ((c ∷ line) ∷ lines) cur res =
    let header = enabled_from lines (name_after (first_word (fields (c ∷ line))) cur) res in
    let says = enabled_from lines cur (put_enabled cur (contains (c ∷ line) (text "yes")) res) in
    let other = enabled_from lines cur res in
    if is_header (c ∷ line)
    then header
    else if not (is_empty cur) && contains (c ∷ line) (text "Enabled:")
    then says
    else other

-- `enabledWaylandOutputs`
unfoldable pub enabled_wayland_outputs : Text → List (Text × Bool)
enabled_wayland_outputs s = enabled_from (split_on 10 s) [] []

unfoldable pub is_listed : Text → List Text → Bool
is_listed n [] = false
is_listed n (m ∷ names) = text_eq m n || is_listed n names

-- `enabled[name]`
unfoldable pub is_enabled : Text → List (Text × Bool) → Bool
is_enabled name [] = false
is_enabled name ((n, b) ∷ rest) = if text_eq n name then b else is_enabled name rest

-- Whether an output is on that is not listed.
unfoldable pub has_keeper : List Text → List (Text × Bool) → Bool
has_keeper names [] = false
has_keeper names ((n, b) ∷ rest) = (b && not (is_listed n names)) || has_keeper names rest

-- `waylandOutputsToDisable`
unfoldable pub wayland_outputs_to_disable : List (Text × Bool) → List Text → List Text
wayland_outputs_to_disable enabled names =
    if has_keeper names enabled then keep_if (λ n. is_enabled n enabled) names else []

nothing_listed : (n : Text) → is_listed n [] ≡ false
unfolding is_listed
nothing_listed n = refl

-- Each output stands once in what was read.
abbrev pub IsMap : List (Text × Bool) → Type 0
IsMap [] = Unit
IsMap ((n, b) ∷ rest) = All (λ o. text_eq o.0 n ≡ false) rest × IsMap rest

is_listed-keep_if :
    (n : Text) (p : Text → Bool) (names : List Text)
    → is_listed n names ≡ false
    → is_listed n (keep_if p names) ≡ false
unfolding is_listed
is_listed-keep_if n p [] h = refl
is_listed-keep_if n p (m ∷ names) h = ground (arith, is_listed-keep_if n p names)

enabled_differs :
    (k n : Text) (rest : List (Text × Bool))
    → All (λ o. text_eq o.0 n ≡ false) rest
    → is_enabled k rest ≡ true
    → text_eq n k ≡ false
unfolding is_enabled
enabled_differs k n [] h e = absurd cc
enabled_differs k n ((m, b) ∷ rest) h e = elim (Bool-cases (text_eq m k)) [
  | inl s ↦ text_eq_sym n k ∙ subst (λ x. text_eq x n ≡ false) ((text_eq_iff m k).0 s) h.0
  | inr s ↦ enabled_differs k n rest h.1 (ground arith)
]

-- An output that is on and not listed is found.
keeper :
    (names : List Text) (enabled : List (Text × Bool))
    → IsMap enabled
    → has_keeper names enabled ≡ true
    → (n : Text) × (is_enabled n enabled ≡ true) × (is_listed n names ≡ false)
unfolding has_keeper is_enabled
keeper names [] u h = absurd cc
keeper names ((n, b) ∷ rest) u h = elim (Bool-cases (b && not (is_listed n names))) [
  | inl e ↦ (n, rw (text_eq_refl n) (ground (arith, e)), ground (arith, e))
  | inr e ↦
      let k = keeper names rest u.1 (ground (arith, h, e)) in
      (k.0, rw (enabled_differs k.0 n rest u.0 k.1) k.1, k.2)
]

put_enabled-All :
    (k name : Text) (on : Bool) (res : List (Text × Bool))
    → All (λ o. text_eq o.0 k ≡ false) res
    → text_eq name k ≡ false
    → All (λ o. text_eq o.0 k ≡ false) (put_enabled name on res)
unfolding put_enabled
put_enabled-All k name on [] h d = (d, tt)
put_enabled-All k name on ((n, b) ∷ rest) h d = elim (Bool-cases (text_eq n name)) [
  | inl e ↦ rw e (d, h.1)
  | inr e ↦ rw e (h.0, put_enabled-All k name on rest h.1 d)
]

put_enabled-IsMap :
    (name : Text) (on : Bool) (res : List (Text × Bool))
    → IsMap res
    → IsMap (put_enabled name on res)
unfolding put_enabled
put_enabled-IsMap name on [] u = (tt, tt)
put_enabled-IsMap name on ((n, b) ∷ rest) u = elim (Bool-cases (text_eq n name)) [
  | inl e ↦
      rw e (subst (λ x. All (λ o. text_eq o.0 x ≡ false) rest) ((text_eq_iff n name).0 e) u.0, u.1)
  | inr e ↦ rw e (
    put_enabled-All n name on rest u.0 (text_eq_sym name n ∙ e),
    put_enabled-IsMap name on rest u.1,
  )
]

enabled_from-IsMap :
    (lines : List Text) (cur : Text) (res : List (Text × Bool))
    → IsMap res
    → IsMap (enabled_from lines cur res)
unfolding enabled_from
enabled_from-IsMap [] cur res u = u
enabled_from-IsMap ([] ∷ lines) cur res u = enabled_from-IsMap lines cur res u
enabled_from-IsMap ((c ∷ line) ∷ lines) cur res u = elim (Bool-cases (is_header (c ∷ line))) [
  | inl h ↦ rw h (enabled_from-IsMap lines (name_after (first_word (fields (c ∷ line))) cur) res u)
  | inr h ↦ elim (Bool-cases (not (is_empty cur) && contains (c ∷ line) (text "Enabled:"))) [
    | inl e ↦
        let on = contains (c ∷ line) (text "yes") in
        rw (h, e)
          (enabled_from-IsMap lines cur (put_enabled cur on res) (put_enabled-IsMap cur on res u))
    | inr e ↦ rw (h, e) (enabled_from-IsMap lines cur res u)
  ]
]

-- When an output is on, one that is on is not among those that are turned off, whatever outputs are
-- listed.
pub wayland_outputs_to_disable_keeps :
    (s n : Text) (names : List Text)
    → let enabled = enabled_wayland_outputs s in
      is_enabled n enabled ≡ true
      → (k : Text) × (is_enabled k enabled ≡ true)
        × (is_listed k (wayland_outputs_to_disable enabled names) ≡ false)
unfolding enabled_wayland_outputs wayland_outputs_to_disable
wayland_outputs_to_disable_keeps s n names on =
    let enabled = enabled_from (split_on 10 s) [] [] in
    elim (Bool-cases (has_keeper names enabled)) [
      | inl h ↦
          let k = keeper names enabled (enabled_from-IsMap (split_on 10 s) [] [] tt) h in
          rw h (k.0, k.1, is_listed-keep_if k.0 (λ x. is_enabled x enabled) names k.2)
      | inr h ↦ rw h (n, on, nothing_listed n)
    ]
