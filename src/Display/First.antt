-- ===== src/Display/First.antt =====
-- The two readings of what `xrandr` prints agree on the first connected output (agent/display.go).
use sideshow.Base.{
  ◌≡◌, refl, sym, ap, subst, ◌∙◌, arith, true, false, ◌&&◌, Option, none, some, List, [], ◌∷◌, All,
  if◌then◌else◌, inl, inr, Bool-cases, Text, text, text_eq, is_empty, fields, fields_not_empty,
  split_on, contains,
}
use mathlib.Core.Option.{map}
use sideshow.Display.Xrandr.{
  FirstOutput, XOutput, is_geometry, is_header, connected, with_words, output_of, with_marks,
  with_mode, outputs_from, parse_xrandr_outputs, first_marks, first_mode, first_header, first_from,
  parse_xrandr,
}

-- What both readings have of an output.
abbrev pub view : XOutput → FirstOutput
view o = record { name = o.name; current = o.current; preferred = o.preferred }

abbrev pub first_view : List XOutput → Option FirstOutput
first_view [] = none
first_view (o ∷ outs) = some (view o)

with_marks-view :
    (mode : Text) (ts : List Text) (o : XOutput)
    → view (with_marks mode ts o) ≡ first_marks mode ts (view o)
unfolding with_marks first_marks
with_marks-view mode [] o = refl
with_marks-view mode (t ∷ ts) o = with_marks-view mode ts (record o {
  current = if contains t (text "*") then mode else o.current;
  preferred = if contains t (text "+") then mode else o.preferred;
})

with_mode-view : (ws : List Text) (o : XOutput) → view (with_mode ws o) ≡ first_mode ws (view o)
with_mode-view [] o = refl
with_mode-view (mode ∷ marks) o = with_marks-view mode marks o

with_marks-name :
    (mode : Text) (ts : List Text) (o : XOutput) → (with_marks mode ts o).name ≡ o.name
unfolding with_marks
with_marks-name mode [] o = refl
with_marks-name mode (t ∷ ts) o = with_marks-name mode ts (record o {
  current = if contains t (text "*") then mode else o.current;
  preferred = if contains t (text "+") then mode else o.preferred;
})

with_mode-name : (ws : List Text) (o : XOutput) → (with_mode ws o).name ≡ o.name
with_mode-name [] o = refl
with_mode-name (mode ∷ marks) o = with_marks-name mode marks o

with_words-view : (ts : List Text) (o : XOutput) → view (with_words ts o) ≡ view o
unfolding with_words
with_words-view [] o = refl
with_words-view (t ∷ ts) o =
    let o' : XOutput =
      if text_eq t (text "primary")
      then record o { primary = true }
      else if is_empty o.geometry && is_geometry t
      then record o { geometry = t }
      else o in
    let same : view o' ≡ view o = ground arith in with_words-view ts o' ∙ same

-- A header changes nothing once an output is found.
first_header_found :
    (h : Option (Text × List Text)) (o : FirstOutput)
    → is_empty o.name ≡ false
    → first_header h o ≡ (o, false)
first_header_found none o e = refl
first_header_found (some (name, words)) o e = rw e refl

first_from_passed :
    (lines : List Text) (o : FirstOutput) → is_empty o.name ≡ false → first_from lines o false ≡ o
unfolding first_from
first_from_passed [] o e = refl
first_from_passed ([] ∷ lines) o e = first_from_passed lines o e
first_from_passed ((c ∷ line) ∷ lines) o e = elim (Bool-cases (is_header (c ∷ line))) [
  | inl h ↦
      rw (h, first_header_found (connected (fields (c ∷ line))) o e) (first_from_passed lines o e)
  | inr h ↦ rw h (first_from_passed lines o e)
]

first_from_reading :
    (lines : List Text) (x : XOutput)
    → is_empty x.name ≡ false
    → first_view (outputs_from lines (some x)) ≡ some (first_from lines (view x) true)
unfolding first_from outputs_from
first_from_reading [] x e = refl
first_from_reading ([] ∷ lines) x e = first_from_reading lines x e
first_from_reading ((c ∷ line) ∷ lines) x e =
    let ws = fields (c ∷ line) in
    elim (Bool-cases (is_header (c ∷ line))) [
      | inl h ↦
          rw (h, first_header_found (connected ws) (view x) e, first_from_passed lines (view x) e)
            refl
      | inr h ↦
          let named = subst (λ n. is_empty n ≡ false) (sym (with_mode-name ws x)) e in
          rw (h, sym (with_mode-view ws x)) (first_from_reading lines (with_mode ws x) named)
    ]

first_marks-name :
    (mode : Text) (ts : List Text) (o : FirstOutput) → (first_marks mode ts o).name ≡ o.name
unfolding first_marks
first_marks-name mode [] o = refl
first_marks-name mode (t ∷ ts) o = first_marks-name mode ts (record o {
  current = if contains t (text "*") then mode else o.current;
  preferred = if contains t (text "+") then mode else o.preferred;
})

first_mode-name : (ws : List Text) (o : FirstOutput) → (first_mode ws o).name ≡ o.name
first_mode-name [] o = refl
first_mode-name (mode ∷ marks) o = first_marks-name mode marks o

first_from-name :
    (lines : List Text) (o : FirstOutput)
    → is_empty o.name ≡ false
    → (first_from lines o true).name ≡ o.name
unfolding first_from
first_from-name [] o e = refl
first_from-name ([] ∷ lines) o e = first_from-name lines o e
first_from-name ((c ∷ line) ∷ lines) o e =
    let ws = fields (c ∷ line) in
    elim (Bool-cases (is_header (c ∷ line))) [
      | inl h ↦ rw (h, first_header_found (connected ws) o e, first_from_passed lines o e) refl
      | inr h ↦
          let same = first_mode-name ws o in
          let named = subst (λ n. is_empty n ≡ false) (sym same) e in
          rw h (first_from-name lines (first_mode ws o) named ∙ same)
    ]

abbrev nothing_read : FirstOutput
nothing_read = record { name = []; current = []; preferred = [] }

abbrev when_named : FirstOutput → Option FirstOutput
when_named o = if is_empty o.name then none else some o

-- The name in the header of a connected output is a word.
connected_named :
    (ws : List Text) (name : Text) (words : List Text)
    → All (λ w. is_empty w ≡ false) ws
    → connected ws ≡ some (name, words)
    → is_empty name ≡ false
connected_named [] name words h e = absurd cc
connected_named (n ∷ []) name words h e = absurd cc
connected_named (n ∷ (s ∷ ws)) name words h e = elim (Bool-cases (text_eq s (text "connected"))) [
  | inl b ↦ let same : n ≡ name = ground arith in subst (λ k. is_empty k ≡ false) same h.0
  | inr b ↦ absurd (ground arith)
]

when_named_found :
    (lines : List Text) (o : FirstOutput)
    → is_empty o.name ≡ false
    → when_named (first_from lines o true) ≡ some (first_from lines o true)
when_named_found lines o e =
    let named = subst (λ n. is_empty n ≡ false) (sym (first_from-name lines o e)) e in rw named refl

abbrev Agrees : List Text → Type 0
Agrees lines =
    when_named (first_from lines nothing_read false) ≡ first_view (outputs_from lines none)

header-Agrees :
    (h : Option (Text × List Text)) (lines : List Text)
    → ((name : Text) (words : List Text) → h ≡ some (name, words) → is_empty name ≡ false)
    → Agrees lines
    → let f = first_header h nothing_read in
      when_named (first_from lines f.0 f.1) ≡ first_view (outputs_from lines (map output_of h))
header-Agrees none lines named later = later
header-Agrees (some (name, words)) lines named later =
    let o : XOutput = record {
      name = name;
      primary = false;
      geometry = [];
      current = [];
      preferred = [];
    } in
    let x : XOutput = with_words words o in
    let same : view x ≡ view o = with_words-view words o in
    let here = named name words refl in
    let x_named : is_empty x.name ≡ false =
      subst (λ k. is_empty k ≡ false) (sym (ap (λ v. v.name) same)) here in
    when_named_found lines (view o) here
    ∙ ap (λ v. some (first_from lines v true)) (sym same)
    ∙ sym (first_from_reading lines x x_named)

lines-Agrees : (lines : List Text) → Agrees lines
unfolding first_from outputs_from
lines-Agrees [] = refl
lines-Agrees ([] ∷ lines) = lines-Agrees lines
lines-Agrees ((c ∷ line) ∷ lines) =
    let ws = fields (c ∷ line) in
    elim (Bool-cases (is_header (c ∷ line))) [
      | inl h ↦ rw h (
          header-Agrees (connected ws) lines
            (λ name words e. connected_named ws name words (fields_not_empty (c ∷ line)) e)
            (lines-Agrees lines))
      | inr h ↦ rw h (lines-Agrees lines)
    ]

-- The first output that parseXrandr finds is the first of those that parseXrandrOutputs finds, with
-- the same modes, and there is none when there are none.
pub parse_xrandr-parse_xrandr_outputs :
    (s : Text) → parse_xrandr s ≡ first_view (parse_xrandr_outputs s)
unfolding parse_xrandr parse_xrandr_outputs
parse_xrandr-parse_xrandr_outputs s = lines-Agrees (split_on 10 s)
