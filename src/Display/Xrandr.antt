-- ===== src/Display/Xrandr.antt =====
-- The outputs that `xrandr` prints and the arguments of a layout (agent/display.go).
use sideshow.Base.{
  ℕ, Bool, true, false, ◌&&◌, ◌||◌, not, leb, ◌==◌, Option, none, some, List, [], ◌∷◌, onto,
  if◌then◌else◌, Text, text, text_eq, is_empty, fields, split_on, contains,
}
use mathlib.Core.Option.{map}

-- `xOutput`
pub record FirstOutput : Type 0 where
  pub name : Text
  pub current : Text
  pub preferred : Text

-- `XOutput`
pub record XOutput : Type 0 where
  pub name : Text
  pub primary : Bool
  pub geometry : Text
  pub current : Text
  pub preferred : Text

-- `rotateValue`, with the empty text for a rotation that there is not
unfoldable pub rotate_value : ℕ → Text
rotate_value deg =
    if deg == 0
    then text "normal"
    else if deg == 90
    then text "right"
    else if deg == 180
    then text "inverted"
    else if deg == 270
    then text "left"
    else []

abbrev pub is_digit_char : ℕ → Bool
is_digit_char c = leb 48 c && leb c 57

abbrev pub eat_rest : Text → Text
eat_rest [] = []
eat_rest (c ∷ s) = let rest = eat_rest s in if is_digit_char c then rest else c ∷ s

-- `\d+`, and one character, at the front of a text
abbrev pub eat_digits : Option Text → Option Text
eat_digits none = none
eat_digits (some []) = none
eat_digits (some (c ∷ s)) = if is_digit_char c then some (eat_rest s) else none

abbrev pub eat : ℕ → Option Text → Option Text
eat d none = none
eat d (some []) = none
eat d (some (c ∷ s)) = if c == d then some s else none

abbrev pub eat_minus : Option Text → Option Text
eat_minus (some (c ∷ s)) = if c == 45 then some s else some (c ∷ s)
eat_minus o = o

abbrev pub is_at_end : Option Text → Bool
is_at_end (some []) = true
is_at_end _ = false

-- `geometryRe`
unfoldable pub is_geometry : Text → Bool
is_geometry s = is_at_end (
    eat_digits (
      eat_minus
        (eat 43 (eat_digits (eat_minus (eat 43 (eat_digits (eat 120 (eat_digits (some s))))))))))

-- A line that begins at the margin is the header of an output.
abbrev pub is_header : Text → Bool
is_header [] = false
is_header (c ∷ s) = not (c == 32 || c == 9)

-- The name and the further words of the header of a connected output.
abbrev pub connected : List Text → Option (Text × List Text)
connected (name ∷ (state ∷ words)) =
    if text_eq state (text "connected") then some (name, words) else none
connected _ = none

-- The words of a header after the first two.
unfoldable pub with_words : List Text → XOutput → XOutput
with_words [] o = o
with_words (t ∷ ts) o = with_words ts (
    if text_eq t (text "primary")
    then record o { primary = true }
    else if is_empty o.geometry && is_geometry t
    then record o { geometry = t }
    else o)

abbrev pub output_of : Text × List Text → XOutput
output_of (name, words) =
    with_words words
      (record { name = name; primary = false; geometry = []; current = []; preferred = [] })

-- The marks behind a mode.
unfoldable pub with_marks : Text → List Text → XOutput → XOutput
with_marks mode [] o = o
with_marks mode (t ∷ ts) o = with_marks mode ts (record o {
  current = if contains t (text "*") then mode else o.current;
  preferred = if contains t (text "+") then mode else o.preferred;
})

abbrev pub with_mode : List Text → XOutput → XOutput
with_mode [] o = o
with_mode (mode ∷ marks) o = with_marks mode marks o

-- The lines, with the connected output whose lines are read, if any.
unfoldable pub outputs_from : List Text → Option XOutput → List XOutput
outputs_from [] o = onto o []
outputs_from ([] ∷ lines) o = outputs_from lines o
outputs_from ((c ∷ line) ∷ lines) o =
    let next = outputs_from lines (map output_of (connected (fields (c ∷ line)))) in
    let same = outputs_from lines (map (with_mode (fields (c ∷ line))) o) in
    if is_header (c ∷ line) then onto o next else same

-- `parseXrandrOutputs`
unfoldable pub parse_xrandr_outputs : Text → List XOutput
parse_xrandr_outputs s = outputs_from (split_on 10 s) none

abbrev pub first_name : List XOutput → Text
first_name [] = []
first_name (o ∷ outs) = o.name

unfoldable pub flagged_name : List XOutput → Option Text
flagged_name [] = none
flagged_name (o ∷ outs) = if o.primary then some o.name else flagged_name outs

abbrev pub name_or : Option Text → Text → Text
name_or none s = s
name_or (some t) s = t

-- `parseXrandrPrimary`
unfoldable pub parse_xrandr_primary : List XOutput → Text
parse_xrandr_primary outs = name_or (flagged_name outs) (first_name outs)

unfoldable pub first_marks : Text → List Text → FirstOutput → FirstOutput
first_marks mode [] o = o
first_marks mode (t ∷ ts) o = first_marks mode ts (record o {
  current = if contains t (text "*") then mode else o.current;
  preferred = if contains t (text "+") then mode else o.preferred;
})

abbrev pub first_mode : List Text → FirstOutput → FirstOutput
first_mode [] o = o
first_mode (mode ∷ marks) o = first_marks mode marks o

abbrev pub first_header : Option (Text × List Text) → FirstOutput → FirstOutput × Bool
first_header none o = (o, false)
first_header (some (name, words)) o =
    if is_empty o.name then (record o { name = name }, true) else (o, false)

-- The lines, with the first connected output so far and whether its lines are read.
unfoldable pub first_from : List Text → FirstOutput → Bool → FirstOutput
first_from [] o reading = o
first_from ([] ∷ lines) o reading = first_from lines o reading
first_from ((c ∷ line) ∷ lines) o reading =
    let h = first_header (connected (fields (c ∷ line))) o in
    let next = first_from lines h.0 h.1 in
    let mode = first_from lines (first_mode (fields (c ∷ line)) o) true in
    let skipped = first_from lines o false in
    if is_header (c ∷ line) then next else if reading then mode else skipped

-- `parseXrandr`, with none where there is no connected output
unfoldable pub parse_xrandr : Text → Option FirstOutput
parse_xrandr s =
    let o = first_from (split_on 10 s) (record { name = []; current = []; preferred = [] }) false in
    if is_empty o.name then none else some o

abbrev pub turned_on : Text → List Text
turned_on primary = text "--output" ∷ primary ∷ text "--auto" ∷ text "--primary" ∷ []

unfoldable pub mirrored : Text → List Text → List (List Text)
mirrored primary [] = []
mirrored primary (o ∷ others) =
    (text "--output" ∷ o ∷ text "--auto" ∷ text "--same-as" ∷ primary ∷ [])
    ∷ mirrored primary others

unfoldable pub extended : Text → List Text → List (List Text)
extended prev [] = []
extended prev (o ∷ others) =
    (text "--output" ∷ o ∷ text "--auto" ∷ text "--right-of" ∷ prev ∷ []) ∷ extended o others

-- `xrandrLayoutArgs`, with none for its errors
unfoldable pub xrandr_layout_args : Text → Text → List Text → Option (List (List Text))
xrandr_layout_args mode primary others =
    if is_empty primary
    then none
    else if text_eq mode (text "mirror")
    then some (turned_on primary ∷ mirrored primary others)
    else if text_eq mode (text "extend")
    then some (turned_on primary ∷ extended primary others)
    else none
