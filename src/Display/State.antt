-- ===== src/Display/State.antt =====
-- The rotation, the layout and the sleep of the outputs (agent/displaystate.go), without the zoom.
-- What the programs `xrandr` and `wlr-randr` answer, and what is on screen, is a `Seat`.
use sideshow.Base.{
  ℕ, Bool, false, ◌&&◌, ◌||◌, not, ◌==◌, Option, none, some, is_some, List, [], ◌∷◌, length,
  keep_if, if◌then◌else◌, Text, text, text_eq, is_empty,
}
use sideshow.Display.Xrandr.{
  FirstOutput, XOutput, rotate_value, parse_xrandr, parse_xrandr_outputs, parse_xrandr_primary,
}

-- `rotations` and `asleeps`, maps from the names of outputs; the empty name is the primary one that
-- is not yet known.
abbrev pub Rotations : Type 0
Rotations = List (Text × ℕ)

-- `persistedDisplay`. A negative rotation is one that there is not.
pub record Kept : Type 0 where
  pub rotation : ℕ
  pub rotations : Rotations
  pub layout : Text

pub record Disk : Type 0 where
  pub has_path : Bool
  pub writable : Bool
  pub file : Option Kept

-- `Display`
pub record Display : Type 0 where
  pub rotations : Rotations
  pub asleeps : List (Text × Bool)
  pub primary : Text
  pub layout : Text
  pub disk : Disk

-- What is asked outside: whether the Wayland kiosk or a foreground mode is on screen, what the
-- programs list, which arguments they accept, and whether the primary output is a CEC TV.
pub record Seat : Type 0 where
  pub wayland : Bool
  pub foreground : Bool
  pub listing : Option Text
  pub accepts : List Text → Bool
  pub wlr_listing : Option Text
  pub wlr_accepts : List Text → Bool
  pub cec : Bool

pub data Call : Type 0 where
  xrandr wlr_randr : List Text → Call
  cec_on cec_off bounce : Call

pub data DisplayError : Type 0 where
  bad_rotation bad_layout on_wayland in_foreground not_rotated not_powered no_outputs one_output
        layout_args layout_failed :
      DisplayError

abbrev pub Outcome : Type 0
Outcome = Option DisplayError × (Display × List Call)

module _ {ℓ} {A : Type ℓ} where
  unfoldable pub lookup : Text → List (Text × A) → Option A
  lookup k [] = none
  lookup k ((n, a) ∷ rest) = if text_eq n k then some a else lookup k rest

  unfoldable pub put : Text → A → List (Text × A) → List (Text × A)
  put k b [] = (k, b) ∷ []
  put k b ((n, a) ∷ rest) =
      let later = put k b rest in if text_eq n k then (k, b) ∷ rest else (n, a) ∷ later

  unfoldable pub remove : Text → List (Text × A) → List (Text × A)
  remove k m = keep_if (λ e. not (text_eq e.0 k)) m

abbrev pub or_zero : Option ℕ → ℕ
or_zero none = 0
or_zero (some n) = n

abbrev pub or_false : Option Bool → Bool
or_false none = false
or_false (some b) = b

abbrev pub is_rotation : ℕ → Bool
is_rotation deg = not (is_empty (rotate_value deg))

abbrev pub rotation_or : Option ℕ → ℕ → ℕ
rotation_or none n = n
rotation_or (some m) n = m

-- `primaryRotationLocked`
unfoldable pub primary_rotation : Display → ℕ
primary_rotation d =
    rotation_or (if is_empty d.primary then none else lookup d.primary d.rotations)
      (or_zero (lookup [] d.rotations))

-- `save`
unfoldable pub save : Display → Display
save d =
    if d.disk.has_path && d.disk.writable
    then (record d {
      disk = record d.disk {
        file =
            some (record {
              rotation = primary_rotation d;
              rotations = d.rotations;
              layout = d.layout;
            });
      };
    })
    else d

unfoldable pub loaded_rotations : Rotations → Rotations
loaded_rotations [] = []
loaded_rotations ((n, deg) ∷ rest) =
    let later = loaded_rotations rest in if is_rotation deg then put n deg later else later

abbrev pub rotations_of : Kept → Rotations
rotations_of k =
    if not (length k.rotations == 0)
    then loaded_rotations k.rotations
    else if is_rotation k.rotation && not (k.rotation == 0)
    then ([], k.rotation) ∷ []
    else []

abbrev pub layout_of : Text → Text
layout_of l = if text_eq l (text "mirror") || text_eq l (text "extend") then l else text "single"

abbrev pub with_kept : Option Kept → Display → Display
with_kept none d = d
with_kept (some k) d = record d { rotations = rotations_of k; layout = layout_of k.layout }

-- `NewDisplay` with `load`
unfoldable pub new_display : Disk → Display
new_display disk =
    with_kept (if disk.has_path then disk.file else none)
      (record { rotations = []; asleeps = []; primary = []; layout = text "single"; disk = disk })

abbrev pub listed : Option Text → List XOutput
listed none = []
listed (some s) = parse_xrandr_outputs s

-- `enumerate`
unfoldable pub enumerate : Seat → List XOutput
enumerate seat = if seat.wayland then [] else listed seat.listing

-- The rotation under the empty name goes to the primary output, unless that has one.
abbrev pub resolved : Text → Option ℕ → Rotations → Rotations
resolved primary none rotations = rotations
resolved primary (some deg) rotations =
    remove [] (if is_some (lookup primary rotations) then rotations else put primary deg rotations)

abbrev pub with_primary : Text → Display → Display
with_primary p d = record d {
  primary = p;
  rotations = if is_empty p then d.rotations else resolved p (lookup [] d.rotations) d.rotations;
}

-- `refreshOutputs`
unfoldable pub refresh_outputs : Seat → Display → Display
refresh_outputs seat d =
    if length (enumerate seat) == 0
    then d
    else with_primary (parse_xrandr_primary (enumerate seat)) d

-- `PrimaryName`, with what it leaves; the name is then in the field.
unfoldable pub primary_name : Seat → Display → Display
primary_name seat d = if is_empty d.primary then refresh_outputs seat d else d

abbrev pub rotate_args : Text → ℕ → List Text
rotate_args output deg = text "--output" ∷ output ∷ text "--rotate" ∷ rotate_value deg ∷ []

abbrev pub first_listed : Option Text → Option FirstOutput
first_listed none = none
first_listed (some s) = parse_xrandr s

-- The output that is addressed: the first connected one for the empty name.
abbrev pub addressed : Seat → Text → Option Text
addressed seat [] = elim (first_listed seat.listing) [ none ↦ none | some o ↦ some o.name ]
addressed seat (c ∷ name) = some (c ∷ name)

abbrev pub run_args : Seat → Option (List Text) → Bool × List Call
run_args seat none = (false, [])
run_args seat (some args) = (seat.accepts args, xrandr args ∷ [])

abbrev pub args_for : Option Text → (Text → List Text) → Option (List Text)
args_for none f = none
args_for (some output) f = some (f output)

-- `applyRotationOutput` with `applyRotation`
unfoldable pub apply_rotation : Seat → Text → ℕ → Bool × List Call
apply_rotation seat output deg =
    if is_rotation deg
    then run_args seat (args_for (addressed seat output) (λ o. rotate_args o deg))
    else (false, [])

-- `setOutputNamed` with `setOutput`
unfoldable pub set_output : Seat → Text → Bool → Bool × List Call
set_output seat output on = run_args seat (
    args_for (addressed seat output)
      (λ o. text "--output" ∷ o ∷ (if on then text "--auto" else text "--off") ∷ []))
