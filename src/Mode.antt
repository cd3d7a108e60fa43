-- ===== src/Mode.antt =====
-- A display mode (agent/modes.go): the unit that the supervisor arbitrates. The type and the
-- display are strings as in the source; `kind` and `surface` are the `switch` on them.
pub mod Normal
pub mod Validate
pub mod Equivalent
pub mod Command
use sideshow.Base.{
  ℕ, Bool, true, false, ◌&&◌, ◌||◌, not, Option, none, some, List, [], ◌∷◌, Text, text, text_eq,
  is_empty, has_prefix, trim_space, to_lower, if◌then◌else◌,
}

-- A value of `map[string]any`: a string, a bool, `[]string`, `[]any` (`none` is an element that is
-- no string), the map of environment variables, or a JSON value that no code here reads.
pub data Value : Type 0 where
  str : Text → Value
  flag : Bool → Value
  strings : List Text → Value
  array : List (Option Text) → Value
  env : List (Text × Text) → Value
  other : Value

-- A map by its key; a nil map reads as an empty one.
abbrev pub Params : Type 0
Params = List (Text × Value)

pub record Mode : Type 0 where
  pub type : Text
  pub params : Params
  pub display : Text

pub data Kind : Type 0 where
  web app airplay media moonlight steamlink miracast off missing unknown : Kind

pub data Surface : Type 0 where
  compositor wayland console kms invalid : Surface

-- `switch m.Type`
unfoldable pub kind : Text → Kind
kind t =
    if text_eq t (text "web")
    then web
    else if text_eq t (text "app")
    then app
    else if text_eq t (text "airplay")
    then airplay
    else if text_eq t (text "moonlight")
    then moonlight
    else if text_eq t (text "steamlink")
    then steamlink
    else if text_eq t (text "miracast")
    then miracast
    else if text_eq t (text "media")
    then media
    else if text_eq t (text "off")
    then off
    else if is_empty t
    then missing
    else unknown

-- `switch m.Display`
unfoldable pub surface : Text → Surface
surface d =
    if text_eq d (text "compositor")
    then compositor
    else if text_eq d (text "wayland")
    then wayland
    else if text_eq d (text "console")
    then console
    else if text_eq d (text "kms")
    then kms
    else invalid

abbrev pub is_kind : Kind → Kind → Bool
is_kind web web = true
is_kind app app = true
is_kind airplay airplay = true
is_kind media media = true
is_kind moonlight moonlight = true
is_kind steamlink steamlink = true
is_kind miracast miracast = true
is_kind off off = true
is_kind missing missing = true
is_kind unknown unknown = true
is_kind _ _ = false

abbrev pub is_surface : Surface → Surface → Bool
is_surface compositor compositor = true
is_surface wayland wayland = true
is_surface console console = true
is_surface kms kms = true
is_surface invalid invalid = true
is_surface _ _ = false

-- `m.Params[key]`
unfoldable pub param : Text → Params → Option Value
param key [] = none
param key ((k, v) ∷ rest) = if text_eq k key then some v else param key rest

-- `m.Params[key] = v`
unfoldable pub set_param : Text → Value → Params → Params
set_param key v [] = (key, v) ∷ []
set_param key v ((k, w) ∷ rest) =
    if text_eq k key then (key, v) ∷ rest else (k, w) ∷ set_param key v rest

abbrev pub as_str : Option Value → Text
as_str (some (str s)) = s
as_str _ = []

abbrev pub as_flag : Bool → Option Value → Bool
as_flag def (some (flag b)) = b
as_flag def _ = def

abbrev pub only_strings : List (Option Text) → List Text
only_strings [] = []
only_strings (none ∷ rest) = only_strings rest
only_strings (some s ∷ rest) = s ∷ only_strings rest

abbrev pub as_argv : Option Value → List Text
as_argv (some (strings a)) = a
as_argv (some (array a)) = only_strings a
as_argv _ = []

-- `m.str(key)`, `m.boolOr(key, def)` and `m.argv()`
unfoldable pub str_of : Mode → Text → Text
str_of m key = as_str (param key m.params)

unfoldable pub bool_or : Mode → Text → Bool → Bool
bool_or m key def = as_flag def (param key m.params)

unfoldable pub argv : Mode → List Text
argv m = as_argv (param (text "argv") m.params)

abbrev pub kind_of : Mode → Kind
kind_of m = kind m.type

abbrev pub surface_of : Mode → Surface
surface_of m = surface m.display

unfoldable pub is_wayland : Mode → Bool
is_wayland m = is_kind (kind_of m) web && is_surface (surface_of m) wayland

unfoldable pub is_wayland_primary : Mode → Bool
is_wayland_primary m = is_surface (surface_of m) wayland

unfoldable pub foreground : Mode → Bool
foreground m = is_surface (surface_of m) console || is_surface (surface_of m) kms

unfoldable pub retires_when_done : Mode → Bool
retires_when_done m = is_kind (kind_of m) app || is_kind (kind_of m) media

-- `wayland_root` is `cfg.WaylandRoot`.
unfoldable pub runs_as_root : Bool → Mode → Bool
unfolding is_wayland_primary
runs_as_root wayland_root m =
    is_surface (surface_of m) kms || (is_wayland_primary m && wayland_root)

unfoldable pub uses_chrome : Mode → Bool
uses_chrome m = is_kind (kind_of m) web && not (is_surface (surface_of m) kms)

unfoldable pub is_cog_kiosk : Mode → Bool
is_cog_kiosk m = is_kind (kind_of m) web && is_surface (surface_of m) kms

unfoldable pub normalize : Mode → Mode
normalize m =
    let d = to_lower (trim_space m.display) in
    record {
      type = to_lower (trim_space m.type);
      params = m.params;
      display = if is_empty d then text "compositor" else d;
    }
