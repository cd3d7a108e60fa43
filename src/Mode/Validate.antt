-- ===== src/Mode/Validate.antt =====
-- `validate` and `isMediaURL` (agent/modes.go): each error of the source is a constructor.
use sideshow.Base.{
  ◌≡◌, refl, ◌↔◌, ◌⊎◌, Bool, true, false, ◌&&◌, ◌||◌, not, Option, none, some, List, [], ◌∷◌, Text,
  text, is_empty, has_prefix, arith,
}
use sideshow.Mode.{
  Mode, Kind, web, app, airplay, media, moonlight, steamlink, miracast, off, missing, unknown,
  Surface, compositor, wayland, console, kms, invalid, is_kind, is_surface, kind_of, surface_of,
  str_of, argv,
}

pub data ModeError : Type 0 where
  bad_display wayland_type kms_type web_display web_no_url web_scheme app_no_argv : ModeError
  airplay_display moonlight_display steamlink_display miracast_display media_display : ModeError
  media_source media_scheme media_path missing_type unknown_type : ModeError

unfoldable pub is_web_url : Text → Bool
is_web_url u = has_prefix u (text "http://") || has_prefix u (text "https://")

unfoldable pub is_media_url : Text → Bool
is_media_url u =
    has_prefix u (text "http://")
    || has_prefix u (text "https://")
    || has_prefix u (text "rtsp://")
    || has_prefix u (text "rtmp://")
    || has_prefix u (text "file://")

-- `if s != want { return err }`
abbrev require : Bool → ModeError → Option ModeError → Option ModeError
require true e next = next
require false e next = some e

abbrev is_nil : List Text → Bool
is_nil [] = true
is_nil (a ∷ rest) = false

-- `strings.HasPrefix(path, "/")`
unfoldable pub is_absolute : Text → Bool
is_absolute p = has_prefix p (text "/")

-- The second `switch`, on the type. The values are `m.str("url")`, `m.str("path")`, `m.argv()`.
unfoldable pub validate_kind : Kind → Surface → Text → Text → List Text → Option ModeError
validate_kind web s url path args =
    require (is_surface s compositor || is_surface s wayland || is_surface s kms) web_display
      (require (not (is_empty url)) web_no_url (require (is_web_url url) web_scheme none))
validate_kind app s url path args = require (not (is_nil args)) app_no_argv none
validate_kind airplay s url path args =
    require (is_surface s compositor || is_surface s kms) airplay_display none
validate_kind moonlight s url path args = require (is_surface s compositor) moonlight_display none
validate_kind steamlink s url path args = require (is_surface s compositor) steamlink_display none
validate_kind miracast s url path args = require (is_surface s compositor) miracast_display none
validate_kind media s url path args =
    require (is_surface s compositor || is_surface s kms) media_display (
      require (not (is_empty url && is_empty path || not (is_empty url) && not (is_empty path)))
        media_source
        (require (is_empty url || is_media_url url) media_scheme
          (require (is_empty path || is_absolute path) media_path none)))
validate_kind off s url path args = none
validate_kind missing s url path args = some missing_type
validate_kind unknown s url path args = some unknown_type

validate_at : Kind → Surface → Text → Text → List Text → Option ModeError
unfolding validate_kind
validate_at k s url path args = require (not (is_surface s invalid)) bad_display (
    require (not (is_surface s wayland) || is_kind k web || is_kind k app) wayland_type (
      require
        (not (is_surface s kms)
          || is_kind k media
          || is_kind k airplay
          || is_kind k app
          || is_kind k web)
        kms_type (validate_kind k s url path args)))

unfoldable pub validate : Mode → Option ModeError
unfolding validate_at
validate m =
    validate_at (kind_of m) (surface_of m) (str_of m (text "url")) (str_of m (text "path")) (argv m)

-- The surfaces that a type can be shown on.
pub data Supported : Kind → Surface → Type 0 where
  web_x11 : Supported web compositor
  web_labwc : Supported web wayland
  web_cog : Supported web kms
  app_x11 : Supported app compositor
  app_labwc : Supported app wayland
  app_tty : Supported app console
  app_kms : Supported app kms
  airplay_x11 : Supported airplay compositor
  airplay_kms : Supported airplay kms
  media_x11 : Supported media compositor
  media_kms : Supported media kms
  moonlight_x11 : Supported moonlight compositor
  steamlink_x11 : Supported steamlink compositor
  miracast_x11 : Supported miracast compositor
  off_x11 : Supported off compositor
  off_tty : Supported off console

-- What a mode of the type must say: a web address, a program, or one media source.
abbrev pub Content : Kind → Text → Text → List Text → Type 0
Content web url path args = is_web_url url ≡ true
Content app url path args = (a : Text) × (rest : List Text) × (args ≡ a ∷ rest)
Content media url path args =
    ((is_media_url url ≡ true) × (path ≡ [])) ⊎ ((url ≡ []) × (is_absolute path ≡ true))
Content _ _ _ _ = Unit

pub record WellFormed (m : Mode) : Type 0 where
  pub supported : Supported (kind_of m) (surface_of m)
  pub content : Content (kind_of m) (str_of m (text "url")) (str_of m (text "path")) (argv m)

ruleset matrix = (
  web_x11, web_labwc, web_cog, app_x11, app_labwc, app_tty, app_kms, airplay_x11, airplay_kms,
  media_x11, media_kms, moonlight_x11, steamlink_x11, miracast_x11, off_x11, off_tty,
)

accepted-Supported :
    (url path : Text) (args : List Text) (k : Kind) (s : Surface)
    → validate_at k s url path args ≡ none
    → Supported k s
unfolding validate_at
accepted-Supported url path args k s h = grind (arith, matrix)

Content-app :
    (url path : Text) (args : List Text) (s : Surface)
    → validate_at app s url path args ≡ none
    → Content app url path args
unfolding validate_at
Content-app url path [] s h = ground arith
Content-app url path (a ∷ rest) s h = (a, rest, refl)

Content-media :
    (url path : Text) (args : List Text) (s : Surface)
    → validate_at media s url path args ≡ none
    → Content media url path args
unfolding validate_at
Content-media [] [] args s h = ground arith
Content-media [] (c ∷ p) args s h = ground arith
Content-media (c ∷ u) [] args s h = ground arith
Content-media (c ∷ u) (d ∷ p) args s h = ground arith

accepted-Content :
    (url path : Text) (args : List Text) (k : Kind) (s : Surface)
    → validate_at k s url path args ≡ none
    → Content k url path args
unfolding validate_at
accepted-Content url path args web s h = ground arith
accepted-Content url path args app s h = Content-app url path args s h
accepted-Content url path args media s h = Content-media url path args s h
accepted-Content url path args _ s h = tt

nonempty_of_web : (url : Text) → is_web_url url ≡ true → is_empty url ≡ false
unfolding is_web_url has_prefix
nonempty_of_web [] h = cc
nonempty_of_web (c ∷ u) h = refl

pub nonempty_of_media : (url : Text) → is_media_url url ≡ true → is_empty url ≡ false
unfolding is_media_url has_prefix
nonempty_of_media [] h = cc
nonempty_of_media (c ∷ u) h = refl

pub nonempty_of_absolute : (path : Text) → is_absolute path ≡ true → is_empty path ≡ false
unfolding is_absolute has_prefix
nonempty_of_absolute [] h = cc
nonempty_of_absolute (c ∷ p) h = refl

media_accepted :
    (url path : Text) (args : List Text) {s : Surface}
    → Supported media s
    → Content media url path args
    → validate_at media s url path args ≡ none
unfolding validate_at
media_accepted url path args media_x11 c =
    ground (arith, nonempty_of_media url, nonempty_of_absolute path)
media_accepted url path args media_kms c =
    ground (arith, nonempty_of_media url, nonempty_of_absolute path)

accepted_of :
    (url path : Text) (args : List Text) {k : Kind} {s : Surface}
    → Supported k s
    → Content k url path args
    → validate_at k s url path args ≡ none
unfolding validate_at
accepted_of url path args web_x11 c = ground (arith, nonempty_of_web url)
accepted_of url path args web_labwc c = ground (arith, nonempty_of_web url)
accepted_of url path args web_cog c = ground (arith, nonempty_of_web url)
accepted_of url path args app_x11 (a, rest, e) = rw e
accepted_of url path args app_labwc (a, rest, e) = rw e
accepted_of url path args app_tty (a, rest, e) = rw e
accepted_of url path args app_kms (a, rest, e) = rw e
accepted_of url path args media_x11 c = media_accepted url path args media_x11 c
accepted_of url path args media_kms c = media_accepted url path args media_kms c
accepted_of url path args _ c = refl

-- A mode is accepted exactly when the table lists its type on its surface and it says what the
-- type needs: a web address for web, a program for app, and for media either a media address and
-- no path or an absolute path and no address.
pub validate-WellFormed : (m : Mode) → (validate m ≡ none) ↔ WellFormed m
unfolding validate
validate-WellFormed m = (
  λ h. record {
    supported = accepted-Supported _ _ _ _ _ h;
    content = accepted-Content _ _ _ _ _ h;
  },
  λ w. accepted_of _ _ _ w.supported w.content,
)
