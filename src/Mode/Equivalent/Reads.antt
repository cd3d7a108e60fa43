-- ===== src/Mode/Equivalent/Reads.antt =====
-- `label` and `equivalent` (agent/modes.go) read a mode only through its type, its display and the
-- readers of its parameters.
use sideshow.Base.{◌≡◌, refl, ap, ◌∙◌, Bool, true, false, Text, text}
use sideshow.Mode.{
  Mode, Kind, web, app, airplay, media, moonlight, steamlink, miracast, off, missing, unknown, kind,
  kind_of, str_of, bool_or, argv,
}
use sideshow.Mode.Equivalent.{
  texts_of, flags_of, print_of, app_label, label_kind, label, equivalent, equivalent-print_of,
}

-- Two modes that no reader tells apart.
pub record ReadsAs (a b : Mode) : Type 0 where
  pub type : a.type ≡ b.type
  pub display : a.display ≡ b.display
  pub strs : (key : Text) → str_of a key ≡ str_of b key
  pub flags : (key : Text) (def : Bool) → bool_or a key def ≡ bool_or b key def
  pub args : argv a ≡ argv b

module _ (a b : Mode) (r : ReadsAs a b) where
  texts_of-ReadsAs : (k : Kind) → texts_of k a ≡ texts_of k b
  unfolding texts_of
  texts_of-ReadsAs web = rw (r.strs (text "url")) refl
  texts_of-ReadsAs media = rw (r.strs (text "url"), r.strs (text "path")) refl
  texts_of-ReadsAs airplay = rw (r.strs (text "name")) refl
  texts_of-ReadsAs moonlight = rw (r.strs (text "host"), r.strs (text "app")) refl
  texts_of-ReadsAs steamlink = refl
  texts_of-ReadsAs miracast = refl
  texts_of-ReadsAs off = refl
  texts_of-ReadsAs app = rw r.args refl
  texts_of-ReadsAs missing = rw r.args refl
  texts_of-ReadsAs unknown = rw r.args refl

  flags_of-ReadsAs : (k : Kind) → flags_of k a ≡ flags_of k b
  unfolding flags_of
  flags_of-ReadsAs web = rw (r.flags (text "dark") true) refl
  flags_of-ReadsAs media = rw (r.flags (text "loop") true, r.flags (text "mute") false) refl
  flags_of-ReadsAs airplay = rw (r.flags (text "audio") false) refl
  flags_of-ReadsAs moonlight = refl
  flags_of-ReadsAs steamlink = refl
  flags_of-ReadsAs miracast = refl
  flags_of-ReadsAs off = refl
  flags_of-ReadsAs app = refl
  flags_of-ReadsAs missing = refl
  flags_of-ReadsAs unknown = refl

  label_kind-ReadsAs : (k : Kind) → label_kind k a ≡ label_kind k b
  unfolding label_kind
  label_kind-ReadsAs web = rw (r.strs (text "url")) refl
  label_kind-ReadsAs media = rw (r.strs (text "url"), r.strs (text "path")) refl
  label_kind-ReadsAs airplay = refl
  label_kind-ReadsAs moonlight = rw (r.strs (text "host")) refl
  label_kind-ReadsAs steamlink = refl
  label_kind-ReadsAs miracast = refl
  label_kind-ReadsAs off = r.type
  label_kind-ReadsAs app = ap app_label r.args
  label_kind-ReadsAs missing = r.type
  label_kind-ReadsAs unknown = r.type

  pub label-ReadsAs : label a ≡ label b
  unfolding label
  label-ReadsAs = label_kind-ReadsAs (kind_of a) ∙ ap (λ t. label_kind (kind t) b) r.type

  print_of-ReadsAs : print_of a ≡ print_of b
  unfolding print_of
  print_of-ReadsAs = λ i. record {
    type = r.type i;
    display = r.display i;
    texts = (texts_of-ReadsAs (kind_of a) ∙ ap (λ t. texts_of (kind t) b) r.type) i;
    flags = (flags_of-ReadsAs (kind_of a) ∙ ap (λ t. flags_of (kind t) b) r.type) i;
  }

  pub equivalent-ReadsAs : equivalent a b ≡ true
  equivalent-ReadsAs = (equivalent-print_of a b).1 print_of-ReadsAs
