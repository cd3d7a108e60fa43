-- ===== src/Mode/Equivalent.antt =====
-- `equivalent` and `label` (agent/modes.go).
pub mod Reads
use sideshow.Base.{
  ◌≡◌, refl, sym, ap, ◌∙◌, ◌↔◌, Bool, true, false, ◌&&◌, List, [], ◌∷◌, ◌++◌, Text, text, text_eq,
  text_eq_iff, text_eq_refl, is_empty, arith, if◌then◌else◌,
}
use sideshow.Mode.{
  Mode, Kind, web, app, airplay, media, moonlight, steamlink, miracast, off, missing, unknown, kind,
  kind_of, is_kind, str_of, bool_or, argv,
}

abbrev pub bool_eq : Bool → Bool → Bool
bool_eq true true = true
bool_eq false false = true
bool_eq _ _ = false

-- `fmt.Sprint` of a `[]string`: the elements with single spaces between, in brackets.
spaced : List Text → Text
spaced [] = []
spaced (a ∷ []) = a
spaced (a ∷ (b ∷ rest)) = a ++ (text " " ++ spaced (b ∷ rest))

unfoldable pub sprint : List Text → Text
unfolding spaced
sprint args = text "[" ++ (spaced args ++ text "]")

-- The `switch` of `equivalent`, for two modes of the kind.
same_params : Kind → Mode → Mode → Bool
same_params web a b =
    text_eq (str_of a (text "url")) (str_of b (text "url"))
    && bool_eq (bool_or a (text "dark") true) (bool_or b (text "dark") true)
same_params media a b =
    text_eq (str_of a (text "url")) (str_of b (text "url"))
    && text_eq (str_of a (text "path")) (str_of b (text "path"))
    && bool_eq (bool_or a (text "loop") true) (bool_or b (text "loop") true)
    && bool_eq (bool_or a (text "mute") false) (bool_or b (text "mute") false)
same_params airplay a b =
    text_eq (str_of a (text "name")) (str_of b (text "name"))
    && bool_eq (bool_or a (text "audio") false) (bool_or b (text "audio") false)
same_params moonlight a b =
    text_eq (str_of a (text "host")) (str_of b (text "host"))
    && text_eq (str_of a (text "app")) (str_of b (text "app"))
same_params steamlink a b = true
same_params miracast a b = true
same_params off a b = true
same_params _ a b = text_eq (sprint (argv a)) (sprint (argv b))

unfoldable pub equivalent : Mode → Mode → Bool
unfolding same_params
equivalent a b = text_eq a.type b.type && text_eq a.display b.display && same_params (kind_of a) a b

-- What `equivalent` compares, as a value: the texts and the flags that a kind reads.
pub record Print : Type 0 where
  pub type : Text
  pub display : Text
  pub texts : List Text
  pub flags : List Bool

texts_of : Kind → Mode → List Text
texts_of web m = str_of m (text "url") ∷ []
texts_of media m = str_of m (text "url") ∷ str_of m (text "path") ∷ []
texts_of airplay m = str_of m (text "name") ∷ []
texts_of moonlight m = str_of m (text "host") ∷ str_of m (text "app") ∷ []
texts_of steamlink m = []
texts_of miracast m = []
texts_of off m = []
texts_of _ m = sprint (argv m) ∷ []

flags_of : Kind → Mode → List Bool
flags_of web m = bool_or m (text "dark") true ∷ []
flags_of media m = bool_or m (text "loop") true ∷ bool_or m (text "mute") false ∷ []
flags_of airplay m = bool_or m (text "audio") false ∷ []
flags_of _ m = []

unfoldable pub print_of : Mode → Print
unfolding texts_of flags_of
print_of m = record {
  type = m.type;
  display = m.display;
  texts = texts_of (kind_of m) m;
  flags = flags_of (kind_of m) m;
}

abbrev app_label : List Text → Text
app_label [] = text "app"
app_label (a ∷ rest) = text "app:" ++ a

-- `label`
label_kind : Kind → Mode → Text
label_kind web m = text "web:" ++ str_of m (text "url")
label_kind app m = app_label (argv m)
label_kind media m =
    if is_empty (str_of m (text "url"))
    then text "media:" ++ str_of m (text "path")
    else text "media:" ++ str_of m (text "url")
label_kind airplay m = text "airplay"
label_kind moonlight m =
    if is_empty (str_of m (text "host"))
    then text "moonlight"
    else text "moonlight:" ++ str_of m (text "host")
label_kind steamlink m = text "steamlink"
label_kind miracast m = text "miracast"
label_kind _ m = m.type

unfoldable pub label : Mode → Text
unfolding label_kind
label m = label_kind (kind_of m) m

bool_eq_iff : (a b : Bool) → (bool_eq a b ≡ true) ↔ (a ≡ b)
bool_eq_iff true b = ground arith
bool_eq_iff false b = ground arith

same_params→prints :
    (k : Kind) (a b : Mode)
    → same_params k a b ≡ true
    → (texts_of k a ≡ texts_of k b) × (flags_of k a ≡ flags_of k b)
unfolding same_params texts_of flags_of
same_params→prints k a b h = grind (arith, text_eq_iff, bool_eq_iff)

prints→same_params :
    (k : Kind) (a b : Mode)
    → texts_of k a ≡ texts_of k b
    → flags_of k a ≡ flags_of k b
    → same_params k a b ≡ true
unfolding same_params texts_of flags_of
prints→same_params k a b p q = grind (arith, text_eq_iff, bool_eq_iff)

equal_parts :
    (a b : Mode)
    → equivalent a b ≡ true
    → (a.type ≡ b.type) × (a.display ≡ b.display) × (same_params (kind_of a) a b ≡ true)
unfolding equivalent
equal_parts a b h = ground (arith, text_eq_iff a.type b.type, text_eq_iff a.display b.display)

parts_equal :
    (a b : Mode)
    → a.type ≡ b.type
    → a.display ≡ b.display
    → same_params (kind_of a) a b ≡ true
    → equivalent a b ≡ true
unfolding equivalent
parts_equal a b p q h = ground (arith, text_eq_iff a.type b.type, text_eq_iff a.display b.display)

pub equivalent-print_of : (a b : Mode) → (equivalent a b ≡ true) ↔ (print_of a ≡ print_of b)
unfolding equivalent print_of
equivalent-print_of a b = (
  λ h.
      let (pt, pd, pp) = equal_parts a b h in
      let (px, pf) = same_params→prints (kind_of a) a b pp in
      λ i. record {
        type = pt i;
        display = pd i;
        texts = (px ∙ ap (λ t. texts_of (kind t) b) pt) i;
        flags = (pf ∙ ap (λ t. flags_of (kind t) b) pt) i;
      },
  λ e.
      let pt = ap Print.type e in
      parts_equal a b pt (ap Print.display e) (
        prints→same_params (kind_of a) a b
          (ap Print.texts e ∙ ap (λ t. texts_of (kind t) b) (sym pt))
          (ap Print.flags e ∙ ap (λ t. flags_of (kind t) b) (sym pt))),
)

-- `equivalent` is an equivalence relation, so "already running this mode" does not depend on the
-- order of its arguments or on how the running mode was reached.
pub equivalent_equivalence :
    ((a : Mode) → equivalent a a ≡ true)
    × ((a b : Mode) → equivalent a b ≡ true → equivalent b a ≡ true)
    × ((a b c : Mode) → equivalent a b ≡ true → equivalent b c ≡ true → equivalent a c ≡ true)
equivalent_equivalence = (
  λ a. (equivalent-print_of a a).1 refl,
  λ a b h. (equivalent-print_of b a).1 (sym ((equivalent-print_of a b).0 h)),
  λ a b c h k.
      (equivalent-print_of a c).1 ((equivalent-print_of a b).0 h ∙ (equivalent-print_of b c).0 k),
)

-- Two app modes of one display are taken for the same although one runs `a` with an argument `b`
-- and the other a program whose name is the two words with a space between.
pub equivalent_joins_args :
    (m n : Mode) (a b : Text)
    → m.type ≡ n.type
    → m.display ≡ n.display
    → kind_of m ≡ app
    → argv m ≡ a ∷ b ∷ []
    → argv n ≡ (a ++ (text " " ++ b)) ∷ []
    → equivalent m n ≡ true
unfolding same_params sprint
equivalent_joins_args m n a b t d k p q =
    parts_equal m n t d (rw k (rw (p, q) (text_eq_refl (sprint ((a ++ (text " " ++ b)) ∷ [])))))

same_url :
    (k : Kind) (a b : Mode)
    → same_params k a b ≡ true
    → is_kind k web ≡ true
    → str_of a (text "url") ≡ str_of b (text "url")
unfolding same_params
same_url web a b h e =
    (text_eq_iff (str_of a (text "url")) (str_of b (text "url"))).0 (ground (arith, h))
same_url app a b h e = absurd cc
same_url airplay a b h e = absurd cc
same_url media a b h e = absurd cc
same_url moonlight a b h e = absurd cc
same_url steamlink a b h e = absurd cc
same_url miracast a b h e = absurd cc
same_url off a b h e = absurd cc
same_url missing a b h e = absurd cc
same_url unknown a b h e = absurd cc

-- Equivalent modes have one type, and web modes that are equivalent one URL.
pub equivalent_type : (a b : Mode) → equivalent a b ≡ true → a.type ≡ b.type
unfolding equivalent
equivalent_type a b h = (text_eq_iff a.type b.type).0 (ground (arith, h))

pub equivalent_url :
    (a b : Mode)
    → equivalent a b ≡ true
    → is_kind (kind_of a) web ≡ true
    → str_of a (text "url") ≡ str_of b (text "url")
unfolding equivalent
equivalent_url a b h e = same_url (kind_of a) a b (ground (arith, h)) e
