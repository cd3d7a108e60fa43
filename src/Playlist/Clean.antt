-- ===== src/Playlist/Clean.antt =====
-- What holds of the items that a playlist keeps (agent/playlist.go).
use sideshow.Base.{
  ℕ, zero, suc, ◌≤◌, ◌≡◌, refl, subst, arith, Bool, true, false, not, ◌||◌, Option, none, some,
  List, [], ◌∷◌, ◌++◌, length, length-take-le, All, All-take, if◌then◌else◌, ◌⊎◌, inl, inr,
  Bool-cases, Option-cases, Text, text, is_empty, trim_space, trim_space_idem, to_lower,
  to_lower_trim_idem, contains, trim_prefix, drop, has_prefix, ℤ, pos, negsuc, at_least_zero,
}
use mathlib.Core.Option.{map}
use sideshow.Node.Ident.{hist_id_not_empty}
use sideshow.Files.Docs.{PathError, safe_doc_rel, is_http}
use sideshow.Playlist.{
  PlaylistItem, max_playlist_items, is_playlist_kind, in_library, src_of, named, finished,
  sanitize_item, collect_items, sanitize_items,
}

-- An http(s) URL, or a path in the library that is accepted as one of a document.
abbrev pub IsSource : Text → Type 0
IsSource s =
    ((is_http s ≡ true) × (trim_space s ≡ s))
    ⊎ ((contains s (text "://") ≡ false) × (c : Text) × (safe_doc_rel s ≡ inr c))

abbrev pub IsClean : PlaylistItem → Type 0
IsClean it =
    (is_playlist_kind it.kind ≡ true)
    × (to_lower (trim_space it.kind) ≡ it.kind)
    × (is_empty it.id ≡ false)
    × (at_least_zero it.duration_s ≡ it.duration_s)
    × IsSource it.src

named_not_empty : (id kind src : Text) → is_empty (named id kind src) ≡ false
named_not_empty [] kind src = hist_id_not_empty (kind ++ text ":" ++ src)
named_not_empty (c ∷ id) kind src = refl

at_least_zero_idem : (n : ℤ) → at_least_zero (at_least_zero n) ≡ at_least_zero n
at_least_zero_idem (pos n) = refl
at_least_zero_idem (negsuc n) = refl

in_library_accepts :
    (s k : Text) (a : PathError ⊎ Text)
    → in_library s a ≡ some k
    → (s ≡ k) × (c : Text) × (a ≡ inr c)
in_library_accepts s k (inl e) h = absurd cc
in_library_accepts s k (inr c) h = (cc, c, refl)

contains-drop : (n : ℕ) (s p : Text) → contains s p ≡ false → contains (drop n s) p ≡ false
unfolding contains
contains-drop zero s p h = h
contains-drop (suc n) [] p h = h
contains-drop (suc n) (c ∷ s) p h = contains-drop n s p (ground arith)

contains-trim_prefix : (s q p : Text) → contains s p ≡ false → contains (trim_prefix s q) p ≡ false
unfolding trim_prefix
contains-trim_prefix s q p h = elim (Bool-cases (has_prefix s q)) [
  | inl b ↦ rw b (contains-drop (length q) s p h)
  | inr b ↦ rw b h
]

src_ways :
    (a b : Bool) (s k : Text) (r : Option Text)
    → (if a then some s else if b then none else r) ≡ some k
    → ((a ≡ true) × (s ≡ k)) ⊎ ((b ≡ false) × (r ≡ some k))
src_ways true b s k r h = inl (refl, cc)
src_ways false true s k r h = absurd cc
src_ways false false s k r h = inr (refl, h)

-- A source that is kept is one without the prefix that is no scheme.
src_of-IsSource : (s k : Text) → trim_space s ≡ s → src_of s ≡ some k → IsSource k
unfolding src_of
src_of-IsSource s k t h =
    let q = trim_prefix s (text "/media/") in
    elim (src_ways (is_http s) (contains s (text "://")) s k (in_library q (safe_doc_rel q)) h) [
      | inl e ↦ subst IsSource e.1 (inl (e.0, t))
      | inr e ↦
          let a = in_library_accepts q k (safe_doc_rel q) e.1 in
          subst IsSource a.0
            (inr (contains-trim_prefix s (text "/media/") (text "://") e.0, a.1, a.2))
    ]

kept_ways {ℓ} :
    {A B : Type ℓ} (a : Bool) (f : A → B) (o : Option A) (k : B)
    → (if a then none else map f o) ≡ some k
    → (a ≡ false) × (s : A) × (o ≡ some s) × (f s ≡ k)
kept_ways true f o k h = absurd cc
kept_ways false f none k h = absurd cc
kept_ways false f (some s) k h = (refl, s, refl, cc)

finished-IsClean :
    (it : PlaylistItem) (kind src : Text)
    → is_playlist_kind kind ≡ true
    → to_lower (trim_space kind) ≡ kind
    → IsSource src
    → IsClean (finished it kind src)
finished-IsClean it kind src k l s =
    (k, l, named_not_empty it.id kind src, at_least_zero_idem it.duration_s, s)

sanitize_item-IsClean : (it k : PlaylistItem) → sanitize_item it ≡ some k → IsClean k
unfolding sanitize_item
sanitize_item-IsClean it k h =
    let kind = to_lower (trim_space it.kind) in
    let src = trim_space it.src in
    let a =
      kept_ways (is_empty src || not (is_playlist_kind kind)) (finished it kind) (src_of src) k h in
    subst IsClean a.3 (
      finished-IsClean it kind a.1 (ground (arith, a.0)) (to_lower_trim_idem it.kind)
        (src_of-IsSource src a.1 (trim_space_idem it.src) a.2))

collect_items-IsClean : (its : List PlaylistItem) → All IsClean (collect_items its)
unfolding collect_items
collect_items-IsClean [] = tt
collect_items-IsClean (it ∷ its) = elim (Option-cases (sanitize_item it)) [
  | inl e ↦ rw e (collect_items-IsClean its)
  | inr e ↦ rw e.1 (sanitize_item-IsClean it e.0 e.1, collect_items-IsClean its)
]

-- The items that are kept are at most 500, each of one of the four kinds, with an id, a duration
-- that is not negative, and an http(s) URL or an accepted path as its source.
pub sanitize_items-IsClean :
    (its : List PlaylistItem)
    → All IsClean (sanitize_items its) × (length (sanitize_items its) ≤ max_playlist_items)
unfolding sanitize_items
sanitize_items-IsClean its = (
  All-take IsClean max_playlist_items (collect_items its) (collect_items-IsClean its),
  length-take-le max_playlist_items (collect_items its),
)
