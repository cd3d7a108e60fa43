-- ===== src/Playlist/Settles.antt =====
-- What happens to kept items when they are sanitized again, as a restart does (agent/playlist.go).
use sideshow.Base.{
  ℕ, zero, suc, ◌≤◌, ◌≡◌, refl, sym, ap, subst, ◌∙◌, arith, true, false, ◌&&◌, some, List, [], ◌∷◌,
  length, take, All, inl, inr, Bool-cases, Text, text, is_empty, is_space, trim_space, trim_left,
  trim_right, trim_space_idem, contains, has_prefix, trim_prefix, is_rooted,
}
use mathlib.Core.List.{map}
use sideshow.Files.Docs.{not_relative, safe_doc_rel, check_rel, is_http}
use sideshow.Playlist.{
  PlaylistItem, max_playlist_items, src_of, sanitize_item, collect_items, sanitize_items,
}
use sideshow.Playlist.Clean.{IsSource, IsClean, sanitize_items-IsClean}

has_prefix-[] : (c : ℕ) (s p : Text) → has_prefix (c ∷ s) p ≡ false → has_prefix [] p ≡ false
unfolding has_prefix
has_prefix-[] c s [] h = h
has_prefix-[] c s (d ∷ p) h = refl

has_prefix-trim_right : (s p : Text) → has_prefix s p ≡ false → has_prefix (trim_right s) p ≡ false
unfolding has_prefix trim_right
has_prefix-trim_right [] p h = h
has_prefix-trim_right (c ∷ s) [] h = h
has_prefix-trim_right (c ∷ s) (d ∷ p) h = ground (arith, has_prefix-trim_right s p)

has_prefix-shorter :
    (c : ℕ) (s p : Text) → has_prefix (c ∷ s) p ≡ false → has_prefix (c ∷ trim_right s) p ≡ false
unfolding has_prefix
has_prefix-shorter c s [] h = h
has_prefix-shorter c s (d ∷ p) h = ground (arith, has_prefix-trim_right s p)

contains-trim_right : (s p : Text) → contains s p ≡ false → contains (trim_right s) p ≡ false
unfolding contains trim_right
contains-trim_right [] p h = h
contains-trim_right (c ∷ s) p h =
    let here : has_prefix (c ∷ s) p ≡ false = ground arith in
    let later = contains-trim_right s p (ground arith) in
    elim (Bool-cases (is_empty (trim_right s) && is_space c)) [
      | inl b ↦ rw b (has_prefix-[] c s p here)
      | inr b ↦ rw b (ground (arith, has_prefix-shorter c s p here, later))
    ]

contains-trim_left : (s p : Text) → contains s p ≡ false → contains (trim_left s) p ≡ false
unfolding contains trim_left
contains-trim_left [] p h = h
contains-trim_left (c ∷ s) p h = ground (arith, contains-trim_left s p)

contains-trim_space : (s p : Text) → contains s p ≡ false → contains (trim_space s) p ≡ false
unfolding trim_space
contains-trim_space s p h = contains-trim_right (trim_left s) p (contains-trim_left s p h)

safe_doc_rel-trim_space : (s : Text) → safe_doc_rel (trim_space s) ≡ safe_doc_rel s
unfolding safe_doc_rel
safe_doc_rel-trim_space s = rw (trim_space_idem s) refl

accepted_not_empty : (s c : Text) → safe_doc_rel s ≡ inr c → is_empty s ≡ false
unfolding safe_doc_rel trim_space trim_left trim_right trim_prefix has_prefix
accepted_not_empty [] c h = absurd cc
accepted_not_empty (d ∷ s) c h = refl

rooted_refused :
    (c : ℕ) (s : Text) → is_rooted (c ∷ s) ≡ true → check_rel (c ∷ s) ≡ inl not_relative
rooted_refused c s h = rw h refl

-- A path that begins as one of the library is not relative.
media_refused :
    (s : Text)
    → trim_space s ≡ s
    → has_prefix s (text "/media/") ≡ true
    → safe_doc_rel s ≡ inl not_relative
unfolding safe_doc_rel trim_prefix has_prefix
media_refused [] t h = absurd (ground arith)
media_refused (c ∷ []) t h = absurd (ground arith)
media_refused (c ∷ (d ∷ s)) t h =
    let whole : trim_prefix (c ∷ d ∷ s) (text "/docfs/") ≡ c ∷ d ∷ s = ground arith in
    ap check_rel (ap (λ k. trim_prefix k (text "/docfs/")) t ∙ whole)
    ∙ rooted_refused c (d ∷ s) (ground arith)

no_media :
    (s c : Text) → trim_space s ≡ s → safe_doc_rel s ≡ inr c → trim_prefix s (text "/media/") ≡ s
unfolding trim_prefix
no_media s c t h = elim (Bool-cases (has_prefix s (text "/media/"))) [
  | inl b ↦ let refused = media_refused s t b in absurd cc
  | inr b ↦ rw b refl
]

http_not_empty : (s : Text) → is_http s ≡ true → is_empty s ≡ false
unfolding is_http has_prefix
http_not_empty [] h = absurd (ground arith)
http_not_empty (c ∷ s) h = refl

src_of-http : (s : Text) → is_http s ≡ true → src_of s ≡ some s
unfolding src_of
src_of-http s h = rw h refl

src_of-relative :
    (s c : Text)
    → trim_space s ≡ s
    → contains s (text "://") ≡ false
    → safe_doc_rel s ≡ inr c
    → src_of s ≡ some s
unfolding src_of
src_of-relative s c t n h = elim (Bool-cases (is_http s)) [
  | inl b ↦ rw b refl
  | inr b ↦ rw (b, n, no_media s c t h, h) refl
]

-- A source that is kept, without white space around it, is kept as it is.
src_of_again :
    (s : Text)
    → IsSource s
    → (is_empty (trim_space s) ≡ false) × (src_of (trim_space s) ≡ some (trim_space s))
src_of_again s (inl h) = rw h.1 (http_not_empty s h.0, src_of-http s h.0)
src_of_again s (inr h) =
    let ok = safe_doc_rel-trim_space s ∙ h.2 in
    (
      accepted_not_empty (trim_space s) h.1 ok,
      src_of-relative (trim_space s) h.1 (trim_space_idem s)
          (contains-trim_space s (text "://") h.0) ok,
    )

-- An item whose source has no white space around it.
abbrev pub trimmed : PlaylistItem → PlaylistItem
trimmed it = record it { src = trim_space it.src }

sanitize_item_again : (it : PlaylistItem) → IsClean it → sanitize_item it ≡ some (trimmed it)
unfolding sanitize_item
sanitize_item_again it h =
    let src = src_of_again it.src h.4 in rw (src.0, h.1, h.0, src.1, h.2, h.3) refl

trimmed-IsSource : (s : Text) → IsSource s → IsSource (trim_space s)
trimmed-IsSource s (inl h) = subst IsSource (sym h.1) (inl h)
trimmed-IsSource s (inr h) =
    inr (contains-trim_space s (text "://") h.0, h.1, safe_doc_rel-trim_space s ∙ h.2)

trimmed-IsClean : (it : PlaylistItem) → IsClean it → IsClean (trimmed it)
trimmed-IsClean it h = (h.0, h.1, h.2, h.3, trimmed-IsSource it.src h.4)

all_trimmed-IsClean : (its : List PlaylistItem) → All IsClean its → All IsClean (map trimmed its)
all_trimmed-IsClean [] h = tt
all_trimmed-IsClean (it ∷ its) h = (trimmed-IsClean it h.0, all_trimmed-IsClean its h.1)

trimmed_idem : (its : List PlaylistItem) → map trimmed (map trimmed its) ≡ map trimmed its
trimmed_idem [] = refl
trimmed_idem (it ∷ its) = rw (trim_space_idem it.src, trimmed_idem its) refl

collect_items_again :
    (its : List PlaylistItem) → All IsClean its → collect_items its ≡ map trimmed its
unfolding collect_items
collect_items_again [] h = refl
collect_items_again (it ∷ its) h = rw (sanitize_item_again it h.0, collect_items_again its h.1) refl

length-map_le :
    (f : PlaylistItem → PlaylistItem) (its : List PlaylistItem) → length (map f its) ≡ length its
length-map_le f [] = refl
length-map_le f (it ∷ its) = ap suc (length-map_le f its)

take_all : (n : ℕ) (its : List PlaylistItem) → length its ≤ n → take n its ≡ its
take_all zero [] h = refl
take_all zero (it ∷ its) h = absurd (omega arith)
take_all (suc n) [] h = refl
take_all (suc n) (it ∷ its) h = ap (λ ks. it ∷ ks) (take_all n its (omega arith))

-- Kept items are kept again, without the white space around their sources.
pub sanitize_items_again :
    (its : List PlaylistItem)
    → All IsClean its
    → length its ≤ max_playlist_items
    → sanitize_items its ≡ map trimmed its
unfolding sanitize_items
sanitize_items_again its h l =
    rw (collect_items_again its h)
      (take_all max_playlist_items (map trimmed its) (omega (arith, length-map_le trimmed its, l)))

-- Sanitizing settles: what was sanitized twice stays as it is.
pub sanitize_items_settles :
    (its : List PlaylistItem)
    → sanitize_items (sanitize_items (sanitize_items its)) ≡ sanitize_items (sanitize_items its)
sanitize_items_settles its =
    let clean = sanitize_items-IsClean its in
    let once = sanitize_items_again (sanitize_items its) clean.0 clean.1 in
    let twice =
      sanitize_items_again (map trimmed (sanitize_items its))
        (all_trimmed-IsClean (sanitize_items its) clean.0)
        (omega (arith, length-map_le trimmed (sanitize_items its), clean.1)) in
    rw once (twice ∙ trimmed_idem (sanitize_items its))
