-- ===== src/Files/Source.antt =====
-- The source of a document (`validateDocSrc` and `urlEscapePath` of agent/content.go), and the kind
-- of a file in the media library (`libKind` of agent/library.go).
use sideshow.Base.{
  ℕ, ◌+◌, ◌/◌, ◌%◌, ◌≡◌, refl, sym, subst, Bool, true, false, ◌||◌, ◌&&◌, ◌==◌, leb, ltb, Option,
  none, some, List, [], ◌∷◌, ◌++◌, map, if◌then◌else◌, ◌⊎◌, inl, inr, All, Text, text, is_empty,
  trim_space, contains, slash, split_on, join_on, join_paths, clean,
}
use sideshow.Node.Ident.{utf8}
use sideshow.Files.Docs.{
  PathError, escapes, safe_doc_rel, safe_doc_path, is_http, is_within, or_else, Links,
}
use sideshow.Files.Names.{is_name, safe_doc_rel-names}
use sideshow.Files.Library.{Tree}

-- Bytes that `url.PathEscape` keeps: letters, digits, and `-_.~$&+:=@`.
abbrev pub is_kept : ℕ → Bool
is_kept c =
    (leb 48 c && leb c 57)
    || (leb 65 c && leb c 90)
    || (leb 97 c && leb c 122)
    || c == 45
    || c == 95
    || c == 46
    || c == 126
    || c == 36
    || c == 38
    || c == 43
    || c == 58
    || c == 61
    || c == 64

abbrev pub hex_upper : ℕ → ℕ
hex_upper d = if ltb d 10 then 48 + d else 55 + d

abbrev pub escape_byte : ℕ → Text
escape_byte b = if is_kept b then b ∷ [] else 37 ∷ hex_upper (b / 16) ∷ hex_upper (b % 16) ∷ []

abbrev pub escape_bytes : List ℕ → Text
escape_bytes [] = []
escape_bytes (b ∷ bs) = escape_byte b ++ escape_bytes bs

-- `url.PathEscape`
unfoldable pub path_escape : Text → Text
path_escape [] = []
path_escape (c ∷ s) = escape_bytes (utf8 c) ++ path_escape s

-- `urlEscapePath`
unfoldable pub url_escape_path : Text → Text
url_escape_path rel = join_on slash (map path_escape (split_on slash rel))

pub data SourceError : Type 0 where
  other_scheme no_docs_dir not_found is_directory : SourceError
  bad_path : PathError → SourceError

abbrev pub serve : Option Bool → Text → SourceError ⊎ Text
serve none rel = inl not_found
serve (some true) rel = inl is_directory
serve (some false) rel = inr (text "/docfs/" ++ url_escape_path rel)

abbrev pub serve_at : Tree → Text → PathError ⊎ Text → SourceError ⊎ Text
serve_at t rel (inl e) = inl (bad_path e)
serve_at t rel (inr p) = serve (t.stat p) rel

abbrev pub serve_rel : Tree → Text → PathError ⊎ Text → SourceError ⊎ Text
serve_rel t docs_dir (inl e) = inl (bad_path e)
serve_rel t docs_dir (inr rel) = serve_at t rel (safe_doc_path t.links docs_dir rel)

-- `validateDocSrc` of a source that is trimmed
unfoldable pub validate_trimmed : Tree → Text → Text → SourceError ⊎ Text
validate_trimmed t docs_dir src =
    if is_empty src
    then inr []
    else if is_http src
    then inr src
    else if contains src (text "://")
    then inl other_scheme
    else if is_empty docs_dir
    then inl no_docs_dir
    else serve_rel t docs_dir (safe_doc_rel src)

-- `validateDocSrc`
unfoldable pub validate_doc_src : Tree → Text → Text → SourceError ⊎ Text
validate_doc_src t docs_dir src = validate_trimmed t docs_dir (trim_space src)

-- The URL of a file that is there, below the directory of documents, by its names.
abbrev pub IsServed : Tree → Text → Text → Type 0
IsServed t docs_dir served =
    (rel : Text) × (p : Text) × (served ≡ text "/docfs/" ++ url_escape_path rel)
    × All (λ n. is_name n ≡ true) (split_on slash rel)
    × (is_within (or_else (t.links docs_dir) (clean docs_dir)) p ≡ true)
    × (p ≡ or_else (t.links (join_paths docs_dir rel)) (join_paths docs_dir rel))
    × (t.stat p ≡ some false)

if_accepts :
    (b : Bool) (q p : Text) → (if b then inr q else inl escapes) ≡ inr p → (b ≡ true) × (q ≡ p)
if_accepts true q p h = (refl, cc)
if_accepts false q p h = absurd cc

safe_doc_path_accepts :
    (links : Links) (docs_dir rel p : Text)
    → safe_doc_path links docs_dir rel ≡ inr p
    → (is_within (or_else (links docs_dir) (clean docs_dir)) p ≡ true)
      × (p ≡ or_else (links (join_paths docs_dir rel)) (join_paths docs_dir rel))
unfolding safe_doc_path
safe_doc_path_accepts links docs_dir rel p h =
    let root = or_else (links docs_dir) (clean docs_dir) in
    let q = or_else (links (join_paths docs_dir rel)) (join_paths docs_dir rel) in
    let a = if_accepts (is_within root q) q p h in
    (subst (λ k. is_within root k ≡ true) a.1 a.0, sym a.1)

serve_accepts :
    (o : Option Bool) (rel served : Text)
    → serve o rel ≡ inr served
    → (o ≡ some false) × (served ≡ text "/docfs/" ++ url_escape_path rel)
serve_accepts none rel served h = absurd cc
serve_accepts (some true) rel served h = absurd cc
serve_accepts (some false) rel served h = (refl, cc)

serve_at-IsServed :
    (t : Tree) (docs_dir src rel served : Text) (a : PathError ⊎ Text)
    → safe_doc_rel src ≡ inr rel
    → safe_doc_path t.links docs_dir rel ≡ a
    → serve_at t rel a ≡ inr served
    → IsServed t docs_dir served
serve_at-IsServed t docs_dir src rel served (inl e) s l h = absurd cc
serve_at-IsServed t docs_dir src rel served (inr p) s l h =
    let ok = safe_doc_path_accepts t.links docs_dir rel p l in
    let there = serve_accepts (t.stat p) rel served h in
    (rel, p, there.1, safe_doc_rel-names src rel s, ok.0, ok.1, there.0)

serve_rel-IsServed :
    (t : Tree) (docs_dir src served : Text) (a : PathError ⊎ Text)
    → safe_doc_rel src ≡ a
    → serve_rel t docs_dir a ≡ inr served
    → IsServed t docs_dir served
serve_rel-IsServed t docs_dir src served (inl e) s h = absurd cc
serve_rel-IsServed t docs_dir src served (inr rel) s h =
    serve_at-IsServed t docs_dir src rel served (safe_doc_path t.links docs_dir rel) s refl h

four_ways :
    (a b c d : Bool) (src served : Text) (r : SourceError ⊎ Text)
    → (if a
        then inr []
        else if b
        then inr src
        else if c
        then inl other_scheme
        else if d
        then inl no_docs_dir
        else r)
      ≡ inr served
    → (served ≡ []) ⊎ ((b ≡ true) × (src ≡ served)) ⊎ (r ≡ inr served)
four_ways true b c d src served r h = inl cc
four_ways false true c d src served r h = inr (inl (refl, cc))
four_ways false false true d src served r h = absurd cc
four_ways false false false true src served r h = absurd cc
four_ways false false false false src served r h = inr (inr h)

-- A source that is accepted is empty, an http(s) URL, or the URL of a file that exists, whose path
-- is made of names of files and leads below the real directory of the documents.
pub validate_doc_src-IsServed :
    (t : Tree) (docs_dir src served : Text)
    → validate_doc_src t docs_dir src ≡ inr served
    → (served ≡ []) ⊎ (is_http served ≡ true) ⊎ IsServed t docs_dir served
unfolding validate_doc_src validate_trimmed
validate_doc_src-IsServed t docs_dir raw served h =
    let src = trim_space raw in
    let rel = serve_rel t docs_dir (safe_doc_rel src) in
    elim (four_ways (is_empty src) (is_http src) (contains src (text "://")) (is_empty docs_dir) src
      served rel h) [
        | inl e ↦ inl e
        | inr (inl e) ↦ inr (inl (subst (λ k. is_http k ≡ true) e.1 e.0))
        | inr (inr e) ↦
            inr (inr (serve_rel-IsServed t docs_dir src served (safe_doc_rel src) refl e))
      ]
