-- ===== src/Files/Docs.antt =====
-- The paths and sources of documents (agent/content.go).
use sideshow.Base.{
  Bool, ◌||◌, ◌&&◌, not, ◌==◌, Option, none, some, List, [], ◌∷◌, ◌++◌, if◌then◌else◌, ◌⊎◌, inl,
  inr, Text, text, text_eq, is_empty, has_prefix, trim_space, to_lower, keep_if, map, is_rooted,
  trim_prefix, contains, clean, join_paths,
}

pub data PathError : Type 0 where
  empty_path not_relative escapes : PathError

abbrev pub is_escaping : Text → Bool
is_escaping p =
    text_eq p (text ".")
    || text_eq p (text "..")
    || has_prefix p (text "../")
    || contains p (text "/../")

abbrev pub check_rel : Text → PathError ⊎ Text
check_rel rel =
    if is_empty rel
    then inl empty_path
    else if is_rooted rel
    then inl not_relative
    else if is_escaping (clean rel)
    then inl escapes
    else inr (clean rel)

-- `safeDocRel`
unfoldable pub safe_doc_rel : Text → PathError ⊎ Text
safe_doc_rel rel = check_rel (trim_prefix (trim_space rel) (text "/docfs/"))

-- What the symbolic links of the file system make of a path: `filepath.EvalSymlinks`, `none` for an
-- error, which a path that does not exist is.
abbrev pub Links : Type 0
Links = Text → Option Text

abbrev pub or_else {ℓ} : {A : Type ℓ} → Option A → A → A
or_else none a = a
or_else (some b) a = b

-- `abs == root || strings.HasPrefix(abs, root + "/")`
abbrev pub is_within : Text → Text → Bool
is_within root p = text_eq p root || has_prefix p (root ++ text "/")

-- `safeDocPath`
unfoldable pub safe_doc_path : Links → Text → Text → PathError ⊎ Text
safe_doc_path links docs_dir rel =
    let root = or_else (links docs_dir) (clean docs_dir) in
    let p = or_else (links (join_paths docs_dir rel)) (join_paths docs_dir rel) in
    if is_within root p then inr p else inl escapes

-- `filterHTTP` and the test for an http(s) URL
unfoldable pub is_http : Text → Bool
is_http u = has_prefix u (text "http://") || has_prefix u (text "https://")

unfoldable pub filter_http : List Text → List Text
filter_http us = keep_if is_http (map trim_space us)

-- `normTransition`
unfoldable pub norm_transition : Text → Text
norm_transition s =
    if text_eq (to_lower (trim_space s)) (text "none") then text "none" else text "fade"

abbrev pub or_first {ℓ} : {A : Type ℓ} → Option A → Option A → Option A
or_first none o = o
or_first (some a) o = some a

-- What follows the last colon, `none` without one.
abbrev pub last_colon : Text → Option Text
last_colon [] = none
last_colon (c ∷ s) = let later = last_colon s in or_first later (if c == 58 then some s else none)

abbrev pub port_of : Option Text → Text
port_of none = text "80"
port_of (some []) = text "80"
port_of (some (c ∷ s)) = c ∷ s

-- `localAgentBase`
unfoldable pub local_agent_base : Text → Text
local_agent_base addr = text "http://127.0.0.1:" ++ port_of (last_colon addr)

-- `absDocURL`
unfoldable pub abs_doc_url : Text → Text → Text
abs_doc_url local_base served =
    if has_prefix served (text "/docfs/") && not (is_empty local_base)
    then local_base ++ served
    else served

-- `withPDFViewerParams`
unfoldable pub with_pdf_viewer_params : Text → Text
with_pdf_viewer_params u =
    if is_empty u || contains u (text "#")
    then u
    else u ++ text "#toolbar=0&navpanes=0&scrollbar=0&view=FitH"
