-- ===== src/Files/Library.antt =====
-- The media library (agent/library.go): its paths, and its operations as the calls they make on the
-- file system, which is what answers for symbolic links and for what is there.
use sideshow.Base.{
  Bool, true, false, ◌||◌, ◌&&◌, not, Option, some, List, [], ◌∷◌, if◌then◌else◌, ◌⊎◌, inl, inr,
  length, Text, text, text_eq, is_empty, has_prefix, trim_space, drop, trim_of, trim_right_of,
  split_on, last?, keep_if, ◌==◌, clean, slash, is_rooted, join_paths, names_of, path_of, is_some,
}
use mathlib.Core.Option.{map}
use sideshow.Files.Docs.{PathError, safe_doc_rel, Links, or_else, is_within}

-- What the file system answers: `EvalSymlinks`, and `Stat`, which says whether there is something
-- and whether that is a directory.
pub record Tree : Type 0 where
  pub links : Links
  pub stat : Text → Option Bool

pub data LibError : Type 0 where
  bad_path : PathError → LibError
  not_configured outside no_folder no_item no_file bad_name taken is_root : LibError

-- The call that an operation makes at its end.
pub data FileCall : Type 0 where
  make_dir remove remove_all create : Text → FileCall
  move : Text → Text → FileCall

abbrev pub is_dir : Option Bool → Bool
is_dir (some true) = true
is_dir _ = false

-- The real path of the library's directory.
abbrev pub real_root : Tree → Text → Text
real_root t root = or_else (t.links root) (clean root)

-- The loop over the parents of a path that does not exist, whose names are given from the last to
-- the first: the first parent that exists, resolved, with the rest behind it. `filepath.Dir` of a
-- clean path drops its last name.
unfoldable pub deepest : Links → Bool → Text → List Text → Text
deepest links rooted p [] = p
deepest links rooted p (n ∷ ns) =
    let parent = path_of rooted ns in
    let above = deepest links rooted p ns in
    or_else (map (λ real. join_paths real (drop (length parent) p)) (links parent)) above

unfoldable pub checked_path : Links → Text → Text
checked_path links p = or_else (links p) (deepest links (is_rooted p) p (names_of p))

abbrev pub resolve_under : Tree → Text → PathError ⊎ Text → LibError ⊎ Text
resolve_under t root (inl e) = inl (bad_path e)
resolve_under t root (inr rel) =
    if is_within root (checked_path t.links (join_paths root rel))
    then inr (join_paths root rel)
    else inl outside

abbrev pub bare : Text → Text
bare rel = trim_of slash (trim_space rel)

-- `resolve`, and `itemAbs`
unfoldable pub resolve : Tree → Text → Text → LibError ⊎ Text
resolve t root rel =
    if is_empty root
    then inl not_configured
    else if is_empty (bare rel) || text_eq (bare rel) (text ".")
    then inr (real_root t root)
    else resolve_under t (real_root t root) (safe_doc_rel (bare rel))

infixl 5 ◌>>=◌
abbrev pub ◌>>=◌ {ℓ κ} :
    {A : Type ℓ} {B : Type κ} → LibError ⊎ A → (A → LibError ⊎ B) → LibError ⊎ B
inl e >>= f = inl e
inr a >>= f = f a

abbrev pub require : Bool → LibError → LibError ⊎ Unit {0}
require b e = if b then inr tt else inl e

-- `dirAbs`
unfoldable pub dir_abs : Tree → Text → Text → LibError ⊎ Text
dir_abs t root rel = do p ← resolve t root rel; _ ← require (is_dir (t.stat p)) no_folder; inr p

abbrev pub after_slash : Text → Text
after_slash p = or_else (last? (split_on slash p)) p

abbrev pub last_name : Text → Text
last_name [] = text "/"
last_name (c ∷ p) = after_slash (c ∷ p)

-- `filepath.Base`
unfoldable pub base : Text → Text
base p = if is_empty p then text "." else last_name (trim_right_of slash p)

abbrev pub without_slashes : Text → Text
without_slashes n = keep_if (λ c. not (c == slash)) n

abbrev pub unless_hidden : Text → Text
unless_hidden n =
    if is_empty n || text_eq n (text ".") || text_eq n (text "..") || has_prefix n (text ".")
    then []
    else n

-- `safeName`, with the empty name where nothing is left
unfoldable pub safe_name : Text → Text
safe_name name = unless_hidden (without_slashes (base (trim_space name)))

-- `Mkdir`
unfoldable pub mkdir : Tree → Text → Text → Text → LibError ⊎ FileCall
mkdir t root dir_rel name = do
  dir ← dir_abs t root dir_rel
  _ ← require (not (is_empty (safe_name name))) bad_name
  inr (make_dir (join_paths dir (safe_name name)))

-- `Rename`
unfoldable pub rename : Tree → Text → Text → Text → LibError ⊎ FileCall
rename t root from to = do
  src ← resolve t root from
  _ ← require (is_some (t.stat src)) no_item
  dst ← resolve t root to
  _ ← require (not (is_some (t.stat dst))) taken
  inr (move src dst)

-- `Delete`
unfoldable pub delete : Tree → Text → Text → Bool → LibError ⊎ FileCall
delete t root rel recurse = do
  _ ← require (not (is_empty (bare rel))) is_root
  p ← resolve t root rel
  _ ← require (is_some (t.stat p)) no_item
  inr (if is_dir (t.stat p) && recurse then remove_all p else remove p)

-- `Resolve`
unfoldable pub resolve_file : Tree → Text → Text → LibError ⊎ Text
resolve_file t root rel = do
  p ← resolve t root rel
  _ ← require (is_some (t.stat p) && not (is_dir (t.stat p))) no_file
  inr p
