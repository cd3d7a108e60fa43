-- ===== src/Files/Safe.antt =====
-- The calls of the media library on the file system (agent/library.go).
use sideshow.Base.{
  ◌≡◌, refl, arith, Bool, true, false, some, if◌then◌else◌, inr, Text, text, text_eq_refl, is_empty,
  has_prefix, join_paths,
}
use sideshow.Files.Names.{is_name}
use sideshow.Files.Library.{
  Tree, FileCall, make_dir, remove, remove_all, move, create, bare, delete, safe_name,
}
use sideshow.Files.Confined.{IsConfined, IsRoot, resolve_at_root, real_root-IsRoot}

-- What `safeName` leaves is empty or the name of a file that is not hidden.
pub safe_name-is_name :
    (name : Text)
    → is_empty (safe_name name) ≡ false
    → (is_name (safe_name name) ≡ true) × (has_prefix (safe_name name) (text ".") ≡ false)
unfolding safe_name
safe_name-is_name name h = ground arith

-- A call on the paths of the library alone.
abbrev pub IsOwn : Tree → Text → FileCall → Type 0
IsOwn t root (make_dir p) =
    (dir : Text) × IsConfined t root dir
    × (name : Text) × (p ≡ join_paths dir name)
    × (is_name name ≡ true)
IsOwn t root (remove p) = IsConfined t root p
IsOwn t root (remove_all p) = IsConfined t root p
IsOwn t root (create p) = IsConfined t root p
IsOwn t root (move p q) = IsConfined t root p × IsConfined t root q

-- Delete of a path that reads `.` removes the root of the library, when that is a directory.
pub delete_dot :
    (t : Tree) (root real rel : Text) (recurse : Bool)
    → IsRoot t root real
    → is_empty root ≡ false
    → bare rel ≡ text "."
    → t.stat real ≡ some true
    → delete t root rel recurse ≡ inr (if recurse then remove_all real else remove real)
unfolding delete
delete_dot t root real rel recurse r there dot dir =
    let at_root = resolve_at_root t root rel there (rw dot (text_eq_refl (text "."))) in
    rw (dot, at_root, real_root-IsRoot t root real r, dir) refl
