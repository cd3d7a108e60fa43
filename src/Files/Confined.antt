-- ===== src/Files/Confined.antt =====
-- The media library stays below its root (agent/library.go).
use sideshow.Base.{
  ◌≡◌, refl, ap, sym, subst, ◌∙◌, arith, Bool, true, false, ◌||◌, some, ◌⊎◌, inl, inr, All,
  Bool-cases, Text, text, text_eq, text_eq_refl, is_empty, slash, split_on, join_paths,
}
use sideshow.Files.Docs.{PathError, is_within, safe_doc_rel, Links}
use sideshow.Files.Names.{is_name, safe_doc_rel-names}
use sideshow.Files.Library.{
  Tree, not_configured, real_root, checked_path, resolve_under, bare, resolve,
}

-- A path of the library: what it leads to is below the real root, and it is the root itself or
-- stands under it by a relative path of names of files.
abbrev pub IsConfined : Tree → Text → Text → Type 0
IsConfined t root p =
    ((real : Text) → t.links p ≡ some real → is_within root real ≡ true)
    × ((p ≡ root)
        ⊎ ((rel : Text) × (p ≡ join_paths root rel)
            × All (λ n. is_name n ≡ true) (split_on slash rel)))

is_within_refl : (p : Text) → is_within p p ≡ true
is_within_refl p = ground (arith, text_eq_refl p)

checked_path-links :
    (links : Links) (p real : Text) → links p ≡ some real → checked_path links p ≡ real
unfolding checked_path
checked_path-links links p real h = rw h refl

resolve_under_accepts :
    (t : Tree) (root rel p : Text)
    → resolve_under t root (inr rel) ≡ inr p
    → (is_within root (checked_path t.links (join_paths root rel)) ≡ true)
      × (join_paths root rel ≡ p)
resolve_under_accepts t root rel p h = ground arith

resolve_under-IsConfined :
    (t : Tree) (root rel p : Text) (a : PathError ⊎ Text)
    → safe_doc_rel rel ≡ a
    → resolve_under t root a ≡ inr p
    → IsConfined t root p
resolve_under-IsConfined t root rel p (inl e) s h = absurd cc
resolve_under-IsConfined t root rel p (inr c) s h =
    let a = resolve_under_accepts t root c p h in
    let links_at : (real : Text)
        → t.links (join_paths root c) ≡ some real
        → is_within root real ≡ true =
      λ real l.
        subst (λ k. is_within root k ≡ true) (checked_path-links t.links (join_paths root c) real l)
          a.0 in
    (λ real l. links_at real (ap t.links a.1 ∙ l), inr (c, sym a.1, safe_doc_rel-names rel c s))

-- The root is a directory that exists, and its real path has no symbolic link left.
abbrev pub IsRoot : Tree → Text → Text → Type 0
IsRoot t root real = (t.links root ≡ some real) × (t.links real ≡ some real)

pub real_root-IsRoot : (t : Tree) (root real : Text) → IsRoot t root real → real_root t root ≡ real
real_root-IsRoot t root real r = rw r.0 refl

root-IsConfined : (t : Tree) (root real : Text) → IsRoot t root real → IsConfined t real real
root-IsConfined t root real r = (
  λ other l.
      let same : real ≡ other = cc in
      subst (λ k. is_within real k ≡ true) same (is_within_refl real),
  inl refl,
)

abbrev pub is_root_path : Text → Bool
is_root_path rel = is_empty (bare rel) || text_eq (bare rel) (text ".")

resolve_unset :
    (t : Tree) (root rel : Text) → is_empty root ≡ true → resolve t root rel ≡ inl not_configured
unfolding resolve
resolve_unset t root rel h = rw h refl

module _ (t : Tree) (root rel : Text) (there : is_empty root ≡ false) where
  pub resolve_at_root : is_root_path rel ≡ true → resolve t root rel ≡ inr (real_root t root)
  unfolding resolve
  resolve_at_root h = rw (there, h) refl

  resolve_other :
      is_root_path rel ≡ false
      → resolve t root rel ≡ resolve_under t (real_root t root) (safe_doc_rel (bare rel))
  unfolding resolve
  resolve_other h = rw (there, h) refl

-- Every path that the library resolves is one of its own.
pub resolve-IsConfined :
    (t : Tree) (root real rel p : Text)
    → IsRoot t root real
    → resolve t root rel ≡ inr p
    → IsConfined t real p
resolve-IsConfined t root real rel p r h = elim (Bool-cases (is_empty root)) [
  | inl b ↦ let unset = resolve_unset t root rel b in absurd cc
  | inr b ↦ elim (Bool-cases (is_root_path rel)) [
    | inl c ↦
        let to_root = resolve_at_root t root rel b c in
        let is_real = real_root-IsRoot t root real r in
        let same : real ≡ p = cc in subst (IsConfined t real) same (root-IsConfined t root real r)
    | inr c ↦
        subst (λ k. IsConfined t k p) (real_root-IsRoot t root real r)
          (resolve_under-IsConfined t (real_root t root) (bare rel) p (safe_doc_rel (bare rel)) refl
            (sym (resolve_other t root rel b c) ∙ h))
  ]
]
