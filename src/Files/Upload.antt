-- ===== src/Files/Upload.antt =====
-- Uploads into the media library, and the kinds of its files (agent/library.go).
use sideshow.Base.{
  ℕ, ◌+◌, ◌≤◌, ◌≡◌, refl, arith, Bool, true, false, ◌||◌, ◌&&◌, not, ◌==◌, some, List, [], ◌∷◌,
  ◌++◌, if◌then◌else◌, ◌⊎◌, inl, inr, ltb, leb, last?, Text, text, text_eq, is_empty, to_lower,
  contains, join_paths,
}
use sideshow.Files.Library.{
  Tree, LibError, bad_name, FileCall, remove, move, create, dir_abs, safe_name,
}

-- An upload: how long the stream is, and whether the file system creates the file, takes the data,
-- closes the file and renames it.
pub record Upload : Type 0 where
  pub size : ℕ
  pub creates : Bool
  pub copies : Bool
  pub closes : Bool
  pub moves : Bool

pub data SaveError : Type 0 where
  refused : LibError → SaveError
  not_created not_copied not_closed too_large not_moved : SaveError

-- `io.Copy` from a reader that is limited to one byte more than the most.
abbrev pub copied : ℕ → ℕ → ℕ
copied most size = if leb size (most + 1) then size else most + 1

-- The stream into the temporary file, and that renamed.
unfoldable pub save_to : ℕ → Upload → Text → (SaveError ⊎ ℕ) × List FileCall
save_to most u dst =
    let tmp = dst ++ text ".uploading" in
    let n = copied most u.size in
    if not u.creates
    then (inl not_created, create tmp ∷ [])
    else if not u.copies
    then (inl not_copied, create tmp ∷ remove tmp ∷ [])
    else if not u.closes
    then (inl not_closed, create tmp ∷ remove tmp ∷ [])
    else if ltb most n
    then (inl too_large, create tmp ∷ remove tmp ∷ [])
    else if not u.moves
    then (inl not_moved, create tmp ∷ move tmp dst ∷ remove tmp ∷ [])
    else (inr n, create tmp ∷ move tmp dst ∷ [])

abbrev pub save_into : ℕ → Upload → Text → LibError ⊎ Text → (SaveError ⊎ ℕ) × List FileCall
save_into most u name (inl e) = (inl (refused e), [])
save_into most u name (inr dir) =
    if is_empty (safe_name name)
    then (inl (refused bad_name), [])
    else save_to most u (join_paths dir (safe_name name))

-- `SaveFile`
unfoldable pub save_file : Tree → Text → Text → Text → ℕ → Upload → (SaveError ⊎ ℕ) × List FileCall
save_file t root dir_rel name most u = save_into most u name (dir_abs t root dir_rel)

-- `filepath.Ext`: from the last dot on, when no slash follows it.
unfoldable pub ext : Text → Text
ext [] = []
ext (c ∷ s) =
    let later = ext s in
    if not (is_empty later)
    then later
    else if c == 46 && not (contains s (text "/"))
    then c ∷ s
    else []

pub data LibKind : Type 0 where
  image video audio doc other : LibKind

abbrev pub is_one_of : Text → List Text → Bool
is_one_of s [] = false
is_one_of s (t ∷ ts) = text_eq s t || is_one_of s ts

-- `libKind`
unfoldable pub lib_kind : Text → LibKind
lib_kind name =
    let e = to_lower (ext name) in
    if is_one_of e (
      text ".jpg"
      ∷ text ".jpeg"
      ∷ text ".png"
      ∷ text ".gif"
      ∷ text ".webp"
      ∷ text ".bmp"
      ∷ text ".svg"
      ∷ text ".avif"
      ∷ [])
    then image
    else if is_one_of e (
        text ".mp4"
        ∷ text ".webm"
        ∷ text ".mkv"
        ∷ text ".mov"
        ∷ text ".avi"
        ∷ text ".m4v"
        ∷ text ".ogv"
        ∷ [])
    then video
    else if is_one_of e (
        text ".mp3"
        ∷ text ".m4a"
        ∷ text ".aac"
        ∷ text ".ogg"
        ∷ text ".oga"
        ∷ text ".wav"
        ∷ text ".flac"
        ∷ text ".opus"
        ∷ [])
    then audio
    else if is_one_of e (text ".pdf" ∷ [])
    then doc
    else other

all_four :
    (a b c d : Bool) → (a && b && c && d) ≡ true → (a ≡ true) × (b ≡ true) × (c ≡ true) × (d ≡ true)
all_four a b c d h = ground arith

-- An upload is kept exactly when it is no longer than the most and the file system takes it, and
-- then whole; otherwise the temporary file is the last thing that is removed, when it was created.
pub save_to_keeps :
    (most : ℕ) (u : Upload) (dst : Text)
    → let tmp = dst ++ text ".uploading" in
      ((n : ℕ) → (save_to most u dst).0 ≡ inr n → (n ≡ u.size) × (n ≤ most))
      × (u.size ≤ most
          → (u.creates && u.copies && u.closes && u.moves) ≡ true
          → save_to most u dst ≡ (inr u.size, create tmp ∷ move tmp dst ∷ []))
      × ((e : SaveError)
          → (save_to most u dst).0 ≡ inl e
          → u.creates ≡ true
          → last? (save_to most u dst).1 ≡ some (remove tmp))
unfolding save_to
save_to_keeps most u dst = (
  λ n h. ground arith,
  λ l h.
      let done = all_four u.creates u.copies u.closes u.moves h in
      let whole : copied most u.size ≡ u.size = ground arith in
      let fits : ltb most u.size ≡ false = ground arith in
      rw (done.0, done.1, done.2, done.3, whole, fits) refl,
  λ e h c. ground arith,
)
