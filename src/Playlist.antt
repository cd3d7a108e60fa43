-- ===== src/Playlist.antt =====
-- The playlist of mixed media (agent/playlist.go): its items as they are kept, and the store with
-- its file. Times are seconds.
pub mod Clean
pub mod Settles
pub mod Restart
use sideshow.Base.{
  ℕ, zero, suc, Bool, true, false, ◌||◌, ◌&&◌, not, Option, none, some, List, [], ◌∷◌, ◌++◌, take,
  onto, length, if◌then◌else◌, ◌⊎◌, inl, inr, Text, text, text_eq, is_empty, trim_space, to_lower,
  contains, trim_prefix, ℤ, pos, negsuc, at_least_zero, positive_or,
}
use mathlib.Core.Option.{map}
use sideshow.Node.Ident.{hist_id}
use sideshow.Files.Docs.{PathError, safe_doc_rel, is_http, norm_transition, local_agent_base}

pub record PlaylistItem : Type 0 where
  pub id : Text
  pub kind : Text
  pub src : Text
  pub title : Text
  pub duration_s : ℤ

abbrev pub max_playlist_items : ℕ
max_playlist_items = 500

-- `playlistKinds[kind]`
unfoldable pub is_playlist_kind : Text → Bool
is_playlist_kind k =
    text_eq k (text "image")
    || text_eq k (text "video")
    || text_eq k (text "audio")
    || text_eq k (text "doc")

abbrev pub in_library : Text → PathError ⊎ Text → Option Text
in_library s (inl e) = none
in_library s (inr c) = some s

-- The source that is kept of one that is trimmed.
unfoldable pub src_of : Text → Option Text
src_of s =
    if is_http s
    then some s
    else if contains s (text "://")
    then none
    else in_library (trim_prefix s (text "/media/")) (safe_doc_rel (trim_prefix s (text "/media/")))

-- The id of an item that has none.
abbrev pub named : Text → Text → Text → Text
named id kind src = if is_empty id then hist_id (kind ++ text ":" ++ src) else id

abbrev pub finished : PlaylistItem → Text → Text → PlaylistItem
finished it kind src = record it {
  id = named it.id kind src;
  kind = kind;
  src = src;
  duration_s = at_least_zero it.duration_s;
}

-- What is kept of one item, if anything.
unfoldable pub sanitize_item : PlaylistItem → Option PlaylistItem
sanitize_item it =
    let kind = to_lower (trim_space it.kind) in
    let src = trim_space it.src in
    if is_empty src || not (is_playlist_kind kind)
    then none
    else map (finished it kind) (src_of src)

unfoldable pub collect_items : List PlaylistItem → List PlaylistItem
collect_items [] = []
collect_items (it ∷ its) = onto (sanitize_item it) (collect_items its)

-- `sanitizeItems`, whose loop breaks at the most items
unfoldable pub sanitize_items : List PlaylistItem → List PlaylistItem
sanitize_items its = take max_playlist_items (collect_items its)

-- What `playlist.json` holds.
pub record Kept : Type 0 where
  pub items : List PlaylistItem
  pub interval_s : ℤ
  pub loop : Bool
  pub shuffle : Bool
  pub transition : Text

-- The file: whether there is a path, whether a write gets through, and what it holds, `none` where
-- it cannot be read or decoded.
pub record Disk : Type 0 where
  pub has_path : Bool
  pub writable : Bool
  pub file : Option Kept

-- `Playlist`
pub record Playlist : Type 0 where
  pub kept : Kept
  pub local_base : Text
  pub disk : Disk

-- `PlaylistInfo`
pub record PlaylistInfo : Type 0 where
  pub kept : Kept
  pub show_url : Text

-- `if pp.IntervalS > 0`
abbrev pub interval_or : ℤ → ℤ → ℤ
interval_or def (pos zero) = def
interval_or def (pos (suc n)) = pos (suc n)
interval_or def (negsuc n) = def

unfoldable pub load : Kept → Option Kept → Kept
load k none = k
load k (some p) = record {
  items = sanitize_items p.items;
  interval_s = interval_or k.interval_s p.interval_s;
  loop = p.loop;
  shuffle = p.shuffle;
  transition = norm_transition p.transition;
}

abbrev pub defaults : Kept
defaults = record {
  items = [];
  interval_s = pos 8;
  loop = true;
  shuffle = false;
  transition = text "fade";
}

-- `NewPlaylist`
unfoldable pub new_playlist : Text → Disk → Playlist
new_playlist addr d = record {
  kept = load defaults (if d.has_path then d.file else none);
  local_base = local_agent_base addr;
  disk = d;
}

unfoldable pub save : Playlist → Playlist
save p =
    if p.disk.has_path && p.disk.writable
    then record p { disk = record p.disk { file = some p.kept } }
    else p

-- `ShowURL`, `Info`
abbrev pub show_url : Playlist → Text
show_url p = p.local_base ++ text "/show"

abbrev pub info : Playlist → PlaylistInfo
info p = record { kept = p.kept; show_url = show_url p }

-- `Set`
unfoldable pub set : List PlaylistItem → ℤ → Bool → Bool → Text → Playlist → PlaylistInfo × Playlist
set items interval_s loop shuffle transition p =
    let k : Kept = record {
      items = sanitize_items items;
      interval_s = positive_or 8 interval_s;
      loop = loop;
      shuffle = shuffle;
      transition = norm_transition transition;
    } in
    let stored = save (record p { kept = k }) in (info stored, stored)
