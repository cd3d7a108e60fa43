-- ===== src/Tests/Playlist.antt =====
-- The playlist (agent/playlist.go).
use sideshow.Base.{
  ◌≡◌, ◌≤◌, refl, true, false, none, List, [], ◌∷◌, map, length, All, Text, text, pos, negsuc,
}
use sideshow.Playlist.{
  PlaylistItem, Playlist, sanitize_items, set, new_playlist, max_playlist_items,
}
use sideshow.Playlist.Clean.{IsClean, sanitize_items-IsClean}
use sideshow.Playlist.Settles.{trimmed}
use sideshow.Playlist.Restart.{set-new_playlist}
use sideshow.Tests.Open.{playlist_open}

abbrev item : Text → Text → PlaylistItem
item kind src = record { id = text "i"; kind = kind; src = src; title = []; duration_s = negsuc 4 }

abbrev submitted : List PlaylistItem
submitted =
    item (text " Image ") (text "/media/lobby/a.png")
    ∷ item (text "video") (text "file:///etc/passwd")
    ∷ item (text "doc") (text "../secret.pdf")
    ∷ item (text "audio") (text " https://example.org/a.mp3")
    ∷ item (text "audio") (text "/media/ b.mp3")
    ∷ []

abbrev kept_item : Text → Text → PlaylistItem
kept_item kind src = record {
  id = text "i";
  kind = kind;
  src = src;
  title = [];
  duration_s = pos 0;
}

sanitized :
    sanitize_items submitted
    ≡ kept_item (text "image") (text "lobby/a.png")
      ∷ kept_item (text "audio") (text "https://example.org/a.mp3")
      ∷ kept_item (text "audio") (text " b.mp3")
      ∷ []
unfolding playlist_open
sanitized = refl

-- A path that is not relative is kept when it begins as a served document.
docfs_kept :
    sanitize_items (item (text "doc") (text "/docfs/a.pdf") ∷ [])
    ≡ kept_item (text "doc") (text "/docfs/a.pdf") ∷ []
unfolding playlist_open
docfs_kept = refl

sanitize_items-IsClean_example :
    All IsClean (sanitize_items submitted)
    × (length (sanitize_items submitted) ≤ max_playlist_items)
sanitize_items-IsClean_example = sanitize_items-IsClean submitted

abbrev fresh : Playlist
fresh = record {
  kept = record {
    items = [];
    interval_s = pos 8;
    loop = true;
    shuffle = false;
    transition = text "fade";
  };
  local_base = text "http://127.0.0.1:80";
  disk = record { has_path = true; writable = true; file = none };
}

abbrev changed : Playlist
changed = (set submitted (negsuc 0) false true (text " None") fresh).1

set-new_playlist_example :
    (new_playlist (text ":80") changed.disk).kept
    ≡ record changed.kept { items = map trimmed changed.kept.items }
set-new_playlist_example =
    set-new_playlist submitted (negsuc 0) false true (text " None") (text ":80") fresh refl refl
