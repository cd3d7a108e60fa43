-- ===== src/Playlist/Restart.antt =====
-- What a restart of the agent makes of a playlist that was set (agent/playlist.go).
use sideshow.Base.{
  ℕ, zero, suc, ◌≡◌, refl, sym, subst, Bool, true, false, ◌&&◌, List, if◌then◌else◌, Text, text,
  text_eq, trim_space, trim_left, trim_right, is_space, to_lower, lower, ℤ, pos, negsuc,
  positive_or,
}
use mathlib.Core.List.{map}
use sideshow.Files.Docs.{norm_transition}
use sideshow.Playlist.{
  PlaylistItem, Disk, Playlist, sanitize_items, load, interval_or, new_playlist, save, set,
}
use sideshow.Playlist.Clean.{sanitize_items-IsClean}
use sideshow.Playlist.Settles.{trimmed, sanitize_items_again}

-- The two transitions stand for themselves.
norm_transition_words :
    (norm_transition (text "none") ≡ text "none") × (norm_transition (text "fade") ≡ text "fade")
unfolding norm_transition text_eq trim_space trim_left trim_right is_space to_lower lower
norm_transition_words = (refl, refl)

norm_transition_if :
    (b : Bool)
    → norm_transition (if b then text "none" else text "fade")
      ≡ (if b then text "none" else text "fade")
norm_transition_if true = norm_transition_words.0
norm_transition_if false = norm_transition_words.1

norm_transition_eq :
    (s : Text)
    → norm_transition s
      ≡ (if text_eq (to_lower (trim_space s)) (text "none") then text "none" else text "fade")
unfolding norm_transition
norm_transition_eq s = refl

norm_transition_idem : (s : Text) → norm_transition (norm_transition s) ≡ norm_transition s
norm_transition_idem s =
    subst (λ k. norm_transition k ≡ k) (sym (norm_transition_eq s))
      (norm_transition_if (text_eq (to_lower (trim_space s)) (text "none")))

interval_or-positive_or :
    (def n : ℤ) (m : ℕ) → interval_or def (positive_or (suc m) n) ≡ positive_or (suc m) n
interval_or-positive_or def (pos zero) m = refl
interval_or-positive_or def (pos (suc n)) m = refl
interval_or-positive_or def (negsuc n) m = refl

abbrev pub is_on_disk : Disk → Bool
is_on_disk d = d.has_path && d.writable

-- A playlist that is set and written comes back after a restart with its interval, its flags and its
-- transition, and with its items but for white space around their sources.
pub set-new_playlist :
    (items : List PlaylistItem) (interval_s : ℤ) (loop shuffle : Bool) (transition addr : Text)
    (p : Playlist)
    → p.disk.has_path ≡ true
    → p.disk.writable ≡ true
    → let q = (set items interval_s loop shuffle transition p).1 in
      (new_playlist addr q.disk).kept ≡ record q.kept { items = map trimmed q.kept.items }
unfolding set save new_playlist load
set-new_playlist items interval_s loop shuffle transition addr p h w =
    let clean = sanitize_items-IsClean items in
    rw
      (
        h,
        w,
        sanitize_items_again (sanitize_items items) clean.0 clean.1,
        interval_or-positive_or (pos 8) interval_s 7,
        norm_transition_idem transition,
      )
      refl
