-- ===== src/Actions/Ops.antt =====
-- Further operations on the actions: `Delete`, `Get`, `Reorder`, `List`, `PlaylistInfo`,
-- `CurrentSlug` and `Seed` (agent/actions.go).
use sideshow.Base.{
  ℕ, suc, Bool, true, false, ◌&&◌, ◌||◌, not, ◌==◌, leb, Option, none, some, List, [], ◌∷◌, ◌++◌,
  length, keep_if, if◌then◌else◌, Text, text, text_eq, is_empty,
}
use sideshow.Mode.{Mode}
use sideshow.Mode.Equivalent.{label}
use sideshow.Node.{CustomMode}
use sideshow.Node.Launchers.{mode_of}
use sideshow.Files.Docs.{or_first}
use sideshow.Playlist.{PlaylistInfo}
use sideshow.Actions.{ActionPlaylist, Action, Actions}
use sideshow.Actions.Slugs.{slugify}
use sideshow.Actions.Store.{with_items, upsert, find_id}

abbrev pub is_other : Text → Action → Bool
is_other key a = not (text_eq a.slug key || text_eq a.id key)

-- `Delete`, with whether there was one
unfoldable pub delete : Text → Actions → Bool × Actions
delete key s =
    let kept = keep_if (is_other key) s.items in
    if is_empty key || length kept == length s.items then (false, s) else (true, with_items kept s)

unfoldable pub find_slug : Text → List Action → Option Action
find_slug slug [] = none
find_slug slug (a ∷ actions) = if text_eq a.slug slug then some a else find_slug slug actions

-- `Get`
unfoldable pub get : Text → Actions → Option Action
get key s = or_first (find_slug key s.items) (find_id key s.items)

-- `pos[key]`, where the last place of a key counts, for the keys from place `i` on.
unfoldable pub place_of : ℕ → Text → List Text → Option ℕ
place_of i key [] = none
place_of i key (k ∷ keys) =
    or_first (place_of (suc i) key keys) (if text_eq k key then some i else none)

-- The loop that gives each action its place, the omitted ones from `next` on.
abbrev pub placed : Option ℕ → Option ℕ → ℕ → ℕ
placed (some p) q next = p
placed none (some p) next = p
placed none none next = next

abbrev pub after_placed : Option ℕ → Option ℕ → ℕ → ℕ
after_placed none none next = suc next
after_placed _ _ next = next

unfoldable pub place_all : List Text → ℕ → List Action → List Action
place_all order next [] = []
place_all order next (a ∷ actions) =
    let p = place_of 0 a.slug order in
    let q = place_of 0 a.id order in
    record a { index = placed p q next } ∷ place_all order (after_placed p q next) actions

-- `sort.SliceStable` by index
unfoldable pub insert_by_index : Action → List Action → List Action
insert_by_index a [] = a ∷ []
insert_by_index a (b ∷ actions) =
    let rest = insert_by_index a actions in
    if leb a.index b.index then a ∷ b ∷ actions else b ∷ rest

unfoldable pub sort_by_index : List Action → List Action
sort_by_index [] = []
sort_by_index (a ∷ actions) = insert_by_index a (sort_by_index actions)

unfoldable pub renumber : ℕ → List Action → List Action
renumber i [] = []
renumber i (a ∷ actions) = record a { index = i } ∷ renumber (suc i) actions

-- `Reorder`
unfoldable pub reorder : List Text → Actions → Actions
reorder order s = with_items (renumber 0 (sort_by_index (place_all order (length order) s.items))) s

-- `List`
unfoldable pub list : Actions → List Action
list s = sort_by_index s.items

abbrev pub info_of : Text → Text → Option ActionPlaylist → Option PlaylistInfo
info_of local_base slug none = none
info_of local_base slug (some p) = some (record {
  kept = record {
    items = p.items;
    interval_s = p.interval_s;
    loop = p.loop;
    shuffle = p.shuffle;
    transition = p.transition;
  };
  show_url = local_base ++ text "/show?action=" ++ slug;
})

unfoldable pub find_playlist : Text → Text → List Action → Option PlaylistInfo
find_playlist local_base slug [] = none
find_playlist local_base slug (a ∷ actions) =
    or_first (if text_eq a.slug slug then info_of local_base slug a.playlist else none)
      (find_playlist local_base slug actions)

-- `PlaylistInfo`
unfoldable pub playlist_info : Text → Actions → Option PlaylistInfo
playlist_info slug s = find_playlist s.local_base slug s.items

abbrev pub shows_alike : Mode → Action → Bool
shows_alike m a = text_eq a.mode.type m.type && text_eq (label a.mode) (label m)

abbrev pub shows_same : Mode → Action → Bool
shows_same m a =
    text_eq a.mode.type m.type
    && text_eq a.mode.display m.display
    && text_eq (label a.mode) (label m)

unfoldable pub first_slug : (Action → Bool) → List Action → Option Text
first_slug p [] = none
first_slug p (a ∷ actions) = if p a then some a.slug else first_slug p actions

abbrev pub slug_or : Option Text → Text → Text
slug_or none s = s
slug_or (some t) s = t

-- `CurrentSlug`
unfoldable pub current_slug : Mode → Actions → Text
current_slug m s =
    if is_empty m.type
    then []
    else slug_or (first_slug (shows_same m) s.items)
        (slug_or (first_slug (shows_alike m) s.items) [])

abbrev pub action_of : CustomMode → Action
action_of cm = record {
  id = [];
  slug = slugify cm.name;
  index = 0;
  name = cm.name;
  mode = mode_of cm;
  playlist = none;
}

-- The loop of `Seed`, at the times that the clock shows.
unfoldable pub seed_all : List (ℕ × CustomMode) → Actions → Actions
seed_all [] s = s
seed_all ((nano, cm) ∷ customs) s = seed_all customs (upsert nano (action_of cm) s).1

abbrev pub is_filled : List Action → Bool
is_filled [] = false
is_filled (a ∷ actions) = true

-- `Seed`
unfoldable pub seed : List (ℕ × CustomMode) → Actions → Actions
seed customs s = if s.file_seen || is_filled s.items then s else seed_all customs s
