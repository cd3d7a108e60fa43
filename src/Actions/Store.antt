-- ===== src/Actions/Store.antt =====
-- The store of actions and its operations (agent/actions.go).
use sideshow.Base.{
  ℕ, suc, Bool, true, false, ◌&&◌, not, ◌==◌, leb, Option, none, some, List, [], ◌∷◌, ◌++◌, map,
  take, length, if◌then◌else◌, ◌⊎◌, inl, inr, Text, text, text_eq, is_empty, trim_space, decimal,
  positive_or,
}
use sideshow.Mode.{Mode, str, normalize}
use sideshow.Mode.Validate.{ModeError, validate}
use sideshow.Node.Ident.{hist_id}
use sideshow.Files.Docs.{norm_transition, local_agent_base}
use sideshow.Playlist.{sanitize_items}
use sideshow.Actions.{ActionPlaylist, Action, ActionsFile, absent, garbled, holds, Disk, Actions}
use sideshow.Actions.Slugs.{slugify, is_taken, unique_slug}

abbrev pub max_actions : ℕ
max_actions = 200

-- `playlistActionMode`
unfoldable pub playlist_action_mode : Text → Text → Mode
playlist_action_mode local_base slug = record {
  type = text "web";
  params = (text "url", str (local_base ++ text "/show?action=" ++ slug)) ∷ [];
  display = [];
}

-- The repair of a playlist that an action carries.
unfoldable pub tidy_playlist : ActionPlaylist → ActionPlaylist
tidy_playlist p = record p {
  items = sanitize_items p.items;
  interval_s = positive_or 8 p.interval_s;
  transition = norm_transition p.transition;
}

abbrev pub first_filled : Text → Text → Text
first_filled s t = if is_empty s then t else s

-- The slug that an action asks for: its own, or one from its name.
unfoldable pub wanted_slug : Action → Text
wanted_slug a =
    first_filled (first_filled (slugify a.slug) (slugify (trim_space a.name))) (text "action")

-- A mode, or the player of the playlist under the final slug.
abbrev pub mode_under : Text → Text → Option ActionPlaylist → Mode → Mode
mode_under local_base slug none m = normalize m
mode_under local_base slug (some p) m = playlist_action_mode local_base slug

abbrev pub tidied : Option ActionPlaylist → Option ActionPlaylist
tidied none = none
tidied (some p) = some (tidy_playlist p)

-- One action of `normalizeActions`, at its position, under a slug that was found for it.
unfoldable pub normal_action : Text → ℕ → Text → Action → Action
normal_action local_base i slug a = record {
  id = if is_empty a.id then hist_id (slug ++ text "|" ++ decimal i) else a.id;
  slug = slug;
  index = i;
  name = trim_space a.name;
  mode = mode_under local_base slug a.playlist a.mode;
  playlist = tidied a.playlist;
}

unfoldable pub normalize_from : Text → ℕ → List Text → List Action → List Action
normalize_from local_base i seen [] = []
normalize_from local_base i seen (a ∷ actions) =
    let slug = unique_slug (wanted_slug a) seen in
    normal_action local_base i slug a ∷ normalize_from local_base (suc i) (slug ∷ seen) actions

-- `normalizeActions`, whose loop breaks at the most actions
unfoldable pub normalize_actions : Text → List Action → List Action
normalize_actions local_base actions = take max_actions (normalize_from local_base 0 [] actions)

abbrev pub loaded : Text → ActionsFile → List Action
loaded local_base absent = []
loaded local_base garbled = []
loaded local_base (holds actions) = normalize_actions local_base actions

abbrev pub is_seen : ActionsFile → Bool
is_seen absent = false
is_seen _ = true

-- `NewActions`
unfoldable pub new_actions : Text → Disk → Actions
new_actions addr d =
    let file = if d.has_path then d.file else absent in
    record {
      items = loaded (local_agent_base addr) file;
      file_seen = is_seen file;
      local_base = local_agent_base addr;
      disk = d;
    }

unfoldable pub save : Actions → Actions
save s =
    if s.disk.has_path && s.disk.writable
    then record s { disk = record s.disk { file = holds s.items } }
    else s

abbrev pub slugs : List Action → List Text
slugs actions = map (λ a. a.slug) actions

-- The first action with an id, and what the others are.
unfoldable pub find_id : Text → List Action → Option Action
find_id id [] = none
find_id id (a ∷ actions) = if text_eq a.id id then some a else find_id id actions

unfoldable pub others_than : Text → List Action → List Action
others_than id [] = []
others_than id (a ∷ actions) =
    let rest = others_than id actions in if text_eq a.id id then actions else a ∷ rest

-- `a.items[idx] = in`
unfoldable pub put_action : Action → List Action → List Action
put_action b [] = []
put_action b (a ∷ actions) =
    let rest = put_action b actions in if text_eq a.id b.id then b ∷ actions else a ∷ rest

-- One past the largest index, 0 where there is none.
unfoldable pub next_index : List Action → ℕ
next_index [] = 0
next_index (a ∷ actions) = let n = next_index actions in if leb n a.index then suc a.index else n

pub data ActionError : Type 0 where
  no_name no_items slug_used too_many : ActionError
  bad_mode : ModeError → ActionError

abbrev pub checked_mode : Option ModeError → Option ActionError
checked_mode none = none
checked_mode (some e) = some (bad_mode e)

abbrev pub check_content : Option ActionPlaylist → Mode → Option ActionError
check_content none m = checked_mode (validate (normalize m))
check_content (some p) m = if length (tidy_playlist p).items == 0 then some no_items else none

-- The checks before the store is looked at.
unfoldable pub check_action : Action → Option ActionError
check_action a =
    if is_empty (trim_space a.name) then some no_name else check_content a.playlist a.mode

abbrev pub found_id : Text → List Action → Option Action
found_id id actions = if is_empty id then none else find_id id actions

abbrev pub other_actions : Text → List Action → List Action
other_actions id actions = if is_empty id then actions else others_than id actions

-- The slug under which an action is stored: an operator's own one is not changed.
unfoldable pub final_slug : Action → List Text → ActionError ⊎ Text
final_slug a taken =
    if not (is_taken (wanted_slug a) taken)
    then inr (wanted_slug a)
    else if not (is_empty (slugify a.slug))
    then inl slug_used
    else inr (unique_slug (wanted_slug a) taken)

-- What is stored of an action, under its id, index and slug.
unfoldable pub stored : Text → Text → ℕ → Text → Action → Action
stored local_base id i slug a = record {
  id = id;
  slug = slug;
  index = i;
  name = trim_space a.name;
  mode = mode_under local_base slug a.playlist a.mode;
  playlist = tidied a.playlist;
}

abbrev pub with_items : List Action → Actions → Actions
with_items actions s = save (record s { items = actions })

-- A new one goes to the end, one with a known id to its place.
abbrev pub place : ℕ → Action → Text → Option Action → Actions → (ActionError ⊎ Action) × Actions
place nano a slug (some old) s =
    let b = stored s.local_base old.id old.index slug a in
    (inr b, with_items (put_action b s.items) s)
place nano a slug none s =
    let b =
      stored s.local_base (hist_id (slug ++ text "|" ++ decimal nano)) (next_index s.items) slug
        a in
    if leb max_actions (length s.items)
    then (inl too_many, s)
    else (inr b, with_items (s.items ++ b ∷ []) s)

abbrev pub upsert_under :
    ℕ → Action → ActionError ⊎ Text → Actions → (ActionError ⊎ Action) × Actions
upsert_under nano a (inl e) s = (inl e, s)
upsert_under nano a (inr slug) s = place nano a slug (found_id a.id s.items) s

abbrev pub upsert_checked :
    ℕ → Action → Option ActionError → Actions → (ActionError ⊎ Action) × Actions
upsert_checked nano a (some e) s = (inl e, s)
upsert_checked nano a none s =
    upsert_under nano a (final_slug a (slugs (other_actions a.id s.items))) s

-- `Upsert`, when the clock shows `nano`
unfoldable pub upsert : ℕ → Action → Actions → (ActionError ⊎ Action) × Actions
upsert nano a s = upsert_checked nano a (check_action a) s
