-- ===== src/Node/Launchers.antt =====
-- The operations on the saved custom modes of a node (agent/state.go).
use sideshow.Base.{
  ℕ, Bool, true, false, not, ◌&&◌, ◌||◌, Option, none, some, List, [], ◌∷◌, ◌++◌, length, keep_if,
  ◌==◌, if◌then◌else◌, ◌⊎◌, inl, inr, Text, text, text_eq, is_empty, trim_space, decimal,
}
use sideshow.Mode.{Mode, strings, env}
use sideshow.Node.{CustomMode, State}
use sideshow.Node.Ident.{hist_id}
use sideshow.Node.Ops.{save, if_removed}

abbrev pub is_empty_env : List (Text × Text) → Bool
is_empty_env [] = true
is_empty_env (kv ∷ rest) = false

-- `cm.mode()`
unfoldable pub mode_of : CustomMode → Mode
mode_of cm = record {
  type = text "app";
  params =
      (text "argv", strings (cm.command ∷ cm.args))
      ∷ (if is_empty_env cm.env then [] else (text "env", env cm.env) ∷ []);
  display = cm.display;
}

pub data CustomError : Type 0 where
  no_name_or_command env_unused : CustomError

-- The trimmed name and command, and the default display.
unfoldable pub completed : CustomMode → CustomMode
unfolding trim_space
completed cm = record cm {
  name = trim_space cm.name;
  command = trim_space cm.command;
  display = if is_empty cm.display then text "compositor" else cm.display;
}

unfoldable pub check_custom : CustomMode → Option CustomError
check_custom cm =
    if is_empty cm.name || is_empty cm.command
    then some no_name_or_command
    else if not (is_empty_env cm.env)
        && not (text_eq cm.display (text "compositor"))
        && not (text_eq cm.display (text "console"))
    then some env_unused
    else none

-- The id of a new custom mode, from its name and command and the nanoseconds of the clock.
unfoldable pub with_id : ℕ → CustomMode → CustomMode
with_id nano cm =
    if is_empty cm.id
    then (record cm {
      id = hist_id (cm.name ++ text "|" ++ cm.command ++ text "|" ++ decimal nano);
    })
    else cm

-- The loop over the saved ones, which replaces the first with the id.
unfoldable pub put_custom : CustomMode → List CustomMode → List CustomMode
put_custom cm [] = cm ∷ []
put_custom cm (c ∷ cs) =
    let rest = put_custom cm cs in if text_eq c.id cm.id then cm ∷ cs else c ∷ rest

-- A mode without an id goes behind the saved ones.
unfoldable pub add_custom : ℕ → CustomMode → List CustomMode → List CustomMode
add_custom nano cm cs = if is_empty cm.id then cs ++ with_id nano cm ∷ [] else put_custom cm cs

abbrev pub with_custom : ℕ → CustomMode → State → State
with_custom nano cm s = record s {
  kept = record s.kept { custom_modes = add_custom nano cm s.kept.custom_modes };
}

abbrev pub upsert_after :
    Option CustomError → ℕ → CustomMode → State → (CustomError ⊎ CustomMode) × State
upsert_after (some e) nano cm s = (inl e, s)
upsert_after none nano cm s = (inr (with_id nano cm), save (with_custom nano cm s))

-- `UpsertCustom`, when the clock shows `nano`
unfoldable pub upsert_custom : ℕ → CustomMode → State → (CustomError ⊎ CustomMode) × State
upsert_custom nano cm s = upsert_after (check_custom (completed cm)) nano (completed cm) s

abbrev pub is_other_custom : Text → CustomMode → Bool
is_other_custom id c = not (text_eq c.id id)

abbrev pub without_custom : Text → State → State
without_custom id s = record s {
  kept = record s.kept { custom_modes = keep_if (is_other_custom id) s.kept.custom_modes };
}

-- `DeleteCustom`, with whether there was one
unfoldable pub delete_custom : Text → State → Bool × State
unfolding if_removed
delete_custom id s =
    if_removed
      (length (keep_if (is_other_custom id) s.kept.custom_modes) == length s.kept.custom_modes)
      (without_custom id s)

-- The first of the saved ones with the id.
unfoldable pub find_custom : Text → List CustomMode → Option CustomMode
find_custom id [] = none
find_custom id (c ∷ cs) = if text_eq c.id id then some c else find_custom id cs

-- `GetCustom`
unfoldable pub get_custom : Text → State → Option CustomMode
unfolding find_custom
get_custom id s = find_custom id s.kept.custom_modes
