-- ===== src/Node/Reread.antt =====
-- A mode that comes back from `state.json` (agent/state.go): its JSON gives a `[]string` back as a
-- `[]any`, which the readers of the parameters take alike.
use sideshow.Base.{
  ◌≡◌, refl, ap, ◌∙◌, Bool, Option, none, some, List, [], ◌∷◌, map, Text, text, text_eq, Bool-cases,
  inl, inr,
}
use sideshow.Mode.{
  Value, str, flag, strings, array, env, other, Params, Mode, param, as_str, as_flag, as_argv,
  only_strings, str_of, bool_or, argv,
}
use sideshow.Mode.Equivalent.Reads.{ReadsAs}

abbrev pub reread_value : Value → Value
reread_value (strings a) = array (map some a)
reread_value (str s) = str s
reread_value (flag b) = flag b
reread_value (array a) = array a
reread_value (env e) = env e
reread_value other = other

abbrev pub reread_params : Params → Params
reread_params [] = []
reread_params ((k, v) ∷ rest) = (k, reread_value v) ∷ reread_params rest

unfoldable pub reread : Mode → Mode
reread m = record m { params = reread_params m.params }

abbrev reread_found : Option Value → Option Value
reread_found none = none
reread_found (some v) = some (reread_value v)

param-reread :
    (key : Text) (ps : Params) → param key (reread_params ps) ≡ reread_found (param key ps)
unfolding param
param-reread key [] = refl
param-reread key ((k, v) ∷ rest) = elim (Bool-cases (text_eq k key)) [
  | inl b ↦ rw b refl
  | inr b ↦ rw b (param-reread key rest)
]

only_strings-some : (a : List Text) → only_strings (map some a) ≡ a
only_strings-some [] = refl
only_strings-some (s ∷ a) = ap (λ r. s ∷ r) (only_strings-some a)

as_str-reread : (v : Option Value) → as_str (reread_found v) ≡ as_str v
as_str-reread none = refl
as_str-reread (some (str s)) = refl
as_str-reread (some (flag b)) = refl
as_str-reread (some (strings a)) = refl
as_str-reread (some (array a)) = refl
as_str-reread (some (env e)) = refl
as_str-reread (some other) = refl

as_flag-reread : (def : Bool) (v : Option Value) → as_flag def (reread_found v) ≡ as_flag def v
as_flag-reread def none = refl
as_flag-reread def (some (str s)) = refl
as_flag-reread def (some (flag b)) = refl
as_flag-reread def (some (strings a)) = refl
as_flag-reread def (some (array a)) = refl
as_flag-reread def (some (env e)) = refl
as_flag-reread def (some other) = refl

as_argv-reread : (v : Option Value) → as_argv (reread_found v) ≡ as_argv v
as_argv-reread none = refl
as_argv-reread (some (str s)) = refl
as_argv-reread (some (flag b)) = refl
as_argv-reread (some (strings a)) = only_strings-some a
as_argv-reread (some (array a)) = refl
as_argv-reread (some (env e)) = refl
as_argv-reread (some other) = refl

-- No reader of a mode notices the way through the file.
pub reread-ReadsAs : (m : Mode) → ReadsAs (reread m) m
unfolding reread str_of bool_or argv
reread-ReadsAs m = record {
  type = refl;
  display = refl;
  strs = λ key. ap as_str (param-reread key m.params) ∙ as_str-reread (param key m.params);
  flags = λ key def.
      ap (as_flag def) (param-reread key m.params) ∙ as_flag-reread def (param key m.params);
  args =
      ap as_argv (param-reread (text "argv") m.params)
      ∙ as_argv-reread (param (text "argv") m.params);
}
