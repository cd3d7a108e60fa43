-- ===== src/Base/Paths.antt =====
-- What the agent uses of the packages `strings` and `path/filepath` on slash-separated paths.
use Prim.Native.Nat.{ℕ, zero, suc}
use mathlib.Core.Bool.{Bool, true, false, ◌&&◌, ◌||◌}
use mathlib.Core.List.{List, [], ◌∷◌, ◌++◌, reverse}
use sideshow.Base.Tests.{◌==◌, if◌then◌else◌}
use sideshow.Base.Lists.{length}
use sideshow.Base.Strings.{Text, text, text_eq, is_empty, has_prefix}

abbrev pub slash : ℕ
slash = 47

abbrev pub drop : ℕ → Text → Text
drop zero s = s
drop (suc n) [] = []
drop (suc n) (c ∷ s) = drop n s

-- `strings.TrimPrefix(s, p)`
unfoldable pub trim_prefix : Text → Text → Text
trim_prefix s p = if has_prefix s p then drop (length p) s else s

-- `strings.Contains(s, p)`
unfoldable pub contains : Text → Text → Bool
contains [] p = has_prefix [] p
contains (c ∷ s) p = has_prefix (c ∷ s) p || contains s p

abbrev pub trim_left_of : ℕ → Text → Text
trim_left_of c [] = []
trim_left_of c (d ∷ s) = let rest = trim_left_of c s in if d == c then rest else d ∷ s

abbrev pub trim_right_of : ℕ → Text → Text
trim_right_of c [] = []
trim_right_of c (d ∷ s) =
    let rest = trim_right_of c s in if is_empty rest && d == c then [] else d ∷ rest

-- `strings.Trim(s, cutset)` for a set of one character
unfoldable pub trim_of : ℕ → Text → Text
trim_of c s = trim_right_of c (trim_left_of c s)

abbrev pub onto_first : ℕ → List Text → List Text
onto_first c [] = (c ∷ []) ∷ []
onto_first c (s ∷ ss) = (c ∷ s) ∷ ss

-- `strings.Split(s, sep)` for a separator of one character
unfoldable pub split_on : ℕ → Text → List Text
split_on c [] = [] ∷ []
split_on c (d ∷ s) = let rest = split_on c s in if d == c then [] ∷ rest else onto_first d rest

-- `strings.Join(ss, sep)`
unfoldable pub join_on : ℕ → List Text → Text
join_on c [] = []
join_on c (s ∷ []) = s
join_on c (s ∷ (t ∷ ts)) = s ++ c ∷ join_on c (t ∷ ts)

-- `..` in `filepath.Clean`, on the names so far from the last to the first.
abbrev pub go_up : Bool → List Text → List Text
go_up rooted [] = if rooted then [] else text ".." ∷ []
go_up rooted (n ∷ ns) = if text_eq n (text "..") then text ".." ∷ n ∷ ns else ns

abbrev pub enter : Bool → Text → List Text → List Text
enter rooted n ns =
    if is_empty n || text_eq n (text ".")
    then ns
    else if text_eq n (text "..")
    then go_up rooted ns
    else n ∷ ns

unfoldable pub enter_all : Bool → List Text → List Text → List Text
enter_all rooted [] ns = ns
enter_all rooted (m ∷ ms) ns = enter_all rooted ms (enter rooted m ns)

abbrev pub is_rooted : Text → Bool
is_rooted p = has_prefix p (text "/")

-- The names of a path that `filepath.Clean` keeps, from the last to the first.
unfoldable pub names_of : Text → List Text
names_of p = enter_all (is_rooted p) (split_on slash p) []

-- The path of names that are given from the last to the first.
abbrev pub path_of : Bool → List Text → Text
path_of true ns = slash ∷ join_on slash (reverse ns)
path_of false [] = text "."
path_of false (n ∷ ns) = join_on slash (reverse (n ∷ ns))

-- `filepath.Clean(p)`
unfoldable pub clean : Text → Text
clean p = path_of (is_rooted p) (names_of p)

-- `filepath.Join(p, q)`
unfoldable pub join_paths : Text → Text → Text
join_paths p q =
    if is_empty p && is_empty q
    then []
    else if is_empty p
    then clean q
    else if is_empty q
    then clean p
    else clean (p ++ text "/" ++ q)
