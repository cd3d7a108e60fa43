-- ===== src/Actions/Slugs.antt =====
-- The slugs of actions: `slugify` and `uniqueSlug` (agent/actions.go).
use sideshow.Base.{
  ℕ, zero, suc, Bool, true, false, ◌||◌, ◌&&◌, List, [], ◌∷◌, ◌++◌, leb, length, if◌then◌else◌,
  Text, text, text_eq, trim_space, to_lower, decimal, trim_of,
}

-- `[a-z0-9]`
abbrev pub is_slug_char : ℕ → Bool
is_slug_char c = (leb 97 c && leb c 122) || (leb 48 c && leb c 57)

abbrev pub dash : ℕ
dash = 45

-- Each run of other characters becomes one dash; `inside` says whether the one before was such.
unfoldable pub squeeze : Bool → Text → Text
squeeze inside [] = []
squeeze inside (c ∷ s) =
    let kept = squeeze false s in
    let dropped = squeeze true s in
    if is_slug_char c then c ∷ kept else if inside then dropped else dash ∷ dropped

-- `slugify`
unfoldable pub slugify : Text → Text
slugify s = trim_of dash (squeeze false (to_lower (trim_space s)))

-- `taken[slug]`
unfoldable pub is_taken : Text → List Text → Bool
is_taken s [] = false
is_taken s (t ∷ ts) = text_eq t s || is_taken s ts

-- `fmt.Sprintf("%s-%d", slug, n)`
unfoldable pub numbered : Text → ℕ → Text
numbered slug n = slug ++ text "-" ++ decimal n

-- The search for a number from `n` on.
unfoldable pub next_free : ℕ → Text → List Text → ℕ → Text
next_free zero slug taken n = numbered slug n
next_free (suc fuel) slug taken n =
    let later = next_free fuel slug taken (suc n) in
    if is_taken (numbered slug n) taken then later else numbered slug n

-- `uniqueSlug`. Among one candidate more than there are taken slugs one is free.
unfoldable pub unique_slug : Text → List Text → Text
unique_slug slug taken = if is_taken slug taken then next_free (length taken) slug taken 2 else slug
