-- ===== src/Node/Ident.antt =====
-- `histID` (agent/state.go): FNV-1a with 64 bits over the UTF-8 bytes of a label, in hexadecimal.
use Prim.Native.Nat.{bit_xor}
use sideshow.Base.{
  ℕ, zero, suc, ◌+◌, ◌*◌, ◌/◌, ◌%◌, List, [], ◌∷◌, ◌++◌, ltb, if◌then◌else◌, Text, is_empty, ◌≡◌,
  refl, false,
}

-- The bytes of a code point.
unfoldable pub utf8 : ℕ → List ℕ
utf8 c =
    if ltb c 0x80
    then c ∷ []
    else if ltb c 0x800
    then (0xc0 + c / 64) ∷ (0x80 + c % 64) ∷ []
    else if ltb c 0x10000
    then (0xe0 + c / 4096) ∷ (0x80 + c / 64 % 64) ∷ (0x80 + c % 64) ∷ []
    else (0xf0 + c / 262144) ∷ (0x80 + c / 4096 % 64) ∷ (0x80 + c / 64 % 64) ∷ (0x80 + c % 64) ∷ []

-- 2 ^ 64
abbrev two_64 : ℕ
two_64 = 18446744073709551616

unfoldable pub fnv : ℕ → List ℕ → ℕ
fnv h [] = h
fnv h (b ∷ bs) = fnv (bit_xor h b * 1099511628211 % two_64) bs

abbrev bytes : Text → List ℕ
bytes [] = []
bytes (c ∷ s) = utf8 c ++ bytes s

abbrev hex_digit : ℕ → ℕ
hex_digit d = if ltb d 10 then 48 + d else 87 + d

-- `%016x` of a number below 2 ^ 64
unfoldable pub hex : ℕ → ℕ → Text
hex zero n = []
hex (suc width) n = hex width (n / 16) ++ hex_digit (n % 16) ∷ []

unfoldable pub hist_id : Text → Text
unfolding utf8 fnv hex
hist_id label = hex 16 (fnv 14695981039346656037 (bytes label))

not_empty : (s : Text) (c : ℕ) → is_empty (s ++ c ∷ []) ≡ false
not_empty [] c = refl
not_empty (d ∷ s) c = refl

hex_not_empty : (width n : ℕ) → is_empty (hex (suc width) n) ≡ false
unfolding hex
hex_not_empty width n = not_empty (hex width (n / 16)) (hex_digit (n % 16))

-- An id is never empty.
pub hist_id_not_empty : (label : Text) → is_empty (hist_id label) ≡ false
unfolding hist_id
hist_id_not_empty label = hex_not_empty 15 (fnv 14695981039346656037 (bytes label))
