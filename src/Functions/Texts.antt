-- ===== src/Functions/Texts.antt =====
-- What execution/functions uses of Go's strings: their runes, and parts of the package strings.
use Prim.Native.String.{String}
use Prim.Native.Char.{code}
use octosql.Base.{
  ℕ, zero, suc, ◌+◌, ◌-◌, ◌*◌, ◌/◌, ◌%◌, Bool, true, false, List, [], ◌∷◌, ◌++◌, Bytes, Option,
  none, some, ltb, leb, ◌==◌, ◌&&◌, if◌then◌else◌, get_elem?,
}
use mathlib.Core.List.{reverse}

-- The bytes of a text in ASCII.
abbrev pub codes : String → Bytes
codes String.[] = []
codes (String.◌∷◌ c s) = code c ∷ codes s

abbrev byte_at : Bytes → ℕ → ℕ
byte_at bs i = elim (get_elem? bs i) [ none ↦ 0 | some b ↦ b ]

abbrev within : ℕ → ℕ → ℕ → Bool
within low high b = leb low b && leb b high

-- The lowest and the highest second byte after a first byte of a rune.
abbrev lowest_second : ℕ → ℕ
lowest_second a = if a == 224 then 160 else if a == 240 then 144 else 128

abbrev highest_second : ℕ → ℕ
highest_second a = if a == 237 then 159 else if a == 244 then 143 else 191

-- A rune from four bytes, and how many of them it takes. What is no UTF-8 is one byte, read as U+FFFD.
abbrev rune_from : ℕ → ℕ → ℕ → ℕ → ℕ × ℕ
rune_from a b c d =
    let second = within (lowest_second a) (highest_second a) b in
    if ltb a 128
    then (a, 1)
    else if within 194 223 a && second
    then ((a - 192) * 64 + (b - 128), 2)
    else if within 224 239 a && second && within 128 191 c
    then ((a - 224) * 4096 + (b - 128) * 64 + (c - 128), 3)
    else if within 240 244 a && second && within 128 191 c && within 128 191 d
    then ((a - 240) * 262144 + (b - 128) * 4096 + (c - 128) * 64 + (d - 128), 4)
    else (65533, 1)

abbrev decode_rune : Bytes → ℕ × ℕ
decode_rune bs = rune_from (byte_at bs 0) (byte_at bs 1) (byte_at bs 2) (byte_at bs 3)

abbrev pub encode_rune : ℕ → Bytes
encode_rune r =
    if ltb r 128
    then r ∷ []
    else if ltb r 2048
    then (192 + r / 64) ∷ (128 + r % 64) ∷ []
    else if ltb r 65536
    then (224 + r / 4096) ∷ (128 + r / 64 % 64) ∷ (128 + r % 64) ∷ []
    else (240 + r / 262144) ∷ (128 + r / 4096 % 64) ∷ (128 + r / 64 % 64) ∷ (128 + r % 64) ∷ []

-- For each byte the rune that starts there, and 0 where none does, behind so many bytes of a rune.
unfoldable pub runes_by_byte : ℕ → Bytes → List ℕ
runes_by_byte behind [] = []
runes_by_byte (suc behind) (b ∷ bs) = 0 ∷ runes_by_byte behind bs
runes_by_byte zero (b ∷ bs) = let r = decode_rune (b ∷ bs) in r.0 ∷ runes_by_byte (r.1 - 1) bs

abbrev pub encode_runes : List ℕ → Bytes
encode_runes [] = []
encode_runes (r ∷ rs) = encode_rune r ++ encode_runes rs

-- `strings.HasPrefix`, `HasSuffix`, `Index` (`none` for -1) and `Join`, the text first.
abbrev pub has_prefix : Bytes → Bytes → Bool
has_prefix bs [] = true
has_prefix [] (p ∷ ps) = false
has_prefix (b ∷ bs) (p ∷ ps) = b == p && has_prefix bs ps

abbrev pub has_suffix : Bytes → Bytes → Bool
has_suffix bs suffix = has_prefix (reverse bs) (reverse suffix)

abbrev pub one_later : Option ℕ → Option ℕ
one_later none = none
one_later (some i) = some (suc i)

unfoldable pub string_index : Bytes → Bytes → Option ℕ
string_index [] text = if has_prefix [] text then some 0 else none
string_index (b ∷ bs) text =
    let later = one_later (string_index bs text) in
    if has_prefix (b ∷ bs) text then some 0 else later

unfoldable pub join : List Bytes → Bytes → Bytes
join [] delimiter = []
join (t ∷ []) delimiter = t
join (t ∷ u ∷ ts) delimiter = t ++ (delimiter ++ join (u ∷ ts) delimiter)
