-- ===== src/Text.antt =====
-- Rust's `char` and `String`, as the standard library documents them and as src/p2p/codec.rs and
-- src/rpc/mod.rs use them. A `char` is a Unicode scalar value, kept as a number with its range as
-- a predicate; a `String` is a list of such; its bytes are its UTF-8 encoding.
pub mod Utf8
use mathlib.Core.Option
use p2pradio.Prelude.{
  ℕ, zero, suc, ◌+◌, ◌-◌, ◌*◌, ◌/◌, ◌%◌, ◌≤◌, ◌<◌, ◌⊎◌, Bool, ◌&&◌, ◌||◌, Option, none, some, List,
  [], ◌∷◌, ◌++◌, ltb, ◌==◌, within, if◌then◌else◌, length, All,
}

-- a Unicode scalar value: not a surrogate, and at most 0x10ffff
abbrev pub IsScalar : ℕ → Type 0
IsScalar c = (c < 0xd800) ⊎ ((0xe000 ≤ c) × (c < 0x110000))

abbrev pub IsText : List ℕ → Type 0
IsText t = All IsScalar t

abbrev pub IsByte : ℕ → Type 0
IsByte b = b < 256

-- the UTF-8 encoding of one `char`
unfoldable pub encode_utf8 : ℕ → List ℕ
encode_utf8 c =
    if ltb c 0x80
    then c ∷ []
    else if ltb c 0x800
    then (0xc0 + c / 64) ∷ (0x80 + c % 64) ∷ []
    else if ltb c 0x10000
    then (0xe0 + c / 4096) ∷ (0x80 + c / 64 % 64) ∷ (0x80 + c % 64) ∷ []
    else (0xf0 + c / 262144) ∷ (0x80 + c / 4096 % 64) ∷ (0x80 + c / 64 % 64) ∷ (0x80 + c % 64) ∷ []

-- `char::len_utf8`
unfoldable pub len_utf8 : ℕ → ℕ
len_utf8 c = if ltb c 0x80 then 1 else if ltb c 0x800 then 2 else if ltb c 0x10000 then 3 else 4

-- `char::is_control`: the general category Cc
unfoldable pub is_control : ℕ → Bool
is_control c = ltb c 0x20 || within 0x7f 0x9f c

-- `str::as_bytes`
unfoldable pub as_bytes : List ℕ → List ℕ
as_bytes [] = []
as_bytes (c ∷ t) = encode_utf8 c ++ as_bytes t

-- `str::len`
unfoldable pub str_len : List ℕ → ℕ
str_len t = length (as_bytes t)

-- the byte sequences of two, three and four bytes that are well formed, by their first byte
unfoldable pub two_bytes : ℕ → List ℕ → Option (ℕ × List ℕ)
two_bytes a (b ∷ rest) =
    if within 0x80 0xbf b then some ((a - 0xc0) * 64 + (b - 0x80), rest) else none
two_bytes a [] = none

unfoldable pub second_of_three : ℕ → ℕ → Bool
second_of_three a b =
    if a == 0xe0
    then within 0xa0 0xbf b
    else if a == 0xed
    then within 0x80 0x9f b
    else within 0x80 0xbf b

unfoldable pub three_bytes : ℕ → List ℕ → Option (ℕ × List ℕ)
three_bytes a (b ∷ c ∷ rest) =
    if second_of_three a b && within 0x80 0xbf c
    then some ((a - 0xe0) * 4096 + (b - 0x80) * 64 + (c - 0x80), rest)
    else none
three_bytes a _ = none

unfoldable pub second_of_four : ℕ → ℕ → Bool
second_of_four a b =
    if a == 0xf0
    then within 0x90 0xbf b
    else if a == 0xf4
    then within 0x80 0x8f b
    else within 0x80 0xbf b

unfoldable pub four_bytes : ℕ → List ℕ → Option (ℕ × List ℕ)
four_bytes a (b ∷ c ∷ d ∷ rest) =
    if second_of_four a b && within 0x80 0xbf c && within 0x80 0xbf d
    then some ((a - 0xf0) * 262144 + (b - 0x80) * 4096 + (c - 0x80) * 64 + (d - 0x80), rest)
    else none
four_bytes a _ = none

-- The first `char` of a byte sequence, and what follows it.
unfoldable pub decode_first : List ℕ → Option (ℕ × List ℕ)
decode_first [] = none
decode_first (a ∷ bs) =
    if ltb a 0x80
    then some (a, bs)
    else if within 0xc2 0xdf a
    then two_bytes a bs
    else if within 0xe0 0xef a
    then three_bytes a bs
    else if within 0xf0 0xf4 a
    then four_bytes a bs
    else none

unfoldable pub decode_all : ℕ → List ℕ → Option (List ℕ)
decode_all fuel [] = some []
decode_all zero (b ∷ bs) = none
decode_all (suc fuel) (b ∷ bs) = elim (decode_first (b ∷ bs)) [
  | none ↦ none
  | some (c, rest) ↦ Option.map (◌∷◌ c) (decode_all fuel rest)
]

-- `std::str::from_utf8`, `none` for its error: every `char` takes a byte, so the fuel suffices.
unfoldable pub from_utf8 : List ℕ → Option (List ℕ)
unfolding decode_all decode_first two_bytes three_bytes four_bytes second_of_three second_of_four
from_utf8 bs = decode_all (length bs) bs
