-- ===== src/Icy.antt =====
-- src/rpc/mod.rs, the ICY metadata protocol: `format_title` writes the metadata block of a title,
-- `IcyEncoder` puts one block after each `interval` bytes of audio, and `strip_icy`, of the file's
-- tests, takes a stream apart again. Bytes are numbers, titles are texts (Text.antt).
pub mod Title
pub mod Interleave
pub mod Chunks
pub mod Ends
pub mod Bounds
pub mod Blocks
pub mod Strip
mod Tests
use mathlib.Core.Option
use p2pradio.Prelude.{
  ℕ, zero, suc, ◌+◌, ◌-◌, ◌*◌, ◌/◌, ◌%◌, Bool, true, false, ◌||◌, Option, none, some, List, [], ◌∷◌,
  ◌++◌, ltb, leb, ◌==◌, if◌then◌else◌, length, take, drop, replicate, min,
}
use p2pradio.Text.{as_bytes, from_utf8, str_len, len_utf8, is_control}

abbrev pub icy_metaint : ℕ
icy_metaint = 8192

-- 255 blocks of 16 bytes
abbrev pub max_text : ℕ
max_text = 255 * 16

-- "StreamTitle='"
abbrev pub title_opening : List ℕ
title_opening =
    b'S' ∷ b't' ∷ b'r' ∷ b'e' ∷ b'a' ∷ b'm' ∷ b'T' ∷ b'i' ∷ b't' ∷ b'l' ∷ b'e' ∷ b'=' ∷ 0x27 ∷ []

-- "';"
abbrev pub title_closing : List ℕ
title_closing = 0x27 ∷ b';' ∷ []

-- Avoid terminating the quoted value or injecting control characters.
unfoldable pub clean : ℕ → ℕ
unfolding is_control
clean ch = if ch == 0x27 || is_control ch then 0x20 else ch

-- the loop over `title.chars()`
unfoldable pub push_title : List ℕ → List ℕ → List ℕ
push_title text [] = text
push_title text (ch ∷ title) =
    let longer = push_title (text ++ clean ch ∷ []) title in
    if ltb max_text (str_len text + len_utf8 (clean ch) + 2) then text else longer

-- `usize::div_ceil`
abbrev pub div_ceil : ℕ → ℕ → ℕ
div_ceil n d = if n % d == 0 then n / d else n / d + 1

-- `Vec::resize`
abbrev pub resize : ℕ → ℕ → List ℕ → List ℕ
resize n v xs = take n xs ++ replicate (n - length xs) v

-- the block for a text; `as u8` keeps the low eight bits
unfoldable pub block_of : List ℕ → List ℕ
block_of text =
    let blocks = div_ceil (str_len text) 16 in
    resize (1 + blocks * 16) 0 (([] ++ blocks % 256 ∷ []) ++ as_bytes text)

unfoldable pub format_title : List ℕ → List ℕ
unfolding push_title block_of clean
format_title title = block_of (push_title title_opening title ++ title_closing)

pub record IcyEncoder : Type 0 where
  pub interval : ℕ
  pub remaining : ℕ

-- `IcyEncoder::new`; `none` is the panic of its `assert!`
unfoldable pub new : ℕ → Option IcyEncoder
new interval =
    if ltb 0 interval then some (record { interval = interval; remaining = interval }) else none

-- `while !audio.is_empty()` on fuel; `none` means that the fuel ran out
unfoldable pub encode_loop :
    ℕ → IcyEncoder → List ℕ → List ℕ → List ℕ → Option (IcyEncoder × List ℕ)
encode_loop fuel e [] title output = some (e, output)
encode_loop zero e (byte ∷ more) title output = none
encode_loop (suc fuel) e (byte ∷ more) title output =
    let audio = byte ∷ more in
    let count = min e.remaining (length audio) in
    let copied = output ++ take count audio in
    let left = e.remaining - count in
    encode_loop fuel (record e { remaining = if left == 0 then e.interval else left })
      (drop count audio) title (if left == 0 then copied ++ format_title title else copied)

-- `IcyEncoder::encode`; each round takes at least one byte while `remaining` is positive
unfoldable pub encode : IcyEncoder → List ℕ → List ℕ → Option (IcyEncoder × List ℕ)
unfolding encode_loop
encode e audio title = encode_loop (length audio) e audio title []

-- One frame of the body for each chunk, each under the title of the time when it is encoded.
unfoldable pub encode_chunks :
    IcyEncoder → List (List ℕ × List ℕ) → Option (IcyEncoder × List (List ℕ))
encode_chunks e [] = some (e, [])
encode_chunks e ((audio, title) ∷ chunks) = elim (encode e audio title) [
  | none ↦ none
  | some (e', frame) ↦ Option.map (λ r. (r.0, frame ∷ r.1)) (encode_chunks e' chunks)
]

-- `trim_end_matches('\0')`
unfoldable pub trim_nul : List ℕ → List ℕ
trim_nul [] = []
trim_nul (c ∷ t) = elim (trim_nul t) [ [] ↦ if c == 0 then [] else c ∷ [] | d ∷ u ↦ c ∷ d ∷ u ]

-- One metadata block at the front: its text, and what follows. `none` is a panic, from an index out
-- of range or from `unwrap` on bytes that are not UTF-8.
unfoldable pub strip_block : List ℕ → Option (List ℕ × List ℕ)
unfolding trim_nul from_utf8
strip_block [] = none
strip_block (n ∷ rest) =
    let size = n * 16 in
    if ltb (length rest) size
    then none
    else Option.map (λ text. (trim_nul text, drop size rest)) (from_utf8 (take size rest))

-- `while rest.len() >= interval` on fuel; `none` is a panic, or means that the fuel ran out
unfoldable pub strip_loop :
    ℕ → ℕ → List ℕ → List ℕ → List (List ℕ) → Option (List ℕ × List (List ℕ))
strip_loop zero interval rest audio titles =
    if leb interval (length rest) then none else some (audio ++ rest, titles)
strip_loop (suc fuel) interval rest audio titles = elim (leb interval (length rest)) [
  | false ↦ some (audio ++ rest, titles)
  | true ↦ elim (strip_block (drop interval rest)) [
    | none ↦ none
    | some (title, after) ↦
        strip_loop fuel interval after (audio ++ take interval rest) (titles ++ title ∷ [])
  ]
]

-- `strip_icy`; each round takes the length byte at least
unfoldable pub strip_icy : List ℕ → ℕ → Option (List ℕ × List (List ℕ))
unfolding strip_loop strip_block
strip_icy wire interval = strip_loop (length wire) interval wire [] []
