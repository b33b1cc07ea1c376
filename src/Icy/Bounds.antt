-- ===== src/Icy/Bounds.antt =====
-- How long the output of `IcyEncoder` in src/rpc/mod.rs is.
use p2pradio.Prelude.{
  flatten, some, length-map, ℕ, suc, ◌+◌, ◌-◌, ◌*◌, ◌≤◌, ◌<◌, ◌≡◌, refl, ap, sym, ◌∙◌, subst, ◌++◌,
  map-append, List, [], ◌∷◌, length, length-append, arith, ◌==◌, Bool-cases, inl, inr,
}
use native.Mathlib.Nat.{suc-mul}
use p2pradio.Text.{str_len, as_bytes, encode_utf8}
use p2pradio.Icy.{format_title, IcyEncoder, encode_chunks}
use p2pradio.Icy.Strip.{audio_of}
use p2pradio.Icy.Chunks.{encode_chunks_lem, tag_all}
use p2pradio.Icy.Title.{format_title_read, format_title_lem}
use p2pradio.Icy.Interleave.{IsEncoder, tag, Tagged, bytes_of, interleave, remaining_after}

-- the shortest block is one unit, the longest 255 units
length-format_title :
    (title : List ℕ) → (17 ≤ length (format_title title)) × (length (format_title title) ≤ 4081)
length-format_title title =
    let t = format_title_lem title in
    let (b, k, read, len) = format_title_read title in
    let same : b ≡ t.blocks = cc (read, t.block_eq) in
    let some_text : 0 < str_len t.text =
      rw t.text_eq (unfold str_len as_bytes encode_utf8 in omega arith) in
    rw (read) (
      omega (arith, len, same, some_text, t.text_le, t.blocks_le),
      omega (arith, len, same, t.blocks_le),
    )

-- The output is the audio, byte for byte, with a block of 17 to 4081 bytes right after each byte that
-- completes an interval and nowhere else; `k` counts the blocks, and `remaining` the audio that is left
-- in the interval.
pub data Framed (interval : ℕ) : ℕ → List ℕ → List ℕ → ℕ → Type 0 where
  ended : {remaining : ℕ} → Framed interval remaining [] [] 0
  byte :
      {remaining : ℕ} {audio out : List ℕ} {k : ℕ} (b : ℕ)
      → 0 < remaining
      → Framed interval remaining audio out k
      → Framed interval (suc remaining) (b ∷ audio) (b ∷ out) k
  block :
      {audio out : List ℕ} {k : ℕ} (b : ℕ) (written : List ℕ)
      → 17 ≤ length written
      → length written ≤ 4081
      → Framed interval interval audio out k
      → Framed interval 1 (b ∷ audio) (b ∷ (written ++ out)) (suc k)

Framed-block :
    (i r b : ℕ) {audio out : List ℕ} {k : ℕ} (written : List ℕ)
    → r ≡ 1
    → (17 ≤ length written) × (length written ≤ 4081)
    → Framed i i audio out k
    → Framed i r (b ∷ audio) (b ∷ (written ++ out)) (suc k)
Framed-block i r b {audio = audio} {out = out} {k = k} written one fits f =
    subst (λ n. Framed i n (b ∷ audio) (b ∷ (written ++ out)) (suc k)) (sym one)
      (block b written fits.0 fits.1 f)

Framed-byte :
    (i r b : ℕ) {audio out : List ℕ} {k : ℕ}
    → 0 < r
    → 0 < r - 1
    → Framed i (r - 1) audio out k
    → Framed i r (b ∷ audio) (b ∷ out) k
Framed-byte i r b {audio = audio} {out = out} {k = k} pos more f =
    let same : suc (r - 1) ≡ r = omega (arith, pos) in
    subst (λ n. Framed i n (b ∷ audio) (b ∷ out) k) same (byte b more f)

-- The blocks among the output, counted from the bytes of audio.
interleave_bounds :
    (i r : ℕ) (xs : List Tagged)
    → 0 < r
    → r ≤ i
    → (k : ℕ) × (length xs + (i - r) ≡ k * i + (i - remaining_after i r xs))
      × Framed i r (bytes_of xs) (interleave i r xs) k
      × (length xs + 17 * k ≤ length (interleave i r xs))
      × (length (interleave i r xs) ≤ length xs + 4081 * k)
unfolding interleave remaining_after
interleave_bounds i r [] pos h = (0, omega arith, ended, omega arith, omega arith)
interleave_bounds i r ((b, title) ∷ xs) pos h = elim (Bool-cases (r == 1)) [
  | inl e ↦
      let (k, whole, framed, least, most) = interleave_bounds i i xs (omega arith) (omega arith) in
      let one : r ≡ 1 = ground arith in
      let block = length-format_title title in
      let sum = length-append (format_title title) (interleave i i xs) in
      rw (e, interleave, remaining_after)
        (
          suc k,
          omega (arith, whole, one, suc-mul k i),
          Framed-block i r b (format_title title) one block framed,
          omega (arith, least, block.0, sum),
          omega (arith, most, block.1, sum),
        )
  | inr e ↦
      let (k, whole, framed, least, most) =
        interleave_bounds i (r - 1) xs (ground arith) (omega arith) in
      rw (e, interleave, remaining_after)
        (
          k,
          omega (arith, whole),
          Framed-byte i r b pos (ground arith) framed,
          omega (arith, least),
          omega (arith, most),
        )
]

length-tag_all :
    (chunks : List (List ℕ × List ℕ)) → length (tag_all chunks) ≡ length (audio_of chunks)
unfolding flatten
length-tag_all [] = refl
length-tag_all ((audio, title) ∷ chunks) = omega (
  arith,
  length-append (tag audio title) (tag_all chunks),
  length-append audio (audio_of chunks),
  length-map {B = Tagged} (λ b. (b, title)) audio,
  length-tag_all chunks,
)

bytes_of-tag : (audio title : List ℕ) → bytes_of (tag audio title) ≡ audio
bytes_of-tag [] title = refl
bytes_of-tag (b ∷ audio) title = ap (◌∷◌ b) (bytes_of-tag audio title)

bytes_of-tag_all : (chunks : List (List ℕ × List ℕ)) → bytes_of (tag_all chunks) ≡ audio_of chunks
unfolding flatten
bytes_of-tag_all [] = refl
bytes_of-tag_all ((audio, title) ∷ chunks) =
    map-append (λ x. x.0) (tag audio title) (tag_all chunks)
    ∙ ap (λ l. l ++ bytes_of (tag_all chunks)) (bytes_of-tag audio title)
    ∙ ap (◌++◌ audio) (bytes_of-tag_all chunks)

-- From a well-formed encoder, over any chunks under any titles: the encoder ends, and its output is
-- the audio, byte for byte, with a block of 17 to 4081 bytes right after each byte that completes an
-- interval and nowhere else; the number of blocks is how often the audio, with what the interval had
-- taken before, fills the interval; and the output is as long as the audio and 17 to 4081 bytes for
-- each block.
pub encode_chunks_bounds :
    (e : IcyEncoder) (chunks : List (List ℕ × List ℕ))
    → IsEncoder e
    → let audio = length (audio_of chunks) in
      (e' : IcyEncoder) × (frames : List (List ℕ)) × (k : ℕ) × (encode_chunks e chunks
        ≡ some (e', frames))
      × (audio + (e.interval - e.remaining) ≡ k * e.interval + (e.interval - e'.remaining))
      × Framed e.interval e.remaining (audio_of chunks) (flatten frames) k
      × (audio + 17 * k ≤ length (flatten frames))
      × (length (flatten frames) ≤ audio + 4081 * k)
encode_chunks_bounds e chunks h =
    let (frames, run, wire) = encode_chunks_lem e chunks h in
    let (k, whole, framed, least, most) =
      interleave_bounds e.interval e.remaining (tag_all chunks) h.positive h.bounded in
    let audio = length-tag_all chunks in
    (
      _,
      frames,
      k,
      run,
      omega (arith, whole, audio),
      rw (wire, sym (bytes_of-tag_all chunks)) framed,
      omega (arith, least, audio, ap length wire),
      omega (arith, most, audio, ap length wire),
    )
