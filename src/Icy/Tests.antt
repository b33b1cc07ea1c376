-- ===== src/Icy/Tests.antt =====
-- The ICY protocol at concrete titles and chunks.
use p2pradio.Prelude.{ℕ, ◌≡◌, refl, List, [], ◌∷◌, ◌++◌, some, arith, replicate, map, flatten}
use p2pradio.Text.{as_bytes, encode_utf8, str_len, len_utf8, is_control}
use p2pradio.Icy.{
  format_title, IcyEncoder, new, encode, encode_chunks, strip_icy, title_opening, title_closing,
}
use p2pradio.Icy.Title.{IsTitleBlock, format_title_lem, quoted}
use p2pradio.Icy.Interleave.{IsEncoder, encode_lem, interleave, remaining_after, tag}
use p2pradio.Prelude.{◌+◌, ◌*◌, ◌-◌, ◌≤◌, ◌<◌, ◌⊎◌, length}
use p2pradio.Icy.Bounds.{Framed, encode_chunks_bounds}
use p2pradio.Icy.Ends.{Ends, Endless, encode_loop-Ends}
use p2pradio.Icy.Chunks.{tag_all, wire_of, encode_chunks-tag_all}
use p2pradio.Icy.Strip.{strip_icy-encode_chunks, audio_of, titles_at}

-- "A'b" and a line feed
abbrev song : List ℕ
song = b'A' ∷ 0x27 ∷ b'b' ∷ 10 ∷ []

format_song :
    format_title song
    ≡ 2 ∷ (title_opening ++ (b'A' ∷ 0x20 ∷ b'b' ∷ 0x20 ∷ []) ++ title_closing ++ replicate 13 0)
unfolding format_title str_len as_bytes encode_utf8 len_utf8 is_control
format_song = refl

abbrev started : IcyEncoder
started = record { interval = 4; remaining = 4 }

abbrev chunks : List (List ℕ × List ℕ)
chunks = (1 ∷ 2 ∷ 3 ∷ [], song) ∷ (4 ∷ 5 ∷ [], []) ∷ (6 ∷ 7 ∷ 8 ∷ 9 ∷ [], song) ∷ []

format_title_lem_example : IsTitleBlock song (format_title song)
format_title_lem_example = format_title_lem song

encode_lem_example :
    let e' = record started {
      remaining = remaining_after 4 4 (tag (1 ∷ 2 ∷ 3 ∷ 4 ∷ 5 ∷ []) song);
    } in
    (encode started (1 ∷ 2 ∷ 3 ∷ 4 ∷ 5 ∷ []) song
      ≡ some (e', interleave 4 4 (tag (1 ∷ 2 ∷ 3 ∷ 4 ∷ 5 ∷ []) song)))
    × IsEncoder e'
encode_lem_example =
    encode_lem started (1 ∷ 2 ∷ 3 ∷ 4 ∷ 5 ∷ []) song
      (record { positive = omega arith; bounded = omega arith })

strip_icy-encode_chunks_example :
    (e : IcyEncoder) × (e' : IcyEncoder) × (frames : List (List ℕ)) × (new 4 ≡ some e)
    × (encode_chunks e chunks ≡ some (e', frames))
    × (strip_icy (flatten frames) 4
        ≡ some (audio_of chunks, map quoted (titles_at 4 4 (tag_all chunks))))
strip_icy-encode_chunks_example = strip_icy-encode_chunks 4 chunks (omega arith) (omega arith)

-- the titles of the second and the third chunk are current where an interval ends
titles_of_chunks : titles_at 4 4 (tag_all chunks) ≡ [] ∷ song ∷ []
titles_of_chunks = refl

-- the same audio under the same titles, in other chunks
abbrev recut : List (List ℕ × List ℕ)
recut =
    (1 ∷ [], song)
    ∷ (2 ∷ 3 ∷ [], song)
    ∷ (4 ∷ 5 ∷ [], [])
    ∷ (6 ∷ [], song)
    ∷ (7 ∷ 8 ∷ 9 ∷ [], song)
    ∷ []

same_wire : wire_of (encode_chunks started chunks) ≡ wire_of (encode_chunks started recut)
same_wire =
    encode_chunks-tag_all started chunks recut
      (record { positive = omega arith; bounded = omega arith }) refl

encode_chunks_bounds_example :
    (e' : IcyEncoder) × (frames : List (List ℕ)) × (k : ℕ) × (encode_chunks started chunks
      ≡ some (e', frames))
    × (9 + 0 ≡ k * 4 + (4 - e'.remaining))
    × Framed 4 4 (audio_of chunks) (flatten frames) k
    × (9 + 17 * k ≤ length (flatten frames))
    × (length (flatten frames) ≤ 9 + 4081 * k)
unfolding flatten
encode_chunks_bounds_example =
    encode_chunks_bounds started chunks (record { positive = omega arith; bounded = omega arith })

-- an encoder that `new` refuses to make
abbrev refused : IcyEncoder
refused = record { interval = 0; remaining = 2 }

encode_loop-Ends_example :
    (((0 < refused.interval) ⊎ (3 ≤ refused.remaining)) × Ends refused (1 ∷ 2 ∷ 3 ∷ []) song [])
    ⊎ ((refused.interval ≡ 0) × (refused.remaining < 3) × Endless refused (1 ∷ 2 ∷ 3 ∷ []) song [])
encode_loop-Ends_example = encode_loop-Ends refused (1 ∷ 2 ∷ 3 ∷ []) song []
