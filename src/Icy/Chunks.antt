-- ===== src/Icy/Chunks.antt =====
-- The body of an ICY response as one run of the encoder of src/rpc/mod.rs over the chunks of audio.
use mathlib.Core.Option.{Option}
use p2pradio.Prelude.{none, Option, ℕ, ◌≡◌, refl, sym, ap, ◌∙◌, some, List, [], ◌∷◌, ◌++◌, flatten}
use p2pradio.Icy.{encode_chunks, IcyEncoder}
use p2pradio.Icy.Interleave.{
  IsEncoder, Tagged, tag, interleave, remaining_after, interleave-append, remaining_after-append,
  encode_lem,
}

abbrev pub tag_all : List (List ℕ × List ℕ) → List Tagged
tag_all [] = []
tag_all ((audio, title) ∷ chunks) = tag audio title ++ tag_all chunks

pub encode_chunks_lem :
    (e : IcyEncoder) (chunks : List (List ℕ × List ℕ))
    → IsEncoder e
    → (frames : List (List ℕ)) × (encode_chunks e chunks
        ≡ some (
          record e { remaining = remaining_after e.interval e.remaining (tag_all chunks) },
          frames,
        ))
      × (flatten frames ≡ interleave e.interval e.remaining (tag_all chunks))
unfolding encode_chunks flatten
encode_chunks_lem e [] h = ([], unfold remaining_after in refl, unfold interleave in refl)
encode_chunks_lem e ((audio, title) ∷ chunks) h =
    let xs = tag audio title in
    let r = remaining_after e.interval e.remaining xs in
    let (frames, run, wire) =
      encode_chunks_lem (record e { remaining = r }) chunks (encode_lem e audio title h).1 in
    (
      interleave e.interval e.remaining xs ∷ frames,
      rw ((encode_lem e audio title h).0, encode_chunks) (rw (run, remaining_after-append) refl),
      ap (◌++◌ (interleave e.interval e.remaining xs)) wire
          ∙ sym (interleave-append e.interval e.remaining xs (tag_all chunks)),
    )

-- What a run of the encoder leaves: its state, and the frames as the bytes on the wire.
abbrev pub wire_of : Option (IcyEncoder × List (List ℕ)) → Option (IcyEncoder × List ℕ)
wire_of none = none
wire_of (some (e, frames)) = some (e, flatten frames)

-- From a well-formed encoder, two ways to cut the same audio, under the same titles, into chunks
-- leave the same encoder and the same bytes on the wire.
pub encode_chunks-tag_all :
    (e : IcyEncoder) (chunks chunks' : List (List ℕ × List ℕ))
    → IsEncoder e
    → tag_all chunks ≡ tag_all chunks'
    → wire_of (encode_chunks e chunks) ≡ wire_of (encode_chunks e chunks')
encode_chunks-tag_all e chunks chunks' h same =
    let (frames, run, wire) = encode_chunks_lem e chunks h in
    let (frames', run', wire') = encode_chunks_lem e chunks' h in rw (run, run', wire, wire', same)
