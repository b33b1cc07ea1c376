-- ===== src/Stream/Body.antt =====
-- The body of the response: `stream_handler` of src/rpc/mod.rs after the critical section.
use mathlib.Core.Option
use p2pradio.Prelude.{
  inr, inl, Option-cases, ℕ, Bool, true, false, Option, none, some, List, [], ◌∷◌, ◌≡◌, refl, ◌∙◌,
  map, All, Result, ok, err, flatten, arith,
}
use p2pradio.Text.{IsText}
use p2pradio.Ogg.{Page}
use p2pradio.Icy.{IcyEncoder, icy_metaint, new, encode, encode_chunks, strip_icy}
use p2pradio.Icy.Title.{quoted}
use p2pradio.Icy.Chunks.{tag_all}
use p2pradio.Icy.Strip.{strip_icy-encode_chunks, audio_of, titles_at}
use p2pradio.Stream.{StreamError, Head, response_head, body, respond}

abbrev pub Item : Type 0
Item = Result Page StreamError × List ℕ

-- Without ICY every item goes to the client as it is, an error too.
body-plain : (e : IcyEncoder) (items : List Item) → body false e items ≡ some (map (λ i. i.0) items)
unfolding body
body-plain e [] = refl
body-plain e ((ok page, title) ∷ items) = rw (body-plain e items)
body-plain e ((err x, title) ∷ items) = rw (body-plain e items)

-- a page that was not lost, with the title of its time
abbrev pub delivered : List (Page × List ℕ) → List Item
delivered = map (λ c. (ok c.0, c.1))

frames_of : Option (IcyEncoder × List (List ℕ)) → Option (List (Result (List ℕ) StreamError))
frames_of none = none
frames_of (some (e, frames)) = some (map ok frames)

-- With ICY the frames are those of the encoder.
body-icy :
    (e : IcyEncoder) (chunks : List (Page × List ℕ))
    → body true e (delivered chunks) ≡ frames_of (encode_chunks e chunks)
unfolding body encode_chunks frames_of
body-icy e [] = refl
body-icy e ((audio, title) ∷ chunks) = elim (Option-cases (encode e audio title)) [
  | inl p ↦ rw (p, body, encode_chunks)
  | inr ((e', f), p) ↦ elim (Option-cases (encode_chunks e' chunks)) [
    | inl q ↦ rw (p, body, encode_chunks) (rw (body-icy e' chunks, q))
    | inr (r, q) ↦ rw (p, body, encode_chunks) (rw (body-icy e' chunks, q))
  ]
]

-- A request without ICY gets no `icy-metaint` and the pages as they are.
pub respond-plain :
    (items : List Item)
    → respond false items
      ≡ some (
        record { status = 200; content_type = "audio/ogg"; metaint = none },
        map (λ i. i.0) items,
      )
unfolding respond new response_head
respond-plain items =
    rw (body-plain (record { interval = icy_metaint; remaining = icy_metaint }) items)

abbrev respond_with :
    Bool
    → Option (List (Result (List ℕ) StreamError))
    → Option (Head × List (Result (List ℕ) StreamError))
unfolding response_head
respond_with icy = Option.map (λ frames. (response_head icy, frames))

respond-encoder :
    (e : IcyEncoder) (chunks : List (Page × List ℕ))
    → new icy_metaint ≡ some e
    → respond true (delivered chunks) ≡ respond_with true (frames_of (encode_chunks e chunks))
respond-encoder e chunks fresh =
    unfold respond response_head in rw (fresh, respond) (rw (body-icy e chunks))

-- A request with ICY is told the interval 8192; from the body, when no page was lost to it,
-- `strip_icy` recovers the pages, joined, and the quoted title at each byte that completes an
-- interval. The encoder always ends.
pub respond-icy :
    (chunks : List (Page × List ℕ))
    → All (λ c. IsText c.1) chunks
    → (frames : List (List ℕ)) × (respond true (delivered chunks)
        ≡ some (
          record { status = 200; content_type = "audio/ogg"; metaint = some icy_metaint },
          map ok frames,
        ))
      × (strip_icy (flatten frames) icy_metaint
          ≡ some (audio_of chunks, map quoted (titles_at icy_metaint icy_metaint (tag_all chunks))))
respond-icy chunks texts =
    let (e, e', frames, fresh, run, stripped) =
      strip_icy-encode_chunks icy_metaint chunks (omega arith) texts in
    (
      frames,
      respond-encoder e chunks fresh ∙ rw run (unfold respond_with frames_of in refl),
      stripped,
    )
