-- ===== src/Stream/Handlers.antt =====
-- The two handlers of src/rpc/mod.rs, `stream_handler` for axum and `response_stream` for hyper, whole:
-- the critical section, and the response over the items that its body has met by then, each with the
-- title of its time.
use p2pradio.Prelude.{
  ℕ, Bool, true, false, ◌≡◌, refl, sym, ap, subst, ◌∙◌, Option, none, some, List, [], ◌∷◌, ◌++◌,
  map, All, flatten, Result, ok, map-append,
}
use p2pradio.Text.{IsText}
use p2pradio.Channel.{Broadcast}
use p2pradio.Ogg.{Page, Muxer}
use p2pradio.Ogg.Headers.{pages_of, pages}
use p2pradio.Icy.{icy_metaint, strip_icy}
use p2pradio.Icy.Title.{quoted}
use p2pradio.Icy.Chunks.{tag_all}
use p2pradio.Icy.Strip.{titles_at, audio_of}
use p2pradio.Stream.{
  Request, is_one, icy_requested, icy_requested_hyper, StreamError, Head, Listener, Event, join,
  run, respond,
}
use p2pradio.Stream.Join.{samples_of, KeepsUp, received, run-join}
use p2pradio.Stream.Hear.{pages_in, pages_in-ok, pages_in-map}
use p2pradio.Stream.Body.{Item, delivered, respond-icy, respond-plain}

abbrev pub Response : Type 0
Response = Option (Head × List (Result (List ℕ) StreamError))

module _ (B : Broadcast Page) where
  unfoldable pub stream_handler :
      Request → Muxer B → (Muxer B × Listener B) × (List Item → Response)
  stream_handler req m = (join B m, respond (icy_requested req))

  unfoldable pub response_stream :
      Request → Muxer B → (Muxer B × Listener B) × (List Item → Response)
  response_stream req m = (join B m, respond (icy_requested_hyper req))

-- What a client gets that asked for ICY, or that did not.
pub data IsServed (content : List ℕ) (titles : List (List ℕ)) (frames : List (List ℕ))
    : Bool → Option ℕ → Type 0 where
  with_icy :
      strip_icy (flatten frames) icy_metaint ≡ some (content, titles)
      → IsServed content titles frames true (some icy_metaint)
  plain : flatten frames ≡ content → IsServed content titles frames false none

plain_frames :
    (chunks : List (Page × List ℕ))
    → map (λ (i : Item). i.0) (delivered chunks) ≡ map ok (map (λ c. c.0) chunks)
plain_frames [] = refl
plain_frames (c ∷ chunks) = ap (◌∷◌ (ok c.0)) (plain_frames chunks)

served_lem :
    (icy : Bool) (chunks : List (Page × List ℕ))
    → All (λ c. IsText c.1) chunks
    → (frames : List (List ℕ)) × (metaint : Option ℕ) × (respond icy (delivered chunks)
        ≡ some
            (record { status = 200; content_type = "audio/ogg"; metaint = metaint }, map ok frames))
      × IsServed
          (audio_of chunks)
          (map quoted (titles_at icy_metaint icy_metaint (tag_all chunks)))
          frames
          icy
          metaint
served_lem true chunks texts =
    let (frames, answer, stripped) = respond-icy chunks texts in
    (frames, some icy_metaint, answer, with_icy stripped)
served_lem false chunks texts = (
  map (λ c. c.0) chunks,
  none,
  respond-plain (delivered chunks)
      ∙ ap (λ fs. some (record { status = 200; content_type = "audio/ogg"; metaint = none }, fs))
          (plain_frames chunks),
  plain refl,
)

module _ (B : Broadcast Page) where
  -- what a client is to get that joined at `m`: the cached headers, and every page published since
  abbrev pub content_since : Muxer B → List (Event B) → List ℕ
  content_since m events = flatten (m.headers ++ pages (pages_of (samples_of B events)))

  content_lem :
      (m : Muxer B) (events : List (Event B)) (chunks : List (Page × List ℕ))
      → KeepsUp B events (join B m)
      → let s = run B events (join B m) in
        map (λ c. ok c.0) chunks ≡ map ok s.1.snapshot ++ received B s
        → audio_of chunks ≡ content_since m events
  content_lem m events chunks keeps polls =
      let (snap, got) = run-join B m events keeps in
      let new_pages = pages (pages_of (samples_of B events)) in
      ap flatten (
        sym (pages_in-ok (λ c. c.0) chunks)
        ∙ ap pages_in (
            polls
            ∙ ap (λ h. map ok h ++ received B (run B events (join B m))) snap
            ∙ ap (◌++◌ (map ok m.headers)) got
            ∙ sym (map-append ok m.headers new_pages))
        ∙ pages_in-map _)

  -- A header map finds a name however its letters are cased. For every such request that keeps up, at
  -- any state of the muxer and with its polls and the muxer's samples in any order, both handlers
  -- subscribe the same listener and return the same response with status 200 and audio/ogg. If the
  -- header's value is "1", it names the interval 8192, and `strip_icy` recovers from the body the
  -- cached headers and every page published since, with the quoted titles; otherwise the body is just
  -- these bytes. The titles are well formed.
  pub handlers_lem :
      (req : Request) (m : Muxer B) (events : List (Event B)) (chunks : List (Page × List ℕ))
      → req "Icy-MetaData" ≡ req "icy-metadata"
      → KeepsUp B events (join B m)
      → let s = run B events (join B m) in
        map (λ c. ok c.0) chunks ≡ map ok s.1.snapshot ++ received B s
        → All (λ c. IsText c.1) chunks
        → (frames : List (List ℕ)) × (metaint : Option ℕ) × IsServed
            (content_since m events)
            (map quoted (titles_at icy_metaint icy_metaint (tag_all chunks)))
            frames
            (is_one (req "icy-metadata"))
            metaint
          × ((stream_handler B req m).0 ≡ (response_stream B req m).0)
          × ((stream_handler B req m).1 (delivered chunks)
              ≡ some (
                record { status = 200; content_type = "audio/ogg"; metaint = metaint },
                map ok frames,
              ))
          × ((response_stream B req m).1 (delivered chunks)
              ≡ some (
                record { status = 200; content_type = "audio/ogg"; metaint = metaint },
                map ok frames,
              ))
  unfolding stream_handler response_stream icy_requested icy_requested_hyper
  handlers_lem req m events chunks same keeps polls texts =
      let titles = map quoted (titles_at icy_metaint icy_metaint (tag_all chunks)) in
      let (frames, metaint, answer, served) =
        served_lem (is_one (req "icy-metadata")) chunks texts in
      (
        frames,
        metaint,
        subst (λ content. IsServed content titles frames (is_one (req "icy-metadata")) metaint)
            (content_lem m events chunks keeps polls) served,
        refl,
        ap (λ v. respond (is_one v) (delivered chunks)) same ∙ answer,
        answer,
      )
