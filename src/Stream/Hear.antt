-- ===== src/Stream/Hear.antt =====
-- From the muxer to the listener's player: joining (Join.antt) and the body (Body.antt) together.
use p2pradio.Prelude.{
  refl, err, sym, Result, ℕ, true, false, Option, some, List, [], ◌∷◌, ◌++◌, ◌≡◌, ◌≢◌, ◌⊎◌, ap, ◌∙◌,
  map, All, ok, flatten,
}
use p2pradio.Text.{IsText}
use p2pradio.Channel.{Broadcast}
use p2pradio.Ogg.{Page, Sample, Muxer, run_samples}
use p2pradio.Ogg.Headers.{Flagged, IsHeader, IsPlain, pages_of, pages}
use p2pradio.Icy.{icy_metaint, strip_icy}
use p2pradio.Icy.Title.{quoted}
use p2pradio.Icy.Chunks.{tag_all}
use p2pradio.Icy.Strip.{titles_at}
use p2pradio.Stream.{StreamError, Event, join, run, respond, StreamError}
use p2pradio.Stream.Join.{samples_of, KeepsUp, received, stream_join}
use p2pradio.Stream.Body.{delivered, respond-icy}

-- the pages among the items
pub pages_in : List (Result Page StreamError) → List Page
pages_in [] = []
pages_in (ok page ∷ items) = page ∷ pages_in items
pages_in (err e ∷ items) = pages_in items

pub pages_in-ok :
    {A : Type 0} (f : A → Page) (xs : List A) → pages_in (map (λ x. ok (f x)) xs) ≡ map f xs
unfolding pages_in
pages_in-ok f [] = refl
pages_in-ok f (x ∷ xs) = ap (◌∷◌ (f x)) (pages_in-ok f xs)

pub pages_in-map : (xs : List Page) → pages_in (map ok xs) ≡ xs
unfolding pages_in
pages_in-map [] = refl
pages_in-map (x ∷ xs) = ap (◌∷◌ x) (pages_in-map xs)

module _ (B : Broadcast Page) where
  -- A stream of header pages, `h ∷ heads`, and then other pages, `audio`, starts when the page before
  -- it was no header. A client asks for ICY, joins anywhere after the first page of the stream was
  -- published and keeps up; well-formed titles pass with the pages. `strip_icy`, which takes the
  -- metadata out of the body's frames, returns the bytes of all the headers and then of the audio from
  -- some point on, without a gap, and the quoted titles. Audio is missing only if it was published
  -- before the client joined.
  pub hear :
      (m : Muxer B) (earlier : List (Option Sample)) (events : List (Event B))
      → (h : Flagged) (heads audio : List Flagged) (chunks : List (Page × List ℕ))
      → m.last_was_header ≡ false
      → pages_of earlier ≢ []
      → pages_of earlier ++ pages_of (samples_of B events) ≡ (h ∷ heads) ++ audio
      → All IsHeader (h ∷ heads)
      → All IsPlain audio
      → KeepsUp B events (join B (run_samples B earlier m))
      → let s = run B events (join B (run_samples B earlier m)) in
        map (λ c. ok c.0) chunks ≡ map ok s.1.snapshot ++ received B s
        → All (λ c. IsText c.1) chunks
        → (frames : List (List ℕ)) × (missed : List Flagged) × (rest : List Flagged) × (audio
            ≡ missed ++ rest)
          × ((missed ≡ []) ⊎ (pages_of earlier ≡ (h ∷ heads) ++ missed))
          × (respond true (delivered chunks)
              ≡ some (
                record { status = 200; content_type = "audio/ogg"; metaint = some icy_metaint },
                map ok frames,
              ))
          × (strip_icy (flatten frames) icy_metaint
              ≡ some (
                flatten (pages (h ∷ heads) ++ pages rest),
                map quoted (titles_at icy_metaint icy_metaint (tag_all chunks)),
              ))
  hear m earlier events h heads audio chunks flag ne e hh ha keeps polls texts =
      let (missed, rest, p, q, whole) =
        stream_join B m earlier events h heads audio flag ne e hh ha keeps in
      let (frames, answer, stripped) = respond-icy chunks texts in
      (
        frames,
        missed,
        rest,
        p,
        q,
        answer,
        stripped
            ∙ ap
                (λ a.
                  some (flatten a, map quoted (titles_at icy_metaint icy_metaint (tag_all chunks))))
                (sym (pages_in-ok (λ c. c.0) chunks)
                  ∙ ap pages_in (polls ∙ whole)
                  ∙ pages_in-map _),
      )
