-- ===== src/Stream/Tests.antt =====
-- A stream of two headers and three audio pages, and a listener that joins after the second header
-- and the first audio page.
use p2pradio.Prelude.{
  ℕ, Bool, true, false, Option, none, some, List, [], ◌∷◌, ◌++◌, ◌≡◌, ◌⊎◌, refl, map, ok, flatten,
  arith,
}
use p2pradio.Channel.Logs.{log_broadcast}
use p2pradio.Ogg.{Page, Sample, Muxer, read_sample, publish, new_sample, run_samples}
use p2pradio.Ogg.Headers.{Flagged, pages_of, pages, IsCache, run_samples-IsCache}
use p2pradio.Icy.{icy_metaint, strip_icy}
use p2pradio.Icy.Title.{quoted}
use p2pradio.Icy.Chunks.{tag_all}
use p2pradio.Icy.Strip.{titles_at}
use p2pradio.Stream.Handlers.{
  stream_handler, response_stream, IsServed, content_since, handlers_lem,
}
use p2pradio.Stream.{
  Broadcast, Request, is_one, Event, muxed, polled, respond, join, run, step, poll,
}
use p2pradio.Stream.Join.{samples_of, received, run-join, stream_join}
use p2pradio.Stream.Body.{delivered}
use p2pradio.Stream.Hear.{hear}

abbrev sample : Page → Bool → Option Sample
sample page header =
    some (record { buffer = some (record { content = some (some page); header = header }) })

abbrev B : Broadcast Page
B = log_broadcast Page 100

abbrev idle : Muxer B
idle = record { headers = (9 ∷ []) ∷ []; last_was_header = false; dec_tx = [] }

abbrev earlier : List (Option Sample)
earlier = sample (1 ∷ []) true ∷ none ∷ sample (2 ∷ []) true ∷ sample (3 ∷ []) false ∷ []

abbrev events : List (Event B)
events = muxed (sample (4 ∷ []) false) ∷ polled ∷ polled ∷ muxed (sample (5 ∷ []) false) ∷ []

joined_and_polled :
    let s = run B events (join B (run_samples B earlier idle)) in
    (s.1.snapshot ≡ (run_samples B earlier idle).headers)
    × (received B s ≡ map ok (pages (pages_of (samples_of B events))))
unfolding run_samples new_sample publish read_sample join step poll
joined_and_polled = run-join B (run_samples B earlier idle) events (omega arith)

headers_cached : (run_samples B earlier idle).headers ≡ (1 ∷ []) ∷ (2 ∷ []) ∷ []
unfolding run_samples new_sample publish read_sample
headers_cached = refl

abbrev heads : List Flagged
heads = (2 ∷ [], true) ∷ []

abbrev audio : List Flagged
audio = (3 ∷ [], false) ∷ (4 ∷ [], false) ∷ (5 ∷ [], false) ∷ []

abbrev chunks : List (Page × List ℕ)
chunks = (1 ∷ [], []) ∷ (2 ∷ [], []) ∷ (4 ∷ [], b'a' ∷ []) ∷ (5 ∷ [], b'b' ∷ []) ∷ []

run_samples-IsCache_example :
    let m = run_samples B earlier (record { headers = []; last_was_header = false; dec_tx = [] }) in
    IsCache (pages_of earlier) m.headers m.last_was_header
run_samples-IsCache_example = run_samples-IsCache B earlier []

stream_join_example :
    let s = run B events (join B (run_samples B earlier idle)) in
    (missed : List Flagged) × (rest : List Flagged) × (audio ≡ missed ++ rest)
    × ((missed ≡ []) ⊎ (pages_of earlier ≡ ((1 ∷ [], true) ∷ heads) ++ missed))
    × (map ok s.1.snapshot ++ received B s ≡ map ok (pages ((1 ∷ [], true) ∷ heads) ++ pages rest))
unfolding run_samples new_sample publish read_sample join step poll pages_of
stream_join_example =
    stream_join B idle earlier events (1 ∷ [], true) heads audio refl (λ e. cc) refl
      (refl, (refl, tt)) (refl, (refl, (refl, tt))) (omega arith)

hear_example :
    (frames : List (List ℕ)) × (missed : List Flagged) × (rest : List Flagged) × (audio
      ≡ missed ++ rest)
    × ((missed ≡ []) ⊎ (pages_of earlier ≡ ((1 ∷ [], true) ∷ heads) ++ missed))
    × (respond true (delivered chunks)
        ≡ some (
          record { status = 200; content_type = "audio/ogg"; metaint = some icy_metaint },
          map ok frames,
        ))
    × (strip_icy (flatten frames) icy_metaint
        ≡ some (
          flatten (pages ((1 ∷ [], true) ∷ heads) ++ pages rest),
          map quoted (titles_at icy_metaint icy_metaint (tag_all chunks)),
        ))
unfolding run_samples new_sample publish read_sample join run step poll pages_of
hear_example =
    hear B idle earlier events (1 ∷ [], true) heads audio chunks refl (λ e. cc) refl
      (refl, (refl, tt)) (refl, (refl, (refl, tt))) (omega arith) refl (omega arith)

-- a request that names the header in any case
abbrev asks : Request
asks name = some "1"

handlers_lem_example :
    let m = run_samples B earlier idle in
    (frames : List (List ℕ)) × (metaint : Option ℕ) × IsServed
      (content_since B m events)
      (map quoted (titles_at icy_metaint icy_metaint (tag_all chunks)))
      frames
      (is_one (asks "icy-metadata"))
      metaint
    × ((stream_handler B asks m).0 ≡ (response_stream B asks m).0)
    × ((stream_handler B asks m).1 (delivered chunks)
        ≡ some
            (record { status = 200; content_type = "audio/ogg"; metaint = metaint }, map ok frames))
    × ((response_stream B asks m).1 (delivered chunks)
        ≡ some
            (record { status = 200; content_type = "audio/ogg"; metaint = metaint }, map ok frames))
unfolding run_samples new_sample publish read_sample join run step poll pages_of
handlers_lem_example =
    handlers_lem B asks (run_samples B earlier idle) events chunks refl (omega arith) refl
      (omega arith)
