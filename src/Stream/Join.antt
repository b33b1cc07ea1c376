-- ===== src/Stream/Join.antt =====
-- What a listener receives that joins at some point of the stream (`stream_handler` of
-- src/rpc/mod.rs with the callback of src/backend/ogg_dec.rs).
use mathlib.Core.Path.{ap₂}
use p2pradio.Prelude.{
  ◌⊎◌, All, ◌≢◌, false, Option, List, [], ◌∷◌, ◌++◌, ◌<◌, ◌≡◌, refl, ap, sym, subst, ◌∙◌,
  map-append, append_assoc, append-nil, length, Result, ok, err, map,
}
use p2pradio.Channel.{Broadcast}
use p2pradio.Ogg.{run_samples, Page, Sample, FlowError, Muxer, read_sample, publish, new_sample}
use p2pradio.Ogg.Runs.{cache_within}
use p2pradio.Ogg.Headers.{
  run_samples-pages_of, IsPlain, IsHeader, pages_of-cons, Flagged, pages_of, pages,
}
use p2pradio.Stream.{Listener, Event, muxed, polled, join, poll, step, run, StreamError}

module _ (B : Broadcast Page) where
  open B use {Chan, IsLive, unread, capacity, recv}

  abbrev pub State : Type 0
  State = Muxer B × Listener B

  -- the samples that the muxer takes
  abbrev pub samples_of : List (Event B) → List (Option Sample)
  samples_of [] = []
  samples_of (muxed s ∷ events) = s ∷ samples_of events
  samples_of (polled ∷ events) = samples_of events

  abbrev pub IsSubscribed : State → Type 0
  IsSubscribed (m, l) = IsLive m.dec_tx l.rx

  -- what the listener has read or can still read
  abbrev pub received : State → List (Result Page StreamError)
  received (m, l) = l.live ++ map ok (unread m.dec_tx l.rx)

  -- Whenever a sample comes, the listener is fewer pages behind than the channel keeps.
  abbrev pub KeepsUp : List (Event B) → State → Type 0
  KeepsUp [] s = Unit
  KeepsUp (muxed x ∷ events) s =
      (length (unread s.0.dec_tx s.1.rx) < capacity) × KeepsUp events (step B (muxed x) s)
  KeepsUp (polled ∷ events) s = KeepsUp events (step B polled s)

  record Moved (s t : State) (more : List Page) : Type 0 where
    subscribed : IsSubscribed t
    gets : received t ≡ received s ++ map ok more
    snapshot_eq : t.1.snapshot ≡ s.1.snapshot

  muxed-Moved :
      (x : Option Sample) (s : State)
      → IsSubscribed s
      → length (unread s.0.dec_tx s.1.rx) < capacity
      → Moved s (step B (muxed x) s) (pages (pages_of (x ∷ [])))
  muxed-Moved x (m, l) live room = by_result (read_sample x) refl
    where
      by_result :
          (r : Result Flagged FlowError)
          → read_sample x ≡ r
          → Moved (m, l) (step B (muxed x) (m, l)) (pages (pages_of (x ∷ [])))
      by_result (ok p) e =
          unfold step new_sample pages_of in
          rw (e, new_sample, pages_of)
            (record {
              subscribed = unfold publish in B.send_live p.0 m.dec_tx l.rx live;
              gets =
                  unfold publish in
                  ap (λ u. l.live ++ map ok u) (B.send_unread p.0 m.dec_tx l.rx live room)
                  ∙ ap (◌++◌ l.live) (map-append ok (unread m.dec_tx l.rx) (p.0 ∷ []))
                  ∙ sym (append_assoc l.live (map ok (unread m.dec_tx l.rx)) (ok p.0 ∷ []));
              snapshot_eq = refl;
            })
      by_result (err f) e =
          unfold step new_sample pages_of in
          rw (e, new_sample, pages_of)
            (record { subscribed = live; gets = sym (append-nil _); snapshot_eq = refl })

  polled-Moved : (s : State) → IsSubscribed s → Moved s (step B polled s) []
  polled-Moved (m, l) live = by_unread (unread m.dec_tx l.rx) refl
    where
      by_unread :
          (u : List Page) → unread m.dec_tx l.rx ≡ u → Moved (m, l) (step B polled (m, l)) []
      by_unread [] e =
          unfold step poll in
          rw (B.recv_empty m.dec_tx l.rx e, poll)
            (record { subscribed = live; gets = sym (append-nil _); snapshot_eq = refl })
      by_unread (p ∷ rest) e =
          let (r, next, alive, left) = B.recv_next m.dec_tx l.rx p rest live e in
          unfold step poll in
          rw (next, poll)
            (record {
              subscribed = alive;
              gets =
                  rw (left, e) (append_assoc l.live (ok p ∷ []) (map ok rest) ∙ sym (append-nil _));
              snapshot_eq = refl;
            })

  Moved-trans : {s t u : State} (a b : List Page) → Moved s t a → Moved t u b → Moved s u (a ++ b)
  Moved-trans {s} a b p q = record {
    subscribed = q.subscribed;
    gets =
        q.gets
        ∙ ap (λ r. r ++ map ok b) p.gets
        ∙ append_assoc (received s) (map ok a) (map ok b)
        ∙ ap (◌++◌ (received s)) (sym (map-append ok a b));
    snapshot_eq = q.snapshot_eq ∙ p.snapshot_eq;
  }

  run-Moved :
      (events : List (Event B)) (s : State)
      → IsSubscribed s
      → KeepsUp events s
      → Moved s (run B events s) (pages (pages_of (samples_of events)))
  unfolding run
  run-Moved [] s live h =
      unfold pages_of in record { subscribed = live; gets = sym (append-nil _); snapshot_eq = refl }
  run-Moved (muxed x ∷ events) s live h =
      let first = muxed-Moved x s live h.0 in
      let rest = run-Moved events (step B (muxed x) s) first.subscribed h.1 in
      subst (Moved s (run B (muxed x ∷ events) s))
        (sym (
          ap pages (pages_of-cons x (samples_of events))
          ∙ map-append _ (pages_of (x ∷ [])) (pages_of (samples_of events))))
        (Moved-trans _ _ first rest)
  run-Moved (polled ∷ events) s live h =
      let first = polled-Moved s live in
      Moved-trans [] _ first (run-Moved events (step B polled s) first.subscribed h)

  -- A listener that joins at any state of the muxer and then keeps up, with its polls and the muxer's
  -- samples in any order: the cached headers are its snapshot, and it has read, or has still to read,
  -- exactly the pages that the muxer published after it joined, in their order.
  pub run-join :
      (m : Muxer B) (events : List (Event B))
      → KeepsUp events (join B m)
      → let s = run B events (join B m) in
        (s.1.snapshot ≡ m.headers) × (received s ≡ map ok (pages (pages_of (samples_of events))))
  unfolding join
  run-join m events h =
      let moved = run-Moved events (join B m) (B.subscribe_live m.dec_tx) h in
      (moved.snapshot_eq, moved.gets ∙ rw (B.subscribe_unread m.dec_tx))

  -- A stream of header pages, `h ∷ heads`, and then other pages, `audio`, which the muxer starts when
  -- the page before it was no header. A listener that joins anywhere after the first page of the
  -- stream was published, and keeps up, has every header once and in order, and after them the audio
  -- without a gap from some point on; it misses audio only if that was published before it joined.
  pub stream_join :
      (m : Muxer B) (earlier : List (Option Sample)) (events : List (Event B))
      → (h : Flagged) (heads audio : List Flagged) → m.last_was_header ≡ false
      → pages_of earlier ≢ []
      → pages_of earlier ++ pages_of (samples_of events) ≡ (h ∷ heads) ++ audio
      → All IsHeader (h ∷ heads)
      → All IsPlain audio
      → KeepsUp events (join B (run_samples B earlier m))
      → let s = run B events (join B (run_samples B earlier m)) in
        (missed : List Flagged) × (rest : List Flagged) × (audio ≡ missed ++ rest)
        × ((missed ≡ []) ⊎ (pages_of earlier ≡ (h ∷ heads) ++ missed))
        × (map ok s.1.snapshot ++ received s ≡ map ok (pages (h ∷ heads) ++ pages rest))
  stream_join m earlier events h heads audio flag ne e hh ha keeps =
      let (snap, got) = run-join (run_samples B earlier m) events keeps in
      let (missed, rest, p, q, whole) =
        cache_within B m (pages_of earlier) (pages_of (samples_of events)) h heads audio flag ne e
          hh ha in
      (
        missed,
        rest,
        p,
        q,
        ap₂ (λ a b. map ok a ++ b)
              (snap ∙ ap (λ (n : Muxer B). n.headers) (run_samples-pages_of B earlier m)) got
            ∙ sym (map-append ok _ _)
            ∙ ap (map ok) whole,
      )
