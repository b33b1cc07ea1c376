-- ===== src/Icy/Strip.antt =====
-- `strip_icy`, of the tests of src/rpc/mod.rs, recovers audio and titles from what `encode` wrote.
use p2pradio.Prelude.{
  true, false, map-append, dec_le, All-append, ℕ, zero, suc, ◌≤◌, ◌<◌, ◌≡◌, refl, sym, ap, ◌∙◌,
  some, List, [], ◌∷◌, ◌++◌, ◌==◌, if◌then◌else◌, length, take, drop, map, arith, append_assoc,
  append-nil, length-append, take-length_append, drop-length_append, flatten, All, length-map, leb,
}
use p2pradio.Text.{IsText}
use p2pradio.Icy.{format_title, IcyEncoder, new, encode_chunks, strip_block, strip_loop, strip_icy}
use p2pradio.Icy.Blocks.{strip_block-format_title}
use p2pradio.Icy.Title.{quoted}
use p2pradio.Icy.Interleave.{tag, Tagged, bytes_of, interleave, countdown}
use p2pradio.Icy.Chunks.{tag_all, encode_chunks_lem}

-- The titles at the bytes that complete an interval.
abbrev pub titles_at : ℕ → ℕ → List Tagged → List (List ℕ)
titles_at interval remaining [] = []
titles_at interval remaining ((byte, title) ∷ xs) =
    (if remaining == 1 then title ∷ [] else [])
    ++ titles_at interval (countdown interval remaining) xs

not_last : (r : ℕ) → (suc (suc r) == 1) ≡ false
not_last r = ground arith

countdown_inner : (i r : ℕ) → countdown i (suc (suc r)) ≡ suc r
countdown_inner i r = ground arith

interleave_inner :
    (i r b : ℕ) (t : List ℕ) (xs : List Tagged)
    → interleave i (suc (suc r)) ((b, t) ∷ xs) ≡ b ∷ interleave i (suc r) xs
unfolding interleave
interleave_inner i r b t xs = rw (not_last r) (ap (λ k. b ∷ interleave i k xs) (omega arith))

titles_inner :
    (i r b : ℕ) (t : List ℕ) (xs : List Tagged)
    → titles_at i (suc (suc r)) ((b, t) ∷ xs) ≡ titles_at i (suc r) xs
titles_inner i r b t xs = rw (not_last r) (ap (λ k. titles_at i k xs) (omega arith))

abbrev pub AreText : List Tagged → Type 0
AreText xs = All (λ x. IsText x.1) xs

-- The stream up to the end of the interval, and from there on.
record IsCut (i r : ℕ) (xs ys zs : List Tagged) (title : List ℕ) : Type 0 where
  whole : xs ≡ ys ++ zs
  size : length ys ≡ r
  wire : interleave i r xs ≡ bytes_of ys ++ (format_title title ++ interleave i i zs)
  titles : titles_at i r xs ≡ title ∷ titles_at i i zs
  texts : AreText xs → IsText title × AreText zs

cut :
    (i r : ℕ) (xs : List Tagged)
    → 0 < r
    → r ≤ length xs
    → (ys : List Tagged) × (zs : List Tagged) × (title : List ℕ) × IsCut i r xs ys zs title
cut i zero xs pos h = absurd (omega arith)
cut i (suc r) [] pos h = absurd (omega arith)
cut i (suc zero) ((b, t) ∷ xs) pos h = (
  (b, t) ∷ [],
  xs,
  t,
  record {
    whole = refl;
    size = refl;
    wire = unfold interleave in refl;
    titles = refl;
    texts = λ h. (h.0, h.1);
  },
)
cut i (suc (suc r)) ((b, t) ∷ xs) pos h =
    let (ys, zs, title, c) = cut i (suc r) xs (omega arith) (omega arith) in
    (
      (b, t) ∷ ys,
      zs,
      title,
      record {
        whole = ap (◌∷◌ (b, t)) c.whole;
        size = ap suc c.size;
        wire = interleave_inner i r b t xs ∙ ap (◌∷◌ b) c.wire;
        titles = titles_inner i r b t xs ∙ c.titles;
        texts = λ h. c.texts h.1;
      },
    )

-- An interval that is not complete has no metadata.
interleave_short :
    (i r : ℕ) (xs : List Tagged)
    → length xs < r
    → (interleave i r xs ≡ bytes_of xs) × (titles_at i r xs ≡ [])
interleave_short i r [] h = (unfold interleave in refl, refl)
interleave_short i zero (x ∷ xs) h = absurd (omega arith)
interleave_short i (suc zero) (x ∷ xs) h = absurd (omega arith)
interleave_short i (suc (suc r)) ((b, t) ∷ xs) h =
    let ih = interleave_short i (suc r) xs (omega arith) in
    (interleave_inner i r b t xs ∙ ap (◌∷◌ b) ih.0, titles_inner i r b t xs ∙ ih.1)

strip_loop_end :
    (fuel i : ℕ) (rest audio : List ℕ) (titles : List (List ℕ))
    → length rest < i
    → strip_loop fuel i rest audio titles ≡ some (audio ++ rest, titles)
unfolding strip_loop
strip_loop_end zero i rest audio titles h = ground arith
strip_loop_end (suc fuel) i rest audio titles h = ground arith

strip_loop_round :
    (fuel i : ℕ) (rest audio title after : List ℕ) (titles : List (List ℕ))
    → i ≤ length rest
    → strip_block (drop i rest) ≡ some (title, after)
    → strip_loop (suc fuel) i rest audio titles
      ≡ strip_loop fuel i after (audio ++ take i rest) (titles ++ title ∷ [])
unfolding strip_loop
strip_loop_round fuel i rest audio title after titles h e =
    let more : leb i (length rest) ≡ true = ground arith in rw (more, strip_loop) (rw e)

-- One interval of audio and its block.
strip_loop_interval :
    (fuel i : ℕ) (part title rest audio : List ℕ) (titles : List (List ℕ))
    → length part ≡ i
    → IsText title
    → strip_loop (suc fuel) i (part ++ (format_title title ++ rest)) audio titles
      ≡ strip_loop fuel i rest (audio ++ part) (titles ++ quoted title ∷ [])
strip_loop_interval fuel i part title rest audio titles e h =
    let wire = part ++ (format_title title ++ rest) in
    let block : strip_block (drop i wire) ≡ some (quoted title, rest) =
      rw (← e, drop-length_append) (strip_block-format_title title rest h) in
    strip_loop_round fuel i wire audio (quoted title) rest titles
      (omega (arith, length-append part (format_title title ++ rest))) block
    ∙ ap (λ a. strip_loop fuel i rest (audio ++ a) (titles ++ quoted title ∷ []))
        (rw (← e, take-length_append))

short_stream :
    (fuel i : ℕ) (xs : List Tagged) (audio : List ℕ) (titles : List (List ℕ))
    → length xs < i
    → strip_loop fuel i (interleave i i xs) audio titles
      ≡ some (audio ++ bytes_of xs, titles ++ map quoted (titles_at i i xs))
short_stream fuel i xs audio titles short =
    let s = interleave_short i i xs short in
    rw (s.0, s.1)
      (strip_loop_end fuel i (bytes_of xs) audio titles
          (omega (arith, length-map (λ (x : Tagged). x.0) xs))
        ∙ ap (λ t. some (audio ++ bytes_of xs, t)) (sym (append-nil titles)))

strip_loop-interleave :
    (fuel i : ℕ) (xs : List Tagged) (audio : List ℕ) (titles : List (List ℕ))
    → 0 < i
    → AreText xs
    → length xs ≤ fuel
    → strip_loop fuel i (interleave i i xs) audio titles
      ≡ some (audio ++ bytes_of xs, titles ++ map quoted (titles_at i i xs))
strip_loop-interleave zero i [] audio titles pos text fits = short_stream zero i [] audio titles pos
strip_loop-interleave zero i (x ∷ xs) audio titles pos text fits = absurd (omega arith)
strip_loop-interleave (suc fuel) i xs audio titles pos text fits = elim (dec_le i (length xs)) [
  | no short ↦ short_stream (suc fuel) i xs audio titles (omega arith)
  | yes full ↦
      let (ys, zs, title, c) = cut i i xs pos full in
      let fit : length zs ≤ fuel = omega (arith, ap length c.whole, length-append ys zs, c.size) in
      let audio_eq : (audio ++ bytes_of ys) ++ bytes_of zs ≡ audio ++ bytes_of xs =
        append_assoc audio (bytes_of ys) (bytes_of zs)
        ∙ ap (◌++◌ audio) (sym (ap bytes_of c.whole ∙ map-append _ ys zs)) in
      rw (c.wire, c.titles)
        (strip_loop_interval fuel i (bytes_of ys) title (interleave i i zs) audio titles
            (length-map (λ (x : Tagged). x.0) ys ∙ c.size) (c.texts text).0
          ∙ strip_loop-interleave fuel i zs (audio ++ bytes_of ys) (titles ++ quoted title ∷ []) pos
              (c.texts text).1 fit
          ∙ cc (audio_eq, append_assoc titles (quoted title ∷ []) (map quoted (titles_at i i zs))))
]

length-interleave : (i r : ℕ) (xs : List Tagged) → length xs ≤ length (interleave i r xs)
unfolding interleave
length-interleave i r [] = omega arith
length-interleave i r ((b, t) ∷ xs) = omega (
  arith,
  length-append (if r == 1 then format_title t else []) (interleave i (countdown i r) xs),
  length-interleave i (countdown i r) xs,
)

-- All the audio of the chunks, in order.
abbrev pub audio_of : List (List ℕ × List ℕ) → List ℕ
audio_of chunks = flatten (map (λ c. c.0) chunks)

bytes_of-tag : (audio title : List ℕ) → bytes_of (tag audio title) ≡ audio
bytes_of-tag [] title = refl
bytes_of-tag (b ∷ audio) title = ap (◌∷◌ b) (bytes_of-tag audio title)

bytes_of-tag_all : (chunks : List (List ℕ × List ℕ)) → bytes_of (tag_all chunks) ≡ audio_of chunks
unfolding flatten
bytes_of-tag_all [] = refl
bytes_of-tag_all ((audio, title) ∷ chunks) =
    map-append _ (tag audio title) (tag_all chunks)
    ∙ rw (bytes_of-tag audio title, bytes_of-tag_all chunks)

AreText-tag : (audio title : List ℕ) → IsText title → AreText (tag audio title)
AreText-tag [] title h = tt
AreText-tag (b ∷ audio) title h = (h, AreText-tag audio title h)

AreText-tag_all :
    (chunks : List (List ℕ × List ℕ)) → All (λ c. IsText c.1) chunks → AreText (tag_all chunks)
AreText-tag_all [] h = tt
AreText-tag_all ((audio, title) ∷ chunks) h =
    All-append (λ x. IsText x.1) (tag audio title) (tag_all chunks) (AreText-tag audio title h.0)
      (AreText-tag_all chunks h.1)

-- For every interval above zero, every list of chunks and every title current at each of them:
-- encoding all the chunks succeeds, and `strip_icy` of the concatenated frames returns exactly the
-- audio and, for each byte that completes an interval, the quoted text of the title at that byte.
pub strip_icy-encode_chunks :
    (interval : ℕ) (chunks : List (List ℕ × List ℕ))
    → 0 < interval
    → All (λ c. IsText c.1) chunks
    → (e : IcyEncoder) × (e' : IcyEncoder) × (frames : List (List ℕ)) × (new interval ≡ some e)
      × (encode_chunks e chunks ≡ some (e', frames))
      × (strip_icy (flatten frames) interval
          ≡ some (audio_of chunks, map quoted (titles_at interval interval (tag_all chunks))))
strip_icy-encode_chunks interval chunks pos texts =
    let e : IcyEncoder = record { interval = interval; remaining = interval } in
    let (frames, run, wire) =
      encode_chunks_lem e chunks (record { positive = pos; bounded = omega arith }) in
    let xs = tag_all chunks in
    (
      e,
      _,
      frames,
      unfold new in ground arith,
      run,
      rw wire (
          unfold strip_icy in
          strip_loop-interleave _ interval xs [] [] pos (AreText-tag_all chunks texts)
            (length-interleave interval interval xs)
          ∙ ap (λ a. some (a, map quoted (titles_at interval interval xs)))
              (bytes_of-tag_all chunks)),
    )
