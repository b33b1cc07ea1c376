-- ===== src/Ogg/Headers.antt =====
-- What the `new_sample` callback of src/backend/ogg_dec.rs keeps in the header cache.
use p2pradio.Prelude.{
  subst, Bool, true, false, Option, List, [], ◌∷◌, ◌++◌, Result, ok, err, ◌≡◌, refl, ap, sym, ◌∙◌,
  map, map-append, append_assoc, append-nil, All, All-append,
}
use p2pradio.Channel.{Broadcast}
use p2pradio.Ogg.{FlowError, Page, Sample, Muxer, read_sample, publish, new_sample, run_samples}

-- A page, and whether its buffer has the flag `HEADER`.
abbrev pub Flagged : Type 0
Flagged = Page × Bool

abbrev pub IsHeader : Flagged → Type 0
IsHeader x = x.1 ≡ true

abbrev pub IsPlain : Flagged → Type 0
IsPlain x = x.1 ≡ false

-- The samples that could be read.
unfoldable pub pages_of : List (Option Sample) → List Flagged
pages_of [] = []
pages_of (s ∷ samples) = elim (read_sample s) [
  | err e ↦ pages_of samples
  | ok x ↦ x ∷ pages_of samples
]

abbrev pub pages : List Flagged → List Page
pages = map (λ x. x.0)

-- the list is empty, or its last page is no header
abbrev pub EndsPlain : List Flagged → Type 0
EndsPlain [] = Unit
EndsPlain (x ∷ []) = IsPlain x
EndsPlain (x ∷ y ∷ xs) = EndsPlain (y ∷ xs)

EndsPlain-All : (xs : List Flagged) → All IsPlain xs → EndsPlain xs
EndsPlain-All [] h = tt
EndsPlain-All (x ∷ []) h = h.0
EndsPlain-All (x ∷ y ∷ xs) h = EndsPlain-All (y ∷ xs) h.1

EndsPlain-append :
    (xs : List Flagged) (y : Flagged) (ys : List Flagged)
    → EndsPlain (y ∷ ys)
    → EndsPlain (xs ++ y ∷ ys)
EndsPlain-append [] y ys h = h
EndsPlain-append (x ∷ []) y ys h = h
EndsPlain-append (x ∷ z ∷ xs) y ys h = EndsPlain-append (z ∷ xs) y ys h

-- The cache and the flag that fit the pages so far: no header has come; the pages end in a run of
-- headers; or other pages have come after the last run. The cache is the whole of the last run.
pub data IsCache (seen : List Flagged) (cache : List Page) (last : Bool) : Type 0 where
  none_yet : All IsPlain seen → cache ≡ [] → last ≡ false → IsCache seen cache last
  in_run :
      (before : List Flagged) (x : Flagged) (run : List Flagged)
      → seen ≡ before ++ x ∷ run
      → EndsPlain before
      → All IsHeader (x ∷ run)
      → cache ≡ pages (x ∷ run)
      → last ≡ true
      → IsCache seen cache last
  past_run :
      (before : List Flagged) (x : Flagged) (run : List Flagged) (y : Flagged)
      (after : List Flagged)
      → seen ≡ before ++ (x ∷ run ++ y ∷ after)
      → EndsPlain before
      → All IsHeader (x ∷ run)
      → All IsPlain (y ∷ after)
      → cache ≡ pages (x ∷ run)
      → last ≡ false
      → IsCache seen cache last

module _ (B : Broadcast Page) where
  abbrev pub Fits : List Flagged → Muxer B → Type 0
  Fits seen m = IsCache seen m.headers m.last_was_header

  publish-header :
      (seen : List Flagged) (p : Page) (m : Muxer B)
      → Fits seen m
      → Fits (seen ++ (p, true) ∷ []) (publish B p true m)
  unfolding publish
  publish-header seen p m (none_yet plain empty flag) =
      in_run seen (p, true) [] refl (EndsPlain-All seen plain) (refl, tt) (rw flag refl) refl
  publish-header seen p m (in_run before x run e ends heads cache flag) =
      in_run before x (run ++ (p, true) ∷ [])
        (ap (λ s. s ++ (p, true) ∷ []) e ∙ append_assoc before (x ∷ run) _) ends
        (All-append IsHeader (x ∷ run) ((p, true) ∷ []) heads (refl, tt))
        (rw (flag, cache) (sym (map-append (λ x. x.0) (x ∷ run) ((p, true) ∷ [])))) refl
  publish-header seen p m (past_run before x run y after e ends heads plain cache flag) =
      in_run seen (p, true) [] refl
        (subst EndsPlain (sym (e ∙ sym (append_assoc before (x ∷ run) (y ∷ after))))
          (EndsPlain-append (before ++ x ∷ run) y after (EndsPlain-All (y ∷ after) plain)))
        (refl, tt) (rw flag refl) refl

  publish-plain :
      (seen : List Flagged) (p : Page) (m : Muxer B)
      → Fits seen m
      → Fits (seen ++ (p, false) ∷ []) (publish B p false m)
  unfolding publish
  publish-plain seen p m (none_yet plain empty flag) =
      none_yet (All-append IsPlain seen ((p, false) ∷ []) plain (refl, tt)) empty refl
  publish-plain seen p m (in_run before x run e ends heads cache flag) =
      past_run before x run (p, false) []
        (ap (λ s. s ++ (p, false) ∷ []) e ∙ append_assoc before (x ∷ run) _) ends heads (refl, tt)
        cache refl
  publish-plain seen p m (past_run before x run y after e ends heads plain cache flag) =
      past_run before x run y (after ++ (p, false) ∷ [])
        (ap (λ s. s ++ (p, false) ∷ []) e
          ∙ append_assoc before (x ∷ run ++ y ∷ after) ((p, false) ∷ [])
          ∙ ap (◌++◌ before) (append_assoc (x ∷ run) (y ∷ after) ((p, false) ∷ [])))
        ends heads (All-append IsPlain (y ∷ after) ((p, false) ∷ []) plain (refl, tt)) cache refl

  unfoldable pub publish_all : List Flagged → Muxer B → Muxer B
  publish_all [] m = m
  publish_all (x ∷ xs) m = publish_all xs (publish B x.0 x.1 m)

  -- A sample that cannot be read changes nothing.
  pub run_samples-pages_of :
      (samples : List (Option Sample)) (m : Muxer B)
      → run_samples B samples m ≡ publish_all (pages_of samples) m
  unfolding publish_all
  run_samples-pages_of [] m = unfold run_samples pages_of in refl
  run_samples-pages_of (s ∷ samples) m =
      by_result (λ n. run_samples-pages_of samples n) (read_sample s) refl
    where
      by_result :
          ((n : Muxer B) → run_samples B samples n ≡ publish_all (pages_of samples) n)
          → (r : Result Flagged FlowError) → read_sample s ≡ r
          → run_samples B (s ∷ samples) m ≡ publish_all (pages_of (s ∷ samples)) m
      by_result ih (ok x) e =
          unfold run_samples new_sample pages_of in
          rw (e, new_sample, pages_of) (ih (publish B x.0 x.1 m))
      by_result ih (err f) e =
          unfold run_samples new_sample pages_of in rw (e, new_sample, pages_of) (ih m)

  publish_all-IsCache :
      (seen xs : List Flagged) (m : Muxer B) → Fits seen m → Fits (seen ++ xs) (publish_all xs m)
  unfolding publish_all
  publish_all-IsCache seen [] m h = subst (λ s. Fits s m) (sym (append-nil seen)) h
  publish_all-IsCache seen ((p, true) ∷ xs) m h =
      subst (λ s. Fits s (publish_all xs (publish B p true m)))
        (append_assoc seen ((p, true) ∷ []) xs)
        (publish_all-IsCache (seen ++ (p, true) ∷ []) xs _ (publish-header seen p m h))
  publish_all-IsCache seen ((p, false) ∷ xs) m h =
      subst (λ s. Fits s (publish_all xs (publish B p false m)))
        (append_assoc seen ((p, false) ∷ []) xs)
        (publish_all-IsCache (seen ++ (p, false) ∷ []) xs _ (publish-plain seen p m h))

  -- From an empty cache, after any samples: the cache holds the whole of the last run of header pages
  -- among those that could be read, also while that run is still arriving, and nothing else; it is
  -- empty exactly as long as no header page has come.
  pub run_samples-IsCache :
      (samples : List (Option Sample)) (c : B.Chan)
      → let m =
          run_samples B samples (record { headers = []; last_was_header = false; dec_tx = c }) in
        IsCache (pages_of samples) m.headers m.last_was_header
  run_samples-IsCache samples c =
      rw run_samples-pages_of (publish_all-IsCache [] (pages_of samples) _ (none_yet tt refl refl))

pub pages_of-cons :
    (s : Option Sample) (samples : List (Option Sample))
    → pages_of (s ∷ samples) ≡ pages_of (s ∷ []) ++ pages_of samples
unfolding pages_of
pages_of-cons s samples = by_result (read_sample s) refl
  where
    by_result :
        (r : Result Flagged FlowError)
        → read_sample s ≡ r
        → pages_of (s ∷ samples) ≡ pages_of (s ∷ []) ++ pages_of samples
    by_result (ok x) e = rw (e, pages_of)
    by_result (err f) e = rw (e, pages_of)

pub pages_of-append :
    (xs ys : List (Option Sample)) → pages_of (xs ++ ys) ≡ pages_of xs ++ pages_of ys
pages_of-append [] ys = unfold pages_of in refl
pages_of-append (x ∷ xs) ys =
    pages_of-cons x (xs ++ ys)
    ∙ ap (◌++◌ (pages_of (x ∷ []))) (pages_of-append xs ys)
    ∙ sym (append_assoc (pages_of (x ∷ [])) (pages_of xs) (pages_of ys))
    ∙ ap (λ z. z ++ pages_of ys) (sym (pages_of-cons x xs))
