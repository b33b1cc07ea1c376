-- ===== src/Pipeline/Pads.antt =====
-- What the `pad-added` handlers of src/backend/icecast_ogg.rs keep linked.
use p2pradio.Prelude.{
  ◌≡◌, ◌≢◌, ◌⊎◌, refl, ap, sym, subst, ◌∙◌, true, false, Option, none, some, List, [], ◌∷◌, ◌++◌,
  All, inl, inr, ok, err, Option-cases, Result-cases,
}
use p2pradio.Pipeline.Links.{differ, unlink_old-none, unlink_old-other}
use p2pradio.Pipeline.{
  Linking, PadAdded, uri_pad, parse_pad, uri_pad_added, parse_pad_added, unlink_old, pad_added,
  pads_added,
}

append_nil_left : {A : Type 0} (xs ys : List A) → xs ++ ys ≡ [] → xs ≡ []
append_nil_left [] ys e = refl
append_nil_left (x ∷ xs) ys e = cc

append_nil_right : {A : Type 0} (xs ys : List A) → xs ++ ys ≡ [] → ys ≡ []
append_nil_right [] ys e = e
append_nil_right (x ∷ xs) ys e = cc

module _ (L : Linking) where
  open L use {Pad, Graph, peer}

  abbrev pub pad_of : PadAdded L → Pad
  pad_of (uri_pad pad) = pad
  pad_of (parse_pad pad) = pad

  abbrev pub IsSource : PadAdded L → Type 0
  IsSource e = L.is_src (pad_of e) ≡ true

  -- the last pad of parsebin, or the one before
  abbrev pub newest : Option Pad → List (PadAdded L) → Option Pad
  newest before [] = before
  newest before (uri_pad pad ∷ es) = newest before es
  newest before (parse_pad pad ∷ es) = newest (some pad) es

  newest_cases :
      (es : List (PadAdded L))
      → ((a b : Option Pad) → newest a es ≡ newest b es) ⊎ ((a : Option Pad) → newest a es ≡ a)
  newest_cases [] = inr (λ a. refl)
  newest_cases (uri_pad pad ∷ es) = newest_cases es
  newest_cases (parse_pad pad ∷ es) = inl (λ a b. refl)

  module _ (parse_sink pay_sink : Pad) (not_src : L.is_src parse_sink ≡ false)
      (not_src' : L.is_src pay_sink ≡ false) (two : parse_sink ≢ pay_sink) where
    -- What has become of parsebin's sink: it keeps its pad; otherwise it gets the first pad of
    -- urisourcebin whose link is accepted, each tried in the graph that it meets.
    pub data First : List (PadAdded L) → Graph → Graph → Type 0 where
      kept :
          {es : List (PadAdded L)} {g g' : Graph} (q : Pad)
          → peer parse_sink g ≡ some q
          → peer parse_sink g' ≡ some q
          → First es g g'
      ended : {g : Graph} → peer parse_sink g ≡ none → First [] g g
      accepted :
          {es : List (PadAdded L)} {g g' : Graph} (src : Pad) (u : Unit {0})
          → peer parse_sink g ≡ none
          → (L.link src parse_sink g).1 ≡ ok u
          → peer parse_sink g' ≡ some src
          → First (uri_pad src ∷ es) g g'
      refused :
          {es : List (PadAdded L)} {g g' : Graph} (src : Pad) (e : L.PadLinkError)
          → peer parse_sink g ≡ none
          → (L.link src parse_sink g).1 ≡ err e
          → First es (L.link src parse_sink g).0 g'
          → First (uri_pad src ∷ es) g g'
      -- a pad of parsebin leaves it as it is
      other :
          {es : List (PadAdded L)} {g g' : Graph} (src : Pad) (mid : Graph)
          → (errors : List L.PadLinkError)
          → pad_added L (some (some parse_sink)) (some (some pay_sink)) (parse_pad src) g
            ≡ some (mid, errors)
          → peer parse_sink mid ≡ peer parse_sink g
          → First es mid g'
          → First (parse_pad src ∷ es) g g'

    -- What has become of rtpopuspay's sink: it has the last pad, or none, and then a link has failed.
    pub data Last (es : List (PadAdded L)) (g g' : Graph) (errors : List L.PadLinkError)
        : Type 0 where
      newest_linked : peer pay_sink g' ≡ newest (peer pay_sink g) es → Last es g g' errors
      failed : peer pay_sink g' ≡ none → errors ≢ [] → Last es g g' errors

    abbrev run : List (PadAdded L) → Graph → Option (Graph × List L.PadLinkError)
    run = pads_added L (some (some parse_sink)) (some (some pay_sink))

    -- One pad of urisourcebin.
    data Tried (src : Pad) (g g' : Graph) : Type 0 where
      taken : (q : Pad) → peer parse_sink g ≡ some q → g' ≡ g → Tried src g g'
      goes :
          (u : Unit {0})
          → peer parse_sink g ≡ none
          → (L.link src parse_sink g).1 ≡ ok u
          → peer parse_sink g' ≡ some src
          → Tried src g g'
      fails :
          (e : L.PadLinkError)
          → peer parse_sink g ≡ none
          → (L.link src parse_sink g).1 ≡ err e
          → g' ≡ (L.link src parse_sink g).0
          → Tried src g g'

    uri_lem :
        (src : Pad) (g : Graph)
        → L.is_src src ≡ true
        → (g' : Graph) × (pad_added L
              (some (some parse_sink))
              (some (some pay_sink))
              (uri_pad src)
              g
            ≡ some (g', []))
          × Tried src g g'
          × (peer pay_sink g' ≡ peer pay_sink g)
    unfolding pad_added uri_pad_added
    uri_lem src g s = elim (Option-cases (peer parse_sink g)) [
      | inr (q, held) ↦ (g, rw (L.linked_peer parse_sink q g held) refl, taken q held refl, refl)
      | inl free ↦
          let g' = (L.link src parse_sink g).0 in
          let fate : Tried src g g' = elim (Result-cases (L.link src parse_sink g).1) [
            | inl (u, done) ↦ goes u free done (L.link_ok src parse_sink g u done)
            | inr (e, denied) ↦ fails e free denied refl
          ] in
          (
            g',
            rw (L.unlinked_peer parse_sink g free) refl,
            fate,
            L.link_other src parse_sink pay_sink g (differ L src pay_sink s not_src')
                (λ e. two (sym e)),
          )
    ]

    parse_lem :
        (src : Pad) (g : Graph)
        → L.is_src src ≡ true
        → (g' : Graph) × (errors : List L.PadLinkError) × (pad_added L
              (some (some parse_sink))
              (some (some pay_sink))
              (parse_pad src)
              g
            ≡ some (g', errors))
          × (peer parse_sink g' ≡ peer parse_sink g)
          × ((peer pay_sink g' ≡ some src) ⊎ ((peer pay_sink g' ≡ none) × (errors ≢ [])))
    unfolding pad_added parse_pad_added
    parse_lem src g s =
        let free = unlink_old L pay_sink g in
        let same : peer parse_sink (L.link src pay_sink free).0 ≡ peer parse_sink g =
          L.link_other src pay_sink parse_sink free (differ L src parse_sink s not_src) two
          ∙ unlink_old-other L pay_sink parse_sink g not_src' not_src two in
        elim (Result-cases (L.link src pay_sink free).1) [
          | inl (u, done) ↦ (_, [], rw done refl, same, inl (L.link_ok src pay_sink free u done))
          | inr (e, denied) ↦ (
            _,
            e ∷ [],
            rw denied refl,
            same,
            inr (
              ap (peer pay_sink) (L.link_err src pay_sink free e denied)
                  ∙ unlink_old-none L pay_sink g,
              λ p. cc,
            ),
          )
        ]

    -- A pad that is linked stays.
    First-keeps :
        {es : List (PadAdded L)} {g g' : Graph} (q : Pad)
        → peer parse_sink g ≡ some q
        → First es g g'
        → peer parse_sink g' ≡ some q
    First-keeps q held (kept r a b) = b ∙ sym a ∙ held
    First-keeps q held (ended free) = cc
    First-keeps q held (accepted src u free done b) = cc
    First-keeps q held (refused src e free denied rest) = cc
    First-keeps q held (other src mid errors one same rest) = First-keeps q (same ∙ held) rest

    First-then :
        {es : List (PadAdded L)} (src : Pad) (g g' g'' : Graph)
        → Tried src g g'
        → First es g' g''
        → First (uri_pad src ∷ es) g g''
    First-then src g g' g'' (taken q held same) rest =
        kept q held (First-keeps q (ap (peer parse_sink) same ∙ held) rest)
    First-then src g g' g'' (goes u free done now) rest =
        accepted src u free done (First-keeps src now rest)
    First-then {es = es} src g g' g'' (fails e free denied same) rest =
        refused src e free denied (subst (λ h. First es h g'') same rest)

    Last-uri_pad :
        {es : List (PadAdded L)} {errors : List L.PadLinkError} (src : Pad) (g g' g'' : Graph)
        → peer pay_sink g' ≡ peer pay_sink g
        → Last es g' g'' errors
        → Last (uri_pad src ∷ es) g g'' errors
    Last-uri_pad {es = es} src g g' g'' same (newest_linked p) =
        newest_linked (p ∙ ap (λ v. newest v es) same)
    Last-uri_pad src g g' g'' same (failed p some_error) = failed p some_error

    Last-parse_pad :
        {es : List (PadAdded L)} (errors later : List L.PadLinkError) (src : Pad) (g g' g'' : Graph)
        → (peer pay_sink g' ≡ some src) ⊎ ((peer pay_sink g' ≡ none) × (errors ≢ []))
        → Last es g' g'' later
        → Last (parse_pad src ∷ es) g g'' (errors ++ later)
    Last-parse_pad errors later src g g' g'' fate (failed p some_error) =
        failed p (λ e. some_error (append_nil_right errors later e))
    Last-parse_pad {es = es} errors later src g g' g'' (inl here) (newest_linked p) =
        newest_linked (p ∙ ap (λ v. newest v es) here)
    Last-parse_pad {es = es} errors later src g g' g'' (inr (gone, some_error)) (newest_linked p) =
        elim (newest_cases es) [
          | inl replaced ↦ newest_linked (p ∙ replaced (peer pay_sink g') (some src))
          | inr still ↦
              failed (p ∙ still (peer pay_sink g') ∙ gone)
                (λ e. some_error (append_nil_left errors later e))
        ]

    -- Over any pads that urisourcebin and parsebin add in any order, where the next elements are there
    -- and have their sink pads and those are two: no handler panics. parsebin's sink keeps the pad that
    -- it is linked to; where it has none, it gets the first pad of urisourcebin whose link is accepted,
    -- each tried in the graph that it meets, and has none where each is refused. rtpopuspay's sink has
    -- the last pad of parsebin, or the one before if none came, or else it has none and an error was
    -- posted.
    pub pads_added_lem :
        (es : List (PadAdded L)) (g : Graph)
        → All IsSource es
        → (g' : Graph) × (errors : List L.PadLinkError) × (run es g ≡ some (g', errors))
          × First es g g'
          × Last es g g' errors
    unfolding pads_added
    pads_added_lem [] g h = (
      g,
      [],
      refl,
      (elim (Option-cases (peer parse_sink g)) [
        | inl free ↦ ended free
        | inr (q, held) ↦ kept q held held
      ]),
      newest_linked refl,
    )
    pads_added_lem (uri_pad src ∷ es) g h =
        let (g', one, first, same) = uri_lem src g h.0 in
        let (g'', errors, more, later, last) = pads_added_lem es g' h.1 in
        (
          g'',
          errors,
          rw (one, pads_added) (rw more refl),
          First-then src g g' g'' first later,
          Last-uri_pad src g g' g'' same last,
        )
    pads_added_lem (parse_pad src ∷ es) g h =
        let (g', errors, one, same, fate) = parse_lem src g h.0 in
        let (g'', errors', more, later, last) = pads_added_lem es g' h.1 in
        (
          g'',
          errors ++ errors',
          rw (one, pads_added) (rw more refl),
          other src g' errors one same later,
          Last-parse_pad errors errors' src g g' g'' fate last,
        )
