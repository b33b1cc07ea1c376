-- ===== src/Ogg/Runs.antt =====
-- The header cache over a stream of header pages and then other pages, cut at any point.
use mathlib.Core.Path.{ap₂}
use p2pradio.Prelude.{
  true, false, List, [], ◌∷◌, ◌++◌, ◌≡◌, ◌≢◌, ◌⊎◌, inl, inr, refl, ap, sym, subst, ◌∙◌, map-append,
  append_assoc, append-nil, All, drop,
}
use p2pradio.Channel.{Broadcast}
use p2pradio.Ogg.{Page, Muxer, publish}
use p2pradio.Ogg.Headers.{Flagged, IsHeader, IsPlain, pages, publish_all}

module _ (B : Broadcast Page) where
  pub publish_all-append :
      (xs ys : List Flagged) (m : Muxer B)
      → publish_all B (xs ++ ys) m ≡ publish_all B ys (publish_all B xs m)
  unfolding publish_all
  publish_all-append [] ys m = refl
  publish_all-append (x ∷ xs) ys m = publish_all-append xs ys (publish B x.0 x.1 m)

  headers-plain :
      (xs : List Flagged) (m : Muxer B) → All IsPlain xs → (publish_all B xs m).headers ≡ m.headers
  unfolding publish_all
  headers-plain [] m h = refl
  headers-plain (x ∷ xs) m h =
      headers-plain xs (publish B x.0 x.1 m) h.1 ∙ unfold publish in rw h.0 refl

  headers-more :
      (xs : List Flagged) (m : Muxer B)
      → m.last_was_header ≡ true
      → All IsHeader xs
      → (publish_all B xs m).headers ≡ m.headers ++ pages xs
  unfolding publish_all
  headers-more [] m e h = sym (append-nil _)
  headers-more (x ∷ xs) m e h =
      headers-more xs (publish B x.0 x.1 m) (unfold publish in h.0) h.1
      ∙ unfold publish in rw (h.0, e) (append_assoc m.headers (x.0 ∷ []) (pages xs))

  -- The first header after other pages drops the old cache.
  headers-fresh :
      (x : Flagged) (xs : List Flagged) (m : Muxer B)
      → m.last_was_header ≡ false
      → All IsHeader (x ∷ xs)
      → (publish_all B (x ∷ xs) m).headers ≡ pages (x ∷ xs)
  unfolding publish_all
  headers-fresh x xs m e h =
      headers-more xs (publish B x.0 x.1 m) (unfold publish in h.0) h.1
      ∙ unfold publish in rw (h.0, e)

append_split {ℓ} :
    {A : Type ℓ} (xs ys us vs : List A)
    → xs ++ ys ≡ us ++ vs
    → ((ws : List A) × (xs ≡ us ++ ws) × (vs ≡ ws ++ ys))
      ⊎ ((ws : List A) × (us ≡ xs ++ ws) × (ys ≡ ws ++ vs))
append_split xs ys [] vs e = inl (xs, refl, sym e)
append_split [] ys (u ∷ us) vs e = inr (u ∷ us, refl, e)
append_split (x ∷ xs) ys (u ∷ us) vs e = elim (append_split xs ys us vs (ap (drop 1) e)) [
  | inl (ws, p, q) ↦ inl (ws, cc, q)
  | inr (ws, p, q) ↦ inr (ws, cc, q)
]

All-take {ℓ κ} : {A : Type ℓ} (P : A → Type κ) (xs ys : List A) → All P (xs ++ ys) → All P xs
All-take P [] ys h = tt
All-take P (x ∷ xs) ys h = (h.0, All-take P xs ys h.1)

module _ (B : Broadcast Page) where
  -- The cache after some part of a stream of headers and then other pages, from any state in which
  -- the last page was no header.
  pub cache_within :
      (m : Muxer B) (xs ys : List Flagged) (h : Flagged) (heads audio : List Flagged)
      → m.last_was_header ≡ false
      → xs ≢ []
      → xs ++ ys ≡ (h ∷ heads) ++ audio
      → All IsHeader (h ∷ heads)
      → All IsPlain audio
      → (missed : List Flagged) × (rest : List Flagged) × (audio ≡ missed ++ rest)
        × ((missed ≡ []) ⊎ (xs ≡ (h ∷ heads) ++ missed))
        × ((publish_all B xs m).headers ++ pages ys ≡ pages (h ∷ heads) ++ pages rest)
  cache_within m [] ys h heads audio flag ne e hh ha = absurd (ne refl)
  cache_within m (x ∷ xs) ys h heads audio flag ne e hh ha =
      elim (append_split (x ∷ xs) ys (h ∷ heads) audio e) [
        | inl (missed, p, q) ↦ (
          missed,
          ys,
          q,
          inr p,
          ap (λ s. s ++ pages ys)
              (ap (λ z. (publish_all B z m).headers) p
                ∙ ap (λ (n : Muxer B). n.headers) (publish_all-append B (h ∷ heads) missed m)
                ∙ headers-plain B missed (publish_all B (h ∷ heads) m)
                    (All-take IsPlain missed ys (subst (All IsPlain) q ha))
                ∙ headers-fresh B h heads m flag hh),
        )
        | inr (more, p, q) ↦ (
          [],
          audio,
          refl,
          inl refl,
          ap₂ ◌++◌
                (headers-fresh B x xs m flag
                  (All-take IsHeader (x ∷ xs) more (subst (All IsHeader) p hh)))
                (ap pages q ∙ map-append (λ x. x.0) more audio)
              ∙ sym (append_assoc (pages (x ∷ xs)) (pages more) (pages audio))
              ∙ ap (λ z. z ++ pages audio) (sym (ap pages p ∙ map-append (λ x. x.0) (x ∷ xs) more)),
        )
      ]
