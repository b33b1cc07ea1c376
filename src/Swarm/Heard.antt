-- ===== src/Swarm/Heard.antt =====
-- What a listener of src/p2p/swarm.rs hears from the streamer itself, as bytes.
use p2pradio.Prelude.{
  ℕ, ◌≡◌, ◌⊎◌, refl, ap, sym, ◌∙◌, Option, none, some, List, [], ◌∷◌, if◌then◌else◌, inl, inr, map,
  All, Bool-cases, Option-cases,
}
use p2pradio.Errors.{Foreign}
use p2pradio.Network.{Network}
use p2pradio.Channel.{Mpsc}
use p2pradio.Codec.{Message, encode, IsMessage}
use p2pradio.Codec.RoundTrip.{encode-injective}
use p2pradio.Swarm.{
  SwarmEvent, BehaviorEvent, GossipEvent, GossipMessage, behaviour, mdns, gossipsub, message,
}
use p2pradio.Swarm.Forward.{Delivers, Carries, carries, nil, take, skip}

module _ {F : Foreign} (N : Network F) (M : Mpsc Message) (streamer : N.PeerId) where
  abbrev heard_of : Option ℕ → List ℕ → List (List ℕ) → List (List ℕ)
  heard_of none content rest = rest
  heard_of (some seq_no) content rest = content ∷ rest

  -- What the events bring from the streamer itself with a sequence number, whether or not it can be
  -- decoded.
  unfoldable pub heard : List (SwarmEvent N) → List (List ℕ)
  heard [] = []
  heard (SwarmEvent.other ∷ es) = heard es
  heard (behaviour BehaviorEvent.other ∷ es) = heard es
  heard (behaviour (mdns e) ∷ es) = heard es
  heard (behaviour (gossipsub GossipEvent.other) ∷ es) = heard es
  heard (behaviour (gossipsub (message source id msg)) ∷ es) =
      let rest = heard es in
      if N.peer_eq source streamer then heard_of msg.sequence_number msg.content rest else rest

  heard-carries :
      (e : SwarmEvent N) (es : List (SwarmEvent N)) (id : N.MessageId) (msg : GossipMessage N)
      (seq_no : ℕ)
      → e ≡ behaviour (gossipsub (message streamer id msg))
      → msg.sequence_number ≡ some seq_no
      → heard (e ∷ es) ≡ msg.content ∷ heard es
  unfolding heard
  heard-carries e es id msg seq_no p q =
      ap (λ e. heard (e ∷ es)) p ∙ rw ((N.peer_eq_iff streamer streamer).1 refl, heard) (rw q refl)

  -- an event adds nothing, or bytes that it would carry if they were the encoding of a message
  heard_cases :
      (e : SwarmEvent N) (es : List (SwarmEvent N))
      → (heard (e ∷ es) ≡ heard es)
        ⊎ ((bytes : List ℕ) × (heard (e ∷ es) ≡ bytes ∷ heard es)
            × ((m : Message) → IsMessage m → bytes ≡ encode m → Carries N M streamer e m))
  unfolding heard
  heard_cases SwarmEvent.other es = inl refl
  heard_cases (behaviour BehaviorEvent.other) es = inl refl
  heard_cases (behaviour (mdns e)) es = inl refl
  heard_cases (behaviour (gossipsub GossipEvent.other)) es = inl refl
  heard_cases (behaviour (gossipsub (message source id msg))) es =
      elim (Bool-cases (N.peer_eq source streamer)) [
        | inr differ ↦ inl (rw (differ, heard) refl)
        | inl same ↦ elim (Option-cases msg.sequence_number) [
          | inl unnumbered ↦ inl (rw (same, heard) (rw unnumbered refl))
          | inr (seq_no, numbered) ↦ inr (
            msg.content,
            rw (same, heard) (rw numbered refl),
            λ m h t.
                carries id msg seq_no
                  (ap (λ s. behaviour (gossipsub (message s id msg)))
                    ((N.peer_eq_iff source streamer).0 same))
                  numbered h t,
          )
        ]
      ]

  no_message :
      {e : SwarmEvent N} (bytes : List ℕ) (others : List (List ℕ)) (ps : List Message)
      → All IsMessage ps
      → bytes ∷ others ≡ map encode ps
      → ((m : Message) → ¬ Carries N M streamer e m)
      → ¬ ((m : Message) → IsMessage m → bytes ≡ encode m → Carries N M streamer e m)
  no_message bytes others [] h e c found = cc
  no_message bytes others (p ∷ ps) h e c found = c p (found p h.0 cc)

  -- Where all that is heard is encodings of messages, just those are delivered.
  pub Delivers-heard :
      (es : List (SwarmEvent N)) (ms ps : List Message)
      → All IsMessage ps
      → heard es ≡ map encode ps
      → Delivers N M streamer es ms
      → ms ≡ ps
  Delivers-heard _ _ [] h e nil = refl
  Delivers-heard _ _ (p ∷ ps) h e nil = unfold heard in cc
  Delivers-heard _ _ [] h e (take {e = x} {es = es} (carries id msg seq_no p q r t) d) =
      cc (e, heard-carries x es id msg seq_no p q)
  Delivers-heard _ _ (y ∷ ps) h e
        (take {e = x} {es = es} {m = m} {ms = ms} (carries id msg seq_no p q r t) d) =
      let both : msg.content ∷ heard es ≡ encode y ∷ map encode ps =
        sym (heard-carries x es id msg seq_no p q) ∙ e in
      let first : msg.content ≡ encode y = cc in
      let rest : heard es ≡ map encode ps = cc in
      ap (λ v. v ∷ ms) (encode-injective m y r h.0 (sym t ∙ first))
      ∙ ap (◌∷◌ y) (Delivers-heard es ms ps h.1 rest d)
  Delivers-heard _ _ ps h e (skip {e = x} {es = es} {ms = ms} c d) = elim (heard_cases x es) [
    | inl same ↦ Delivers-heard es ms ps h (sym same ∙ e) d
    | inr (bytes, more, found) ↦ absurd (no_message bytes (heard es) ps h (sym more ∙ e) c found)
  ]
