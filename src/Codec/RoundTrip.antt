-- ===== src/Codec/RoundTrip.antt =====
-- `decode` and `encode` of src/p2p/codec.rs undo one another.
use p2pradio.Prelude.{
  map, ◌∙◌, All, ◌↔◌, subst, ℕ, ◌≡◌, ◌⊎◌, inl, inr, refl, sym, ap, some, List, [], ◌∷◌, Result, ok,
  err, arith, Option-cases,
}
use p2pradio.Text.{IsText, as_bytes, from_utf8}
use p2pradio.Text.Utf8.{from_utf8-as_bytes, from_utf8_sound}
use p2pradio.Codec.{
  Message, audio_packet, metadata, DecodeError, invalid_message_type, IsMessage, encode, decode,
}

-- A message whose title, if it has one, is well-formed text is decoded from its encoding.
pub decode-encode : (m : Message) → IsMessage m → decode (encode m) ≡ ok m
unfolding decode encode
decode-encode (audio_packet bytes) h = refl
decode-encode (metadata m) h = rw (from_utf8-as_bytes m.title h) refl

decode_metadata :
    (rest : List ℕ) (m : Message)
    → decode (1 ∷ rest) ≡ ok m
    → (t : List ℕ) × (from_utf8 rest ≡ some t) × (m ≡ metadata (record { title = t }))
unfolding decode
decode_metadata rest m e = elim (Option-cases (from_utf8 rest)) [
  | inl p ↦ ground (arith, p)
  | inr (t, p) ↦ (t, p, ground (arith, p))
]

decode_kinds :
    (kind : ℕ) (rest : List ℕ) (m : Message)
    → decode (kind ∷ rest) ≡ ok m
    → ((kind ≡ 0) × (m ≡ audio_packet rest)) ⊎ ((kind ≡ 1) × (decode (1 ∷ rest) ≡ ok m))
unfolding decode
decode_kinds kind rest m e = ground arith

-- Whatever bytes `decode` accepts are the encoding of the message that it returns, and that message
-- is well formed. So no two byte sequences decode to one message.
pub encode-decode :
    (bytes : List ℕ) (m : Message) → decode bytes ≡ ok m → IsMessage m × (encode m ≡ bytes)
unfolding encode
encode-decode [] m e = unfold decode in cc
encode-decode (kind ∷ rest) m e = elim (decode_kinds kind rest m e) [
  | inl (k, p) ↦ rw (k, p) (tt, refl)
  | inr (k, d) ↦
      let (t, read, p) = decode_metadata rest m d in
      let (text, whole) = from_utf8_sound rest t read in rw (k, p) (text, ap (◌∷◌ 1) (sym whole))
]

-- The wire format: type byte 0 before any bytes, or type byte 1 before UTF-8.
abbrev pub IsWire : List ℕ → Type 0
IsWire [] = ⊥
IsWire (kind ∷ rest) = (kind ≡ 0) ⊎ ((kind ≡ 1) × ((t : List ℕ) × IsText t × (rest ≡ as_bytes t)))

decode-IsWire : (bytes : List ℕ) → IsWire bytes → (m : Message) × (decode bytes ≡ ok m)
decode-IsWire [] h = absurd h
decode-IsWire (kind ∷ rest) (inl k) = (audio_packet rest, rw k (unfold decode in refl))
decode-IsWire (kind ∷ rest) (inr (k, (t, text, e))) =
    let m = metadata (record { title = t }) in
    (m, rw (k, e) (unfold encode in decode-encode m text))

decode_invalid : (bytes : List ℕ) (e : DecodeError) → decode bytes ≡ err e → ¬ IsWire bytes
decode_invalid bytes e p w = cc ((decode-IsWire bytes w).1)

message-IsWire : (bytes : List ℕ) (m : Message) → IsMessage m → encode m ≡ bytes → IsWire bytes
unfolding encode
message-IsWire bytes (audio_packet data_bytes) h e = subst IsWire e (inl refl)
message-IsWire bytes (metadata m) h e = subst IsWire e (inr (refl, (m.title, h, refl)))

decode_cases :
    (bytes : List ℕ)
    → ((m : Message) × (decode bytes ≡ ok m)) ⊎ (decode bytes ≡ err invalid_message_type)
decode_cases bytes = go (decode bytes) refl
  where
    go :
        (r : Result Message DecodeError)
        → decode bytes ≡ r
        → ((m : Message) × (decode bytes ≡ ok m)) ⊎ (decode bytes ≡ err invalid_message_type)
    go (ok m) e = inl (m, e)
    go (err invalid_message_type) e = inr e

-- `decode` returns a message exactly on the wire format, and on every other input it returns
-- `InvalidMessageType`.
pub decode_total :
    (bytes : List ℕ)
    → (IsWire bytes ↔ ((m : Message) × (decode bytes ≡ ok m)))
      × ((¬ IsWire bytes) ↔ (decode bytes ≡ err invalid_message_type))
decode_total bytes = (
  (decode-IsWire bytes, accepted),
  (
    λ h. elim (decode_cases bytes) [ inl a ↦ absurd (h (accepted a)) | inr e ↦ e ],
    decode_invalid bytes _,
  ),
)
  where
    accepted : ((m : Message) × (decode bytes ≡ ok m)) → IsWire bytes
    accepted (m, e) = let (h, p) = encode-decode bytes m e in message-IsWire bytes m h p

pub encode-injective : (m n : Message) → IsMessage m → IsMessage n → encode m ≡ encode n → m ≡ n
encode-injective m n hm hn e =
    let both : ok m ≡ ok n = sym (decode-encode m hm) ∙ ap decode e ∙ decode-encode n hn in cc

pub map-encode-injective :
    (ms ns : List Message)
    → All IsMessage ms
    → All IsMessage ns
    → map encode ms ≡ map encode ns
    → ms ≡ ns
map-encode-injective [] [] hm hn e = refl
map-encode-injective [] (n ∷ ns) hm hn e = cc
map-encode-injective (m ∷ ms) [] hm hn e = cc
map-encode-injective (m ∷ ms) (n ∷ ns) hm hn e =
    let first : encode m ≡ encode n = cc in
    let rest : map encode ms ≡ map encode ns = cc in
    let same = encode-injective m n hm.0 hn.0 first in
    let others = map-encode-injective ms ns hm.1 hn.1 rest in cc
