-- ===== src/Codec/Tests.antt =====
-- The codec at concrete messages.
use p2pradio.Prelude.{◌↔◌, ℕ, List, ◌≡◌, refl, [], ◌∷◌, ok, err, arith, inl}
use p2pradio.Text.{encode_utf8, as_bytes, from_utf8}
use p2pradio.Codec.{Message, metadata, invalid_message_type, encode, decode}
use p2pradio.Codec.RoundTrip.{decode-encode, IsWire, decode_total}

-- "é♫"
abbrev label : Message
label = metadata (record { title = 0xe9 ∷ 0x266b ∷ [] })

label_bytes : encode label ≡ 1 ∷ 0xc3 ∷ 0xa9 ∷ 0xe2 ∷ 0x99 ∷ 0xab ∷ []
unfolding encode as_bytes encode_utf8
label_bytes = refl

-- an overlong encoding of '/'
decode_overlong : decode (1 ∷ 0xc0 ∷ 0xaf ∷ []) ≡ err invalid_message_type
unfolding decode from_utf8
decode_overlong = refl

decode_unknown_kind : decode (2 ∷ 7 ∷ []) ≡ err invalid_message_type
unfolding decode
decode_unknown_kind = refl

decode-encode_example : decode (encode label) ≡ ok label
decode-encode_example = decode-encode label (inl (omega arith), (inl (omega arith), tt))

label_read : decode (1 ∷ 0xc3 ∷ 0xa9 ∷ 0xe2 ∷ 0x99 ∷ 0xab ∷ []) ≡ ok label
unfolding decode from_utf8
label_read = refl

decode_total_example :
    let bytes : List ℕ = 1 ∷ 0xc0 ∷ 0xaf ∷ [] in
    (IsWire bytes ↔ ((m : Message) × (decode bytes ≡ ok m)))
    × ((¬ IsWire bytes) ↔ (decode bytes ≡ err invalid_message_type))
decode_total_example = decode_total (1 ∷ 0xc0 ∷ 0xaf ∷ [])
