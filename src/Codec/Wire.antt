-- ===== src/Codec/Wire.antt =====
-- The wire format of src/p2p/codec.rs as a type: the byte sequences that `decode` accepts are the
-- messages, by the path of `encode` and `decode`.
use std.Path.{transport, transport⁻¹}
use std.Equiv.{◌≃◌, Iso, iso_to_equiv}
use std.Univalence.{ua, ua-β, ua-β⁻¹}
use mathlib.Core.Bool.{Bool-set}
use mathlib.Core.HLevel.{×_prop, Σ_prop_path}
use native.Mathlib.Bridge.{le_prop}
use p2pradio.Prelude.{
  arith, ◌∙◌, ℕ, ◌≡◌, inl, inr, refl, sym, ap, Bool, true, false, List, [], ◌∷◌, Result, ok, err,
}
use p2pradio.Text.{IsScalar, IsText}
use p2pradio.Codec.{Message, audio_packet, metadata, DecodeError, IsMessage, encode, decode}
use p2pradio.Codec.RoundTrip.{decode-encode, encode-decode}

abbrev is_ok : {A E : Type 0} → Result A E → Bool
is_ok (ok a) = true
is_ok (err e) = false

-- the byte sequences that `decode` accepts
abbrev pub Accepted : Type 0
Accepted = (bytes : List ℕ) × (is_ok (decode bytes) ≡ true)

abbrev pub WellFormed : Type 0
WellFormed = (m : Message) × IsMessage m

IsScalar-prop : (c : ℕ) → IsProp (IsScalar c)
IsScalar-prop c (inl a) (inl b) = ap inl (le_prop a b)
IsScalar-prop c (inl a) (inr b) = absurd (omega arith)
IsScalar-prop c (inr a) (inl b) = absurd (omega arith)
IsScalar-prop c (inr a) (inr b) = ap inr (×_prop le_prop le_prop a b)

IsText-prop : (t : List ℕ) → IsProp (IsText t)
IsText-prop [] = λ a b. refl
IsText-prop (c ∷ t) = ×_prop (IsScalar-prop c) (IsText-prop t)

IsMessage-prop : (m : Message) → IsProp (IsMessage m)
IsMessage-prop (audio_packet bytes) = λ a b. refl
IsMessage-prop (metadata m) = IsText-prop m.title

read : (r : Result Message DecodeError) → is_ok r ≡ true → (m : Message) × (r ≡ ok m)
read (ok m) e = (m, refl)
read (err x) e = cc

read_accepted : (w : Accepted) → (m : Message) × (decode w.0 ≡ ok m)
read_accepted (bytes, e) = read (decode bytes) e

written : (m : Message) → IsMessage m → is_ok (decode (encode m)) ≡ true
written m h = ap is_ok (decode-encode m h)

wire_iso : Iso Accepted WellFormed
wire_iso = record {
  fun = λ w. let (m, e) = read_accepted w in (m, (encode-decode w.0 m e).0);
  inv = λ v. (encode v.0, written v.0 v.1);
  rinv = λ v. Σ_prop_path IsMessage-prop (
      let (m, e) = read_accepted (encode v.0, written v.0 v.1) in
      let back = decode-encode v.0 v.1 in cc);
  linv = λ w.
      let (m, e) = read_accepted w in Σ_prop_path (λ bytes. Bool-set _ _) (encode-decode w.0 m e).1;
}

wire_equiv : Accepted ≃ WellFormed
wire_equiv = iso_to_equiv wire_iso

-- The type of the byte sequences that `decode` accepts is the type of the well-formed messages: along
-- a path between them each accepted sequence is the message that `decode` returns for it, and each
-- message is its encoding.
pub Accepted-WellFormed :
    (same : Accepted ≡ WellFormed) × ((w : Accepted) → decode w.0 ≡ ok (transport same w).0)
    × ((v : WellFormed) → (transport⁻¹ same v).0 ≡ encode v.0)
unfolding read_accepted wire_equiv read wire_iso
Accepted-WellFormed = (
  ua wire_equiv,
  λ w. (read_accepted w).1 ∙ ap (λ v. ok v.0) (sym (ua-β wire_equiv w)),
  λ v. ap (λ w. w.0) (ua-β⁻¹ wire_equiv v),
)
