-- ===== src/Text/Utf8.antt =====
-- UTF-8: `from_utf8` accepts exactly the encodings of texts, and reads back what was encoded.
use mathlib.Core.Option
use p2pradio.Prelude.{
  append_assoc, append-nil, ℕ, zero, suc, ◌+◌, ◌-◌, ◌*◌, ◌/◌, ◌%◌, ◌≤◌, ◌<◌, ◌≡◌, ◌≢◌, refl, sym,
  ap, ◌∙◌, ◌⊎◌, inl, inr, true, none, some, List, [], ◌∷◌, ◌++◌, length, length-append, arith,
  Option-cases, le→ltb,
}
use p2pradio.Text.{
  str_len, IsScalar, IsText, encode_utf8, len_utf8, as_bytes, two_bytes, three_bytes, four_bytes,
  second_of_three, second_of_four, decode_first, decode_all, from_utf8,
}

decode_first-encode :
    (c : ℕ) (rest : List ℕ) → IsScalar c → decode_first (encode_utf8 c ++ rest) ≡ some (c, rest)
unfolding decode_first encode_utf8 two_bytes three_bytes four_bytes second_of_three second_of_four
decode_first-encode c rest h = ground arith

two_bytes_sound :
    (a : ℕ) (bs : List ℕ) (c : ℕ) (rest : List ℕ)
    → 0xc2 ≤ a
    → a ≤ 0xdf
    → two_bytes a bs ≡ some (c, rest)
    → IsScalar c × (a ∷ bs ≡ encode_utf8 c ++ rest)
unfolding two_bytes encode_utf8
two_bytes_sound a [] c rest lo hi e = ground arith
two_bytes_sound a (b ∷ bs) c rest lo hi e = ground arith

three_bytes_sound :
    (a : ℕ) (bs : List ℕ) (c : ℕ) (rest : List ℕ)
    → 0xe0 ≤ a
    → a ≤ 0xef
    → three_bytes a bs ≡ some (c, rest)
    → IsScalar c × (a ∷ bs ≡ encode_utf8 c ++ rest)
unfolding three_bytes second_of_three encode_utf8
three_bytes_sound a [] c rest lo hi e = ground arith
three_bytes_sound a (b ∷ []) c rest lo hi e = ground arith
three_bytes_sound a (b ∷ d ∷ bs) c rest lo hi e = ground arith

second_of_four_bounds :
    (a b : ℕ)
    → second_of_four a b ≡ true
    → (0x80 ≤ b) × (b ≤ 0xbf) × ((0x90 ≤ b) ⊎ (a ≢ 0xf0)) × ((b ≤ 0x8f) ⊎ (a ≢ 0xf4))
unfolding second_of_four
second_of_four_bounds a b e = ground arith

-- The code point of four bytes in their ranges lies above 0xffff, and encodes to them again.
four_bytes_value :
    (a b d f : ℕ)
    → 0xf0 ≤ a
    → a ≤ 0xf4
    → (0x80 ≤ b) × (b ≤ 0xbf) × ((0x90 ≤ b) ⊎ (a ≢ 0xf0)) × ((b ≤ 0x8f) ⊎ (a ≢ 0xf4))
    → (0x80 ≤ d) × (d ≤ 0xbf) × (0x80 ≤ f) × (f ≤ 0xbf)
    → let c = (a - 0xf0) * 262144 + (b - 0x80) * 4096 + (d - 0x80) * 64 + (f - 0x80) in
      (0x10000 ≤ c)
      × (c < 0x110000)
      × (0xf0 + c / 262144 ≡ a)
      × (0x80 + c / 4096 % 64 ≡ b)
      × (0x80 + c / 64 % 64 ≡ d)
      × (0x80 + c % 64 ≡ f)
four_bytes_value a b d f lo hi r₁ r₂ = omega arith

encode_four :
    (c a b d f : ℕ)
    → 0x10000 ≤ c
    → (0xf0 + c / 262144 ≡ a)
    → (0x80 + c / 4096 % 64 ≡ b)
    → (0x80 + c / 64 % 64 ≡ d)
    → (0x80 + c % 64 ≡ f)
    → encode_utf8 c ≡ a ∷ b ∷ d ∷ f ∷ []
unfolding encode_utf8
encode_four c a b d f h e₁ e₂ e₃ e₄ =
    rw (le→ltb c 0x80 (omega arith), le→ltb c 0x800 (omega arith), le→ltb c 0x10000 h) (cc)

four_bytes_parts :
    (a b d f : ℕ) (bs : List ℕ) (c : ℕ) (rest : List ℕ)
    → four_bytes a (b ∷ d ∷ f ∷ bs) ≡ some (c, rest)
    → (second_of_four a b ≡ true)
      × ((0x80 ≤ d) × (d ≤ 0xbf) × (0x80 ≤ f) × (f ≤ 0xbf))
      × (c ≡ (a - 0xf0) * 262144 + (b - 0x80) * 4096 + (d - 0x80) * 64 + (f - 0x80))
      × (rest ≡ bs)
unfolding four_bytes
four_bytes_parts a b d f bs c rest e = ground arith

four_bytes_sound :
    (a : ℕ) (bs : List ℕ) (c : ℕ) (rest : List ℕ)
    → 0xf0 ≤ a
    → a ≤ 0xf4
    → four_bytes a bs ≡ some (c, rest)
    → IsScalar c × (a ∷ bs ≡ encode_utf8 c ++ rest)
unfolding four_bytes
four_bytes_sound a [] c rest lo hi e = cc
four_bytes_sound a (b ∷ []) c rest lo hi e = cc
four_bytes_sound a (b ∷ d ∷ []) c rest lo hi e = cc
four_bytes_sound a (b ∷ d ∷ f ∷ bs) c rest lo hi e =
    let p = four_bytes_parts a b d f bs c rest e in
    let v = four_bytes_value a b d f lo hi (second_of_four_bounds a b p.0) p.1 in
    rw (p.2, p.3) (inr (omega arith, v.1), rw (encode_four _ a b d f v.0 v.2 v.3 v.4 v.5) refl)

encode_one : (a : ℕ) → a < 0x80 → encode_utf8 a ≡ a ∷ []
unfolding encode_utf8
encode_one a h = ground arith

-- What `decode_first` reads is a scalar value, and its encoding stands at the front of the input.
decode_first_sound :
    (bs : List ℕ) (c : ℕ) (rest : List ℕ)
    → decode_first bs ≡ some (c, rest)
    → IsScalar c × (bs ≡ encode_utf8 c ++ rest)
unfolding decode_first
decode_first_sound [] c rest e = cc
decode_first_sound (a ∷ bs) c rest e = ground (
  arith,
  encode_one a,
  two_bytes_sound a bs c rest,
  three_bytes_sound a bs c rest,
  four_bytes_sound a bs c rest,
)

pub length-encode_utf8 : (c : ℕ) → length (encode_utf8 c) ≡ len_utf8 c
unfolding encode_utf8 len_utf8
length-encode_utf8 c = ground arith

pub len_utf8_bounds : (c : ℕ) → (1 ≤ len_utf8 c) × (len_utf8 c ≤ 4)
unfolding len_utf8
len_utf8_bounds c = ground arith

decode_all_step :
    (fuel : ℕ) (bs : List ℕ) (c : ℕ) (rest : List ℕ)
    → decode_first bs ≡ some (c, rest)
    → decode_all (suc fuel) bs ≡ Option.map (◌∷◌ c) (decode_all fuel rest)
unfolding decode_all
decode_all_step fuel [] c rest e = unfold decode_first in cc
decode_all_step fuel (b ∷ bs) c rest e = rw (e, decode_all)

decode_all_stop :
    (fuel b : ℕ) (bs : List ℕ)
    → decode_first (b ∷ bs) ≡ none
    → decode_all (suc fuel) (b ∷ bs) ≡ none
unfolding decode_all
decode_all_stop fuel b bs e = rw (e, decode_all)

-- Enough fuel reads a text back.
decode_all-as_bytes :
    (fuel : ℕ) (t : List ℕ)
    → IsText t
    → length (as_bytes t) ≤ fuel
    → decode_all fuel (as_bytes t) ≡ some t
unfolding as_bytes
decode_all-as_bytes zero [] h fits = unfold decode_all in refl
decode_all-as_bytes (suc fuel) [] h fits = unfold decode_all in refl
decode_all-as_bytes zero (c ∷ t) h fits = absurd (
    omega
      (arith, length-append (encode_utf8 c) (as_bytes t), length-encode_utf8 c, len_utf8_bounds c))
decode_all-as_bytes (suc fuel) (c ∷ t) h fits =
    decode_all_step fuel _ c (as_bytes t) (decode_first-encode c (as_bytes t) h.0)
    ∙ ap (Option.map (◌∷◌ c)) (
        decode_all-as_bytes fuel t h.1 (
          omega (
            arith,
            length-append (encode_utf8 c) (as_bytes t),
            length-encode_utf8 c,
            len_utf8_bounds c,
          )))

decode_all_sound :
    (fuel : ℕ) (bs t : List ℕ) → decode_all fuel bs ≡ some t → IsText t × (bs ≡ as_bytes t)
unfolding as_bytes
decode_all_sound fuel [] [] e = (tt, refl)
decode_all_sound zero [] (c ∷ t) e = unfold decode_all in cc
decode_all_sound (suc fuel) [] (c ∷ t) e = unfold decode_all in cc
decode_all_sound zero (b ∷ bs) t e = unfold decode_all in cc
decode_all_sound (suc fuel) (b ∷ bs) t e = elim (Option-cases (decode_first (b ∷ bs))) [
  | inl p ↦ cc (decode_all_stop fuel b bs p)
  | inr ((c, rest), p) ↦
      let step = sym (decode_all_step fuel (b ∷ bs) c rest p) ∙ e in
      let whole = decode_first_sound (b ∷ bs) c rest p in
      elim (Option-cases (decode_all fuel rest)) [
        | inl q ↦ ground (arith, step)
        | inr (u, q) ↦
            let tail = decode_all_sound fuel rest u q in
            let last : t ≡ c ∷ u = ground (arith, step) in
            rw (last, whole.1, tail.1) ((whole.0, tail.0), refl)
      ]
]

-- `from_utf8` reads back the bytes of every text.
pub from_utf8-as_bytes : (t : List ℕ) → IsText t → from_utf8 (as_bytes t) ≡ some t
from_utf8-as_bytes t h = unfold from_utf8 in decode_all-as_bytes _ t h (omega arith)

-- What `from_utf8` accepts is the encoding of the text that it returns.
pub from_utf8_sound : (bs t : List ℕ) → from_utf8 bs ≡ some t → IsText t × (bs ≡ as_bytes t)
from_utf8_sound bs t e = decode_all_sound (length bs) bs t (unfold from_utf8 in e)

pub as_bytes-append : (s t : List ℕ) → as_bytes (s ++ t) ≡ as_bytes s ++ as_bytes t
unfolding as_bytes
as_bytes-append [] t = refl
as_bytes-append (c ∷ s) t =
    ap (◌++◌ (encode_utf8 c)) (as_bytes-append s t)
    ∙ sym (append_assoc (encode_utf8 c) (as_bytes s) (as_bytes t))

pub str_len-append : (s t : List ℕ) → str_len (s ++ t) ≡ str_len s + str_len t
unfolding str_len
str_len-append s t = rw as_bytes-append (length-append (as_bytes s) (as_bytes t))

pub str_len-char : (c : ℕ) → str_len (c ∷ []) ≡ len_utf8 c
unfolding str_len as_bytes
str_len-char c = rw append-nil (length-encode_utf8 c)
