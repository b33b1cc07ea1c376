-- ===== src/Icy/Interleave.antt =====
-- `IcyEncoder::encode` of src/rpc/mod.rs against a description that handles one byte at a time: how
-- the audio is cut into chunks does not show in the output.
use p2pradio.Prelude.{
  true, false, ℕ, zero, suc, ◌-◌, ◌≤◌, ◌<◌, ◌≡◌, refl, sym, ap, ◌∙◌, some, List, [], ◌∷◌, ◌++◌,
  ◌==◌, if◌then◌else◌, length, take, drop, min, map, arith, append_assoc, append-nil, length-take,
  length-drop, take-append-drop, map-append, Bool-cases, inl, inr,
}
use p2pradio.Icy.{Bool, format_title, IcyEncoder, encode_loop, encode}

-- A byte of audio, and the title at the time when it was encoded.
abbrev pub Tagged : Type 0
Tagged = ℕ × List ℕ

abbrev pub tag : List ℕ → List ℕ → List Tagged
tag audio title = map (λ b. (b, title)) audio

abbrev pub bytes_of : List Tagged → List ℕ
bytes_of = map (λ x. x.0)

-- how many bytes are left in the interval after one more byte
abbrev pub countdown : ℕ → ℕ → ℕ
countdown interval remaining = if remaining == 1 then interval else remaining - 1

unfoldable pub interleave : ℕ → ℕ → List Tagged → List ℕ
interleave interval remaining [] = []
interleave interval remaining ((byte, title) ∷ xs) =
    byte
    ∷ ((if remaining == 1 then format_title title else [])
        ++ interleave interval (countdown interval remaining) xs)

unfoldable pub remaining_after : ℕ → ℕ → List Tagged → ℕ
remaining_after interval remaining [] = remaining
remaining_after interval remaining (x ∷ xs) =
    remaining_after interval (countdown interval remaining) xs

pub interleave-append :
    (i r : ℕ) (xs ys : List Tagged)
    → interleave i r (xs ++ ys) ≡ interleave i r xs ++ interleave i (remaining_after i r xs) ys
unfolding interleave remaining_after
interleave-append i r [] ys = refl
interleave-append i r ((b, t) ∷ xs) ys = ap (◌∷◌ b) (
    ap (◌++◌ (if r == 1 then format_title t else [])) (interleave-append i (countdown i r) xs ys)
    ∙ sym (append_assoc (if r == 1 then format_title t else []) _ _))

pub remaining_after-append :
    (i r : ℕ) (xs ys : List Tagged)
    → remaining_after i r (xs ++ ys) ≡ remaining_after i (remaining_after i r xs) ys
unfolding remaining_after
remaining_after-append i r [] ys = refl
remaining_after-append i r (x ∷ xs) ys = remaining_after-append i (countdown i r) xs ys

-- The invariant of the encoder: `new` establishes it and `encode` keeps it.
pub record IsEncoder (e : IcyEncoder) : Type 0 where
  pub positive : 0 < e.remaining
  pub bounded : e.remaining ≤ e.interval

-- A chunk that ends at the latest where the interval does.
interleave_run :
    (i r : ℕ) (audio title : List ℕ)
    → 0 < r
    → length audio ≤ r
    → interleave i r (tag audio title)
      ≡ audio ++ (if r - length audio == 0 then format_title title else [])
unfolding interleave
interleave_run i r [] title pos h = ground arith
interleave_run i r (b ∷ []) title pos h = elim (Bool-cases (r == 1)) [
  | inl e ↦ rw e (ap (◌∷◌ b) (append-nil _ ∙ ground arith))
  | inr e ↦ rw e (ground arith)
]
interleave_run i r (b ∷ c ∷ audio) title pos h =
    ground (arith, interleave_run i (r - 1) (c ∷ audio) title)

remaining_run :
    (i r : ℕ) (audio title : List ℕ)
    → 0 < r
    → length audio ≤ r
    → remaining_after i r (tag audio title)
      ≡ (if r - length audio == 0 then i else r - length audio)
unfolding remaining_after
remaining_run i r [] title pos h = ground arith
remaining_run i r (b ∷ []) title pos h = ground arith
remaining_run i r (b ∷ c ∷ audio) title pos h =
    ground (arith, remaining_run i (r - 1) (c ∷ audio) title)

tag-append : (a b title : List ℕ) → tag (a ++ b) title ≡ tag a title ++ tag b title
tag-append a b title = map-append _ a b

module _ (e : IcyEncoder) (audio title : List ℕ) where
  open e use {interval, remaining}

  count : ℕ
  count = min remaining (length audio)

  chunk : List ℕ
  chunk = take count audio

  rest : List ℕ
  rest = drop count audio

  left : ℕ
  left = remaining - count

  next : ℕ
  next = if left == 0 then interval else left

  tag_split : tag audio title ≡ tag chunk title ++ tag rest title
  unfolding chunk rest
  tag_split = ap (λ a. tag a title) (sym (take-append-drop count audio)) ∙ tag-append _ _ title

  length-chunk : length chunk ≡ count
  unfolding chunk count
  length-chunk = omega (arith, length-take (min remaining (length audio)) audio)

  interleave_round :
      IsEncoder e
      → interleave interval remaining (tag audio title)
        ≡ (chunk ++ (if left == 0 then format_title title else []))
          ++ interleave interval next (tag rest title)
  unfolding next left
  interleave_round h =
      let fits : length chunk ≤ remaining = rw length-chunk (unfold count in omega arith) in
      ap (interleave interval remaining) tag_split
      ∙ interleave-append interval remaining (tag chunk title) (tag rest title)
      ∙ rw (
        interleave_run interval remaining chunk title h.positive fits,
        remaining_run interval remaining chunk title h.positive fits,
        length-chunk,
      )

  remaining_round :
      IsEncoder e
      → remaining_after interval remaining (tag audio title)
        ≡ remaining_after interval next (tag rest title)
  unfolding next left
  remaining_round h =
      let fits : length chunk ≤ remaining = rw length-chunk (unfold count in omega arith) in
      ap (remaining_after interval remaining) tag_split
      ∙ remaining_after-append interval remaining (tag chunk title) (tag rest title)
      ∙ rw (remaining_run interval remaining chunk title h.positive fits, length-chunk)

  next-IsEncoder : IsEncoder e → IsEncoder (record e { remaining = next })
  unfolding next left count
  next-IsEncoder h = ground arith

  length-rest : 0 < length audio → IsEncoder e → length rest < length audio
  unfolding rest count
  length-rest h v = omega (arith, length-drop (min remaining (length audio)) audio, v.positive)

copied_eq :
    (output part block : List ℕ) (b : Bool)
    → (if b then (output ++ part) ++ block else output ++ part)
      ≡ output ++ (part ++ (if b then block else []))
copied_eq output part block true = append_assoc output part block
copied_eq output part block false = ap (◌++◌ output) (sym (append-nil part))

encode_loop_step :
    (fuel : ℕ) (e : IcyEncoder) (byte : ℕ) (more title output : List ℕ)
    → let audio = byte ∷ more in
      encode_loop (suc fuel) e audio title output
      ≡ encode_loop fuel
          (record e { remaining = next e audio title })
          (rest e audio title)
          title
          (output
            ++ (chunk e audio title
                ++ (if left e audio title == 0 then format_title title else [])))
unfolding encode_loop count chunk rest left next
encode_loop_step fuel e byte more title output =
    let c = min e.remaining (length (byte ∷ more)) in
    ap
      (encode_loop fuel
        (record e { remaining = if e.remaining - c == 0 then e.interval else e.remaining - c })
        (drop c (byte ∷ more)) title)
      (copied_eq output (take c (byte ∷ more)) (format_title title) (e.remaining - c == 0))

-- With fuel for every byte the loop ends, and has appended the interleaved audio.
encode_loop_lem :
    (fuel : ℕ) (e : IcyEncoder) (audio title output : List ℕ)
    → IsEncoder e
    → length audio ≤ fuel
    → encode_loop fuel e audio title output
      ≡ some (
        record e { remaining = remaining_after e.interval e.remaining (tag audio title) },
        output ++ interleave e.interval e.remaining (tag audio title),
      )
encode_loop_lem zero e [] title output h fits =
    unfold encode_loop interleave remaining_after in rw append-nil
encode_loop_lem (suc fuel) e [] title output h fits =
    unfold encode_loop interleave remaining_after in rw append-nil
encode_loop_lem zero e (byte ∷ more) title output h fits = absurd (omega arith)
encode_loop_lem (suc fuel) e (byte ∷ more) title output h fits =
    let audio = byte ∷ more in
    rw (encode_loop_step fuel e byte more title output) (
      encode_loop_lem fuel (record e { remaining = next e audio title }) (rest e audio title) title
        _ (next-IsEncoder e audio title h)
        (omega (arith, length-rest e audio title (omega arith) h))
      ∙ rw (
        interleave_round e audio title h,
        remaining_round e audio title h,
        append_assoc,
        append_assoc,
      ))

remaining_after_bounds :
    (i r : ℕ) (xs : List Tagged)
    → 0 < r
    → r ≤ i
    → (0 < remaining_after i r xs) × (remaining_after i r xs ≤ i)
unfolding remaining_after
remaining_after_bounds i r [] pos h = (pos, h)
remaining_after_bounds i r (x ∷ xs) pos h =
    remaining_after_bounds i (countdown i r) xs (ground arith) (ground arith)

encode-IsEncoder :
    (e : IcyEncoder) (xs : List Tagged)
    → IsEncoder e
    → IsEncoder (record e { remaining = remaining_after e.interval e.remaining xs })
encode-IsEncoder e xs h =
    let b = remaining_after_bounds e.interval e.remaining xs h.positive h.bounded in
    record { positive = b.0; bounded = b.1 }

-- From a well-formed encoder `encode` ends, leaves a well-formed encoder, and returns the audio
-- with a block for the title after each byte that completes an interval.
pub encode_lem :
    (e : IcyEncoder) (audio title : List ℕ)
    → IsEncoder e
    → let e' = record e { remaining = remaining_after e.interval e.remaining (tag audio title) } in
      (encode e audio title ≡ some (e', interleave e.interval e.remaining (tag audio title)))
      × IsEncoder e'
encode_lem e audio title h = (
  unfold encode in encode_loop_lem _ e audio title [] h (omega arith),
  encode-IsEncoder e (tag audio title) h,
)
