-- ===== src/Icy/Ends.antt =====
-- When `while !audio.is_empty()` of `IcyEncoder::encode` in src/rpc/mod.rs ends.
use p2pradio.Prelude.{
  ℕ, zero, suc, ◌-◌, ◌≤◌, ◌<◌, ◌≡◌, ◌⊎◌, refl, none, some, List, [], ◌∷◌, ◌++◌, if◌then◌else◌, ◌==◌,
  ◌||◌, ltb, leb, Bool-cases, length, take, drop, min, length-drop, arith, inl, inr,
}
use p2pradio.Icy.{IcyEncoder, encode_loop, format_title}

-- the loop ends, with this result whatever fuel it has beyond the length of the audio
abbrev pub Ends : IcyEncoder → List ℕ → List ℕ → List ℕ → Type 0
Ends e audio title output =
    (result : IcyEncoder × List ℕ) × ((fuel : ℕ)
      → length audio < fuel
      → encode_loop fuel e audio title output ≡ some result)

-- the loop runs out of any fuel
abbrev pub Endless : IcyEncoder → List ℕ → List ℕ → List ℕ → Type 0
Endless e audio title output = (fuel : ℕ) → encode_loop fuel e audio title output ≡ none

more_fuel :
    (fuel fuel' : ℕ) (e : IcyEncoder) (audio title output : List ℕ) (result : IcyEncoder × List ℕ)
    → fuel ≤ fuel'
    → encode_loop fuel e audio title output ≡ some result
    → encode_loop fuel' e audio title output ≡ some result
unfolding encode_loop
more_fuel zero fuel' e [] title output result h p = p
more_fuel (suc fuel) fuel' e [] title output result h p = p
more_fuel zero fuel' e (byte ∷ more) title output result h p = cc
more_fuel (suc fuel) zero e (byte ∷ more) title output result h p = absurd (omega arith)
more_fuel (suc fuel) (suc fuel') e (byte ∷ more) title output result h p =
    more_fuel fuel fuel' _ _ title _ result (omega arith) p

positive_ends :
    (fuel : ℕ) (e : IcyEncoder) (audio title output : List ℕ)
    → 0 < e.interval
    → 0 < e.remaining
    → length audio ≤ fuel
    → (result : IcyEncoder × List ℕ) × (encode_loop fuel e audio title output ≡ some result)
unfolding encode_loop
positive_ends zero e [] title output some_interval pos h = (_, refl)
positive_ends (suc fuel) e [] title output some_interval pos h = (_, refl)
positive_ends zero e (byte ∷ more) title output some_interval pos h = absurd (omega arith)
positive_ends (suc fuel) e (byte ∷ more) title output some_interval pos h =
    positive_ends fuel _ _ title _ some_interval (ground arith)
      (omega (arith, length-drop (min e.remaining (length (byte ∷ more))) (byte ∷ more)))

nothing_left :
    (fuel : ℕ) (e : IcyEncoder) (audio title output : List ℕ)
    → length audio ≡ 0
    → (result : IcyEncoder × List ℕ) × (encode_loop fuel e audio title output ≡ some result)
unfolding encode_loop
nothing_left zero e [] title output h = (_, refl)
nothing_left (suc fuel) e [] title output h = (_, refl)
nothing_left fuel e (byte ∷ more) title output h = absurd (omega arith)

ends :
    (e : IcyEncoder) (audio title output : List ℕ)
    → (0 < e.interval) ⊎ (length audio ≤ e.remaining)
    → (result : IcyEncoder × List ℕ) × (encode_loop (suc (length audio)) e audio title output
        ≡ some result)
unfolding encode_loop
ends e [] title output h = (_, refl)
ends e (byte ∷ more) title output h =
    let audio = byte ∷ more in
    let taken = min e.remaining (length audio) in
    let left = e.remaining - taken in
    let after = record e { remaining = if left == 0 then e.interval else left } in
    let copied = output ++ take taken audio in
    let output' = if left == 0 then copied ++ format_title title else copied in
    elim h [
      | inl some_interval ↦
          positive_ends (suc (length more)) after (drop taken audio) title output' some_interval
            (ground arith) (omega (arith, length-drop taken audio))
      | inr short ↦
          nothing_left (suc (length more)) after (drop taken audio) title output'
            (omega (arith, length-drop taken audio))
    ]

endless :
    (fuel : ℕ) (e : IcyEncoder) (audio title output : List ℕ)
    → e.interval ≡ 0
    → e.remaining < length audio
    → encode_loop fuel e audio title output ≡ none
unfolding encode_loop
endless zero e [] title output nothing h = absurd (omega arith)
endless (suc fuel) e [] title output nothing h = absurd (omega arith)
endless zero e (byte ∷ more) title output nothing h = refl
endless (suc fuel) e (byte ∷ more) title output nothing h =
    let audio = byte ∷ more in
    let taken = min e.remaining (length audio) in
    let left = e.remaining - taken in
    let after = record e { remaining = if left == 0 then e.interval else left } in
    let copied = output ++ take taken audio in
    let output' = if left == 0 then copied ++ format_title title else copied in
    endless fuel after (drop taken audio) title output' nothing
      (ground (arith, length-drop taken audio))

-- From any encoder: with an interval above zero, or with no more audio than what remains, the loop
-- ends, within one round for each byte and one more; otherwise it never ends.
pub encode_loop-Ends :
    (e : IcyEncoder) (audio title output : List ℕ)
    → (((0 < e.interval) ⊎ (length audio ≤ e.remaining)) × Ends e audio title output)
      ⊎ ((e.interval ≡ 0) × (e.remaining < length audio) × Endless e audio title output)
encode_loop-Ends e audio title output =
    elim (Bool-cases (ltb 0 e.interval || leb (length audio) e.remaining)) [
      | inl ok ↦
          let enough : (0 < e.interval) ⊎ (length audio ≤ e.remaining) = ground arith in
          let (result, done) = ends e audio title output enough in
          inl
            (enough, (result, λ fuel more. more_fuel _ fuel e audio title output result more done))
      | inr over ↦
          let nothing : e.interval ≡ 0 = ground arith in
          let long : e.remaining < length audio = ground arith in
          inr (nothing, long, λ fuel. endless fuel e audio title output nothing long)
    ]
