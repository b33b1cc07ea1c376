-- ===== src/Decoder/Tests.antt =====
-- The decoding loop of src/backend/ogg_dec.rs on concrete runs.
use p2pradio.Prelude.{ℕ, ◌≡◌, ◌⊎◌, refl, none, some, List, [], ◌∷◌, ◌++◌, Result, ok}
use p2pradio.Encoder.{State, playing, null, tag}
use p2pradio.Decoder.{
  Input, bus, packet, run_dec_stream, run_loop, rounds, process_bytes, process_message, new_buffer,
}
use p2pradio.Decoder.Sources.{G, source, room}
use p2pradio.Decoder.Pushes.{packets, run_dec_stream-Pushed}

abbrev willing : State → Result (Unit {0}) ℕ
willing s = ok tt

-- the third packet is refused, and the fourth is lost
abbrev inputs : List (Input G)
inputs = packet (1 ∷ []) ∷ bus (tag none) ∷ packet (2 ∷ []) ∷ packet [] ∷ packet (3 ∷ []) ∷ []

run_inputs :
    run_dec_stream G source room willing inputs []
    ≡ ((1 ∷ []) ∷ (2 ∷ []) ∷ [], playing ∷ null ∷ [], some (ok tt))
unfolding run_dec_stream rounds run_loop process_bytes process_message new_buffer
run_inputs = refl

run_dec_stream-Pushed_example :
    let (after, states, result) = run_dec_stream G source room willing inputs [] in
    (sent : List (List ℕ)) × (lost : List (List ℕ)) × (packets inputs ≡ sent ++ lost)
    × (after ≡ sent)
    × (((result ≡ none) × (states ≡ playing ∷ []) × (lost ≡ []))
        ⊎ ((result ≡ some (ok tt)) × (states ≡ playing ∷ null ∷ [])))
run_dec_stream-Pushed_example = run_dec_stream-Pushed G source room willing inputs [] refl
