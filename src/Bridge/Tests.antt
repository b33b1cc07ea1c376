-- ===== src/Bridge/Tests.antt =====
-- The bridge of src/rpc/mod.rs on a channel that is a log.
use p2pradio.Prelude.{refl, ℕ, ◌≡◌, false, none, List, [], ◌∷◌}
use p2pradio.Channel.{Mpsc}
use p2pradio.Channel.Logs.{log_mpsc}
use p2pradio.Codec.{Message, audio_packet, metadata}
use p2pradio.Bridge.{Bridge, step, run}
use p2pradio.Bridge.Relay.{arriving}
use p2pradio.Network.Tables.{texts}

abbrev A : Mpsc (List ℕ)
A = log_mpsc (List ℕ)

abbrev start : Bridge A
start = record { app_src_tx = ([], false); title = [] }

-- two packets around a change of title
abbrev programme : List Message
programme =
    audio_packet (1 ∷ []) ∷ metadata (record { title = 65 ∷ [] }) ∷ audio_packet (2 ∷ []) ∷ []

relayed :
    run A texts (arriving programme []) start
    ≡ (record { app_src_tx = ((1 ∷ []) ∷ (2 ∷ []) ∷ [], false); title = 65 ∷ [] }, none)
unfolding run step
relayed = refl
