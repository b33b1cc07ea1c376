-- ===== src/Program/Tests/Stopping.antt =====
-- How the program of Program.antt stops, on concrete runs after ctrl-c.
use Prim.Native.String.{String}
use p2pradio.Prelude.{ℕ, ◌≡◌, ◌⊎◌, refl, true, none, some, [], ◌∷◌, Result, ok}
use p2pradio.Errors.{AppError}
use p2pradio.Network.Tables.{texts, tables}
use p2pradio.Codec.{Message}
use p2pradio.Swarm.{Swarm, ListenerInput, run_listener}
use p2pradio.Encoder.{State, Error, BusInput, main_loop, bus_loop}
use p2pradio.Decoder.{run_dec_stream}
use p2pradio.Decoder.Sources.{G}
use p2pradio.Node.{StreamerTask, ListenerTask, ListenerServerTask, run_listener_server}
use p2pradio.Program.{main, Exit, program_panic, StreamerNode, ListenerNode}
use p2pradio.Program.Tests.{M, A, outside, encoder_first, swarm_first, fan_args}
use p2pradio.Program.Stops.{StreamerStops, ListenerStops, main_loop_left}
use p2pradio.Program.Quiet.{main_quiet}

abbrev text : Message → String
text m = "channel closed"

abbrev willing : State → Result (Unit {0}) ℕ
willing s = ok tt

abbrev as_text : Error G → String
as_text e = "GStreamer failed"

main_loop_cancelled : (main_loop G willing (BusInput.cancelled ∷ [])).1 ≡ some (ok tt)
unfolding main_loop bus_loop
main_loop_cancelled = refl

encoder_stops :
    (n : StreamerNode outside)
    → StreamerStops true tables G M A text willing as_text (encoder_first n)
encoder_stops n = main_loop_left (BusInput.cancelled ∷ []) (ok tt) main_loop_cancelled

swarm_cancelled_at_once :
    (s : Swarm tables × M.Chan)
    → (run_listener tables M (ListenerInput.cancelled ∷ []) s 1).1 ≡ some none
unfolding run_listener
swarm_cancelled_at_once s = refl

abbrev off_air : Swarm tables
off_air = record {
  gossipsub = record { explicit = λ q. true; blacklisted = λ q. true; log = [] };
  local_peer_id = 7;
}

swarm_stops_first :
    (n : ListenerNode outside)
    → ListenerStops true tables G M A text willing as_text (swarm_first n)
swarm_stops_first n =
    ListenerStops.swarm_ended (ListenerInput.cancelled ∷ []) (off_air, ([], true)) 1 none refl
      (swarm_cancelled_at_once (off_air, ([], true)))

main_quiet_example :
    ((outside.new_decoding_backend [] ≡ none)
      × (main outside encoder_first swarm_first fan_args ≡ none))
    ⊎ ((exit : Exit outside) × (main outside encoder_first swarm_first fan_args ≡ some exit)
        × (exit.result ≡ ok tt)
        × (exit.cancelled ≡ true)
        × (((exit.logged ≡ []) × (true ≡ true))
            ⊎ ((e : AppError texts) × (exit.logged ≡ program_panic e ∷ []))))
main_quiet_example =
    main_quiet outside true G text willing as_text encoder_first swarm_first encoder_stops
      swarm_stops_first fan_args (b't' ∷ []) refl

-- a streamer's node of no context: the encoder is left
abbrev encoder_left : StreamerTask texts
encoder_left =
    StreamerTask.backend (ok (p2pradio.Encoder.run texts p2pradio.Encoder.main_loop_ended))

-- the decoder was cancelled
abbrev decoder_cancelled : ListenerTask texts
decoder_cancelled = ListenerTask.server (
    ok (
      run_listener_server texts
        (ListenerServerTask.backend (ok (p2pradio.Decoder.run texts G as_text none)))))
