-- ===== src/Program/Quiet.antt =====
-- What the process of src/main.rs logs at its end: it is quiet only if the token was cancelled.
use Prim.Native.String.{String}
use mathlib.Core.Option
use p2pradio.Prelude.{
  ℕ, ◌≡◌, ◌⊎◌, inl, inr, refl, ap, Option, Bool, true, none, some, List, [], ◌∷◌, Result, ok, err,
}
use p2pradio.Errors.{Foreign, AppError, TaskRet}
use p2pradio.Network.{Network}
use p2pradio.Channel.{Mpsc, Broadcast}
use p2pradio.Codec.{Message}
use p2pradio.Encoder.{Gst, State, Error}
use p2pradio.Cli.{Cli, Variant, listener, streamer}
use p2pradio.Node.{StreamerTask, ListenerTask, start, start_listener, panicked, failed}
use p2pradio.Program.Starting.{new_listener_lem, panicked_lem}
use p2pradio.Program.{
  Outside, Exit, ListenerNodeCtx, new_listener, StreamerNode, ListenerNode, Node, program_panic,
  report, main, run_program, new_node, start_node, start_variant,
}
use p2pradio.Program.Stops.{StreamerStops, ListenerStops}
use p2pradio.Program.Shutdown.{run_streamer_node-StreamerStops, run_listener_node-ListenerStops}

module _ {F : Foreign} {N : Network F} {M : Mpsc Message} {A : Mpsc (List ℕ)}
    {B : Broadcast (List ℕ)} (O : Outside N M A B) (token : Bool) where
  -- A node that was not cancelled ended with an error.
  abbrev pub IsExplained : TaskRet F (AppError F) → Type 0
  IsExplained ending =
      ((ending ≡ none) × (token ≡ true)) ⊎ ((e : AppError F) × (ending ≡ some (err e)))

  start-IsExplained :
      {X : Type 0} (made : Result X (AppError F)) (run : X → TaskRet F (AppError F))
      → ((x : X) → IsExplained (run x))
      → IsExplained (start F made run)
  unfolding start
  start-IsExplained (ok x) run h = h x
  start-IsExplained (err e) run h = inr (e, refl)

  -- A node that panics while it is made does not end.
  abbrev pub IsExplainedOrNone : Option (TaskRet F (AppError F)) → Type 0
  IsExplainedOrNone none = O.new_decoding_backend (O.broadcast_channel 100) ≡ none
  IsExplainedOrNone (some ending) = IsExplained ending

  start_listener-IsExplained :
      (ctx : ListenerNodeCtx O) (run : ListenerNode O → TaskRet F (AppError F))
      → ((n : ListenerNode O) → IsExplained (run n))
      → IsExplainedOrNone (start_listener F (new_listener O ctx) run)
  unfolding start_listener
  start_listener-IsExplained ctx run h = elim (new_listener_lem O ctx) [
    | inl (n, is, p) ↦ rw p (h n)
    | inr (failed e, why, p) ↦ rw p (inr (e, refl))
    | inr (panicked, why, p) ↦ rw p (panicked_lem O ctx why)
  ]

  -- what the process makes of how the node ended
  exit_of :
      (ending : Option (TaskRet F (AppError F)))
      → IsExplainedOrNone ending
      → let made : Option (Exit O) =
          Option.map {B = Exit O}
            (λ ret. record { result = ok tt; logged = report O ret; cancelled = true })
            ending in
        ((O.new_decoding_backend (O.broadcast_channel 100) ≡ none) × (made ≡ none))
        ⊎ ((exit : Exit O) × (made ≡ some exit)
            × (exit.result ≡ ok tt)
            × (exit.cancelled ≡ true)
            × (((exit.logged ≡ []) × (token ≡ true))
                ⊎ ((e : AppError F) × (exit.logged ≡ program_panic e ∷ []))))
  unfolding report
  exit_of none h = inl (h, refl)
  exit_of (some ending) (inl (p, h)) = inr (_, refl, refl, refl, inl (ap (report O) p, h))
  exit_of (some ending) (inr (e, p)) = inr (_, refl, refl, refl, inr (e, ap (report O) p))

  module _ (G : Gst) (to_string : Message → String)
      (set : State → Result (Unit {0}) G.StateChangeError) (into : Error G → F.AnyhowError)
      (streamer_ends : StreamerNode O → StreamerTask F)
      (listener_ends : ListenerNode O → ListenerTask F) where
    start_variant-IsExplained :
        ((n : StreamerNode O) → StreamerStops token N G M A to_string set into (streamer_ends n))
        → ((n : ListenerNode O) → ListenerStops token N G M A to_string set into (listener_ends n))
        → (v : Variant N.PeerId) (node : Node O)
        → IsExplainedOrNone (start_variant O streamer_ends listener_ends v node)
    unfolding start_variant
    start_variant-IsExplained hs hl (streamer s) node = start-IsExplained _ _ (λ n.
        elim (run_streamer_node-StreamerStops token N G M A to_string set into _ (hs n)) [
          | inl h ↦ inl h
          | inr (e, why, p) ↦ inr (e, p)
        ])
    start_variant-IsExplained hs hl (listener l) node = start_listener-IsExplained _ _ (λ n.
        elim (run_listener_node-ListenerStops token N G M A to_string set into _ (hl n)) [
          | inl h ↦ inl h
          | inr (e, why, p) ↦ inr (e, p)
        ])

    -- The tasks of the node run and stop in any way, and take no branch for a cancellation before the
    -- token is cancelled. With a topic either making the decoding backend panics, and with it the
    -- process; or the process ends without an error and with the token cancelled, and logs one error,
    -- or nothing, and nothing only if the token was cancelled before.
    pub main_quiet :
        ((n : StreamerNode O) → StreamerStops token N G M A to_string set into (streamer_ends n))
        → ((n : ListenerNode O) → ListenerStops token N G M A to_string set into (listener_ends n))
        → (cli : Cli N.PeerId O.SocketAddr) (topic : List ℕ) → cli.topic ≡ some topic
        → ((O.new_decoding_backend (O.broadcast_channel 100) ≡ none)
            × (main O streamer_ends listener_ends cli ≡ none))
          ⊎ ((exit : Exit O) × (main O streamer_ends listener_ends cli ≡ some exit)
              × (exit.result ≡ ok tt)
              × (exit.cancelled ≡ true)
              × (((exit.logged ≡ []) × (token ≡ true))
                  ⊎ ((e : AppError F) × (exit.logged ≡ program_panic e ∷ []))))
    unfolding main run_program new_node report start_node
    main_quiet hs hl cli topic t =
        rw (t, main)
          (exit_of
            (start_variant O streamer_ends listener_ends cli.command (record {
              topic = O.new_topic topic;
              rpc_addr = cli.rpc;
              http_addr = cli.http;
              variant = cli.command;
            }))
            (start_variant-IsExplained hs hl cli.command _))
