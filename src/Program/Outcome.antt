-- ===== src/Program/Outcome.antt =====
-- What comes of the command line in src/main.rs: the node that is made of it, and what the process logs
-- at its end.
use p2pradio.Prelude.{ℕ, ◌≡◌, ◌⊎◌, inl, inr, refl, none, some, List, [], ◌∷◌, true, false, ok, err}
use p2pradio.Errors.{Foreign, AppError, TaskRet}
use p2pradio.Network.{Network}
use p2pradio.Channel.{Mpsc, Broadcast}
use p2pradio.Codec.{Message}
use p2pradio.Cli.{Cli, Listener, Streamer, listener, streamer}
use p2pradio.Node.{
  StreamerTask, ListenerTask, run_streamer_node, run_listener_node, start, start_listener, panicked,
  failed,
}
use p2pradio.Program.{
  Outside, StreamerNode, ListenerNode, Logged, program_panic, Exit, StreamerNodeCtx,
  ListenerNodeCtx, report, start_variant, start_node, new_node, run_program, main,
}
use p2pradio.Program.Starting.{
  IsStreamer, StreamerFails, new_streamer_lem, IsListener, ListenerFails, new_listener_lem,
  panicked_lem,
}

module _ {F : Foreign} {N : Network F} {M : Mpsc Message} {A : Mpsc (List ℕ)}
    {B : Broadcast (List ℕ)} (O : Outside N M A B) where
  -- How the process ends after a node was made: it succeeds, cancels the token, and logs this.
  abbrev pub ends_with : List (Logged O) → Exit O
  ends_with logged = record { result = ok tt; logged = logged; cancelled = true }

  -- what is logged of a node that ran: nothing where it was cancelled, otherwise its error
  pub data IsReport : TaskRet F (AppError F) → List (Logged O) → Type 0 where
    quiet : IsReport none []
    ended : (e : AppError F) → IsReport (some (err e)) (program_panic e ∷ [])

  report_lem : (ret : TaskRet F (AppError F)) → IsReport ret (report O ret)
  unfolding report
  report_lem none = quiet
  report_lem (some (ok v)) = absurd v
  report_lem (some (err e)) = ended e

  module _ (streamer_ends : StreamerNode O → StreamerTask F)
      (listener_ends : ListenerNode O → ListenerTask F) where
    -- With a topic and the streamer's command: either the node has its swarm on that topic, which signs
    -- with the new key and validates strictly, its metrics on the HTTP address, its RPC server on the
    -- RPC address and the pipeline for the URL, and what is logged is the error with which it ended, or
    -- nothing where it was cancelled; or the error of its first part that could not be made is logged.
    -- Either way the process ends without an error and the token is cancelled.
    pub main_streamer :
        (cli : Cli N.PeerId O.SocketAddr) (topic : List ℕ) (s : Streamer)
        → cli.topic ≡ some topic
        → cli.command ≡ streamer s
        → let ctx : StreamerNodeCtx O = record {
          topic = O.new_topic topic;
          url = s.url;
          rpc_addr = cli.rpc;
          http_addr = cli.http;
        } in
          ((n : StreamerNode O) × (log : List (Logged O)) × IsStreamer O ctx n
            × IsReport (run_streamer_node F (streamer_ends n)) log
            × (main O streamer_ends listener_ends cli ≡ some (ends_with log)))
          ⊎ ((e : AppError F) × StreamerFails O ctx e
              × (main O streamer_ends listener_ends cli ≡ some (ends_with (program_panic e ∷ []))))
    unfolding main run_program new_node start_node start_variant start report
    main_streamer cli topic s t c =
        elim (new_streamer_lem O (record {
          topic = O.new_topic topic;
          url = s.url;
          rpc_addr = cli.rpc;
          http_addr = cli.http;
        })) [
          | inr (e, why, p) ↦ inr (e, why, rw (t, main) (rw (c, main) (rw (p, main) refl)))
          | inl (n, is, p) ↦
              inl (n, _, is, report_lem _, rw (t, main) (rw (c, main) (rw (p, main) refl)))
        ]

    -- With a topic and the listener's command: either the node has its swarm on that topic, which signs
    -- with the new key, validates strictly and trusts the given streamer, its stream on the HTTP
    -- address, its RPC server on the RPC address and the decoding backend, and what is logged is the
    -- error with which it ended, or nothing where it was cancelled; or the error of its first part that
    -- could not be made is logged; and either way the process ends without an error and the token is
    -- cancelled. Or making the decoding backend panics, and so does the process.
    pub main_listener :
        (cli : Cli N.PeerId O.SocketAddr) (topic : List ℕ) (l : Listener N.PeerId)
        → cli.topic ≡ some topic
        → cli.command ≡ listener l
        → let ctx : ListenerNodeCtx O = record {
          topic = O.new_topic topic;
          rpc_addr = cli.rpc;
          listener_addr = cli.http;
          streamer_peer_id = l.streamer_peer_id;
        } in
          ((n : ListenerNode O) × (log : List (Logged O)) × IsListener O ctx n
            × IsReport (run_listener_node F (listener_ends n)) log
            × (main O streamer_ends listener_ends cli ≡ some (ends_with log)))
          ⊎ ((e : AppError F) × ListenerFails O ctx (failed e)
              × (main O streamer_ends listener_ends cli ≡ some (ends_with (program_panic e ∷ []))))
          ⊎ (ListenerFails O ctx panicked
              × (O.new_decoding_backend (O.broadcast_channel 100) ≡ none)
              × (main O streamer_ends listener_ends cli ≡ none))
    unfolding main run_program new_node start_node start_variant start_listener report
    main_listener cli topic l t c =
        elim (new_listener_lem O (record {
          topic = O.new_topic topic;
          rpc_addr = cli.rpc;
          listener_addr = cli.http;
          streamer_peer_id = l.streamer_peer_id;
        })) [
          | inr (failed e, why, p) ↦
              inr (inl (e, why, rw (t, main) (rw (c, main) (rw (p, main) refl))))
          | inr (panicked, why, p) ↦
              inr (inr (why, panicked_lem O _ why, rw (t, main) (rw (c, main) (rw (p, main) refl))))
          | inl (n, is, p) ↦
              inl (n, _, is, report_lem _, rw (t, main) (rw (c, main) (rw (p, main) refl)))
        ]

    -- Without a topic the process fails before a node is made: it logs nothing and the token is not
    -- cancelled.
    pub main-missing_topic :
        (cli : Cli N.PeerId O.SocketAddr)
        → cli.topic ≡ none
        → main O streamer_ends listener_ends cli
          ≡ some (record {
            result = err (AppError.other "missing --topic");
            logged = [];
            cancelled = false;
          })
    unfolding main
    main-missing_topic cli t = rw (t, main) refl
