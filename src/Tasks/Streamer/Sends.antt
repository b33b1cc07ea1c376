-- ===== src/Tasks/Streamer/Sends.antt =====
-- How the rounds of a streamer's node that send, publish and hear keep what flows through it.
use Prim.Native.String.{String}
use p2pradio.Prelude.{
  ℕ, ◌≡◌, ap, sym, ◌∙◌, Option, none, some, ◌⊎◌, List, [], ◌∷◌, ◌++◌, append-nil, append_assoc,
  length, arith,
}
use p2pradio.Errors.{Foreign}
use p2pradio.Network.{Network}
use p2pradio.Channel.{Mpsc, Bounded, HasRoom}
use p2pradio.Codec.{Message}
use p2pradio.Ogg.{Sample}
use p2pradio.Encoder.{Input}
use p2pradio.Swarm.{SwarmEvent, StreamerInput, run_streamer}
use p2pradio.Swarm.Streamer.{offered, run_streamer-append, outcome-append, offered-append}
use p2pradio.Tasks.Streamer.{sink_capacity, gossip_pub_capacity, Node, msg_round, swarm_round}
use p2pradio.Tasks.Streamer.Rounds.{round-Put}
use p2pradio.Tasks.Streamer.Steps.{Runs, in_hand}

module _ {F : Foreign} (N : Network F) (S : Mpsc (List ℕ)) (M : Mpsc Message)
    (sink : Bounded S sink_capacity) (gossip : Bounded M gossip_pub_capacity)
    (to_string : Message → String) (topic : N.Topic) where
  abbrev State : Type 0
  State = Node N S M sink gossip to_string topic

  module _ {start : State} (n : State) {samples : List (Option Sample)} {inputs : List Input}
      {tasks : List (StreamerInput N)}
      (f : Runs N S M sink gossip to_string topic start samples inputs tasks n) where
    abbrev waiting : List Message
    waiting = gossip.held n.gossip_tx

    abbrev hand : List Message
    hand = in_hand N S M sink gossip to_string topic n.hand

    pub sent-Runs :
        (i : Input)
        → n.hand ≡ some i
        → HasRoom gossip n.gossip_tx
          ⊎ (msg_round N S M sink gossip to_string topic i n.gossip_tx ≡ n.gossip_tx)
        → Runs N S M sink gossip to_string topic start samples inputs tasks (record n {
          hand = none;
          gossip_tx = msg_round N S M sink gossip to_string topic i n.gossip_tx;
        })
    sent-Runs i in_it ready =
        let put =
          round-Put N S M sink gossip to_string topic i n.gossip_tx f.still.gossip_open
            f.still.gossip_fits ready in
        record {
          still = record {
            sink_open = f.still.sink_open;
            sink_fits = f.still.sink_fits;
            gossip_open = put.open_still;
            gossip_fits = put.fits;
          };
          sink_flow = f.sink_flow;
          gossip_flow =
              f.gossip_flow
              ∙ ap (◌++◌ (offered N tasks)) (
                  ap (λ h. waiting ++ in_hand N S M sink gossip to_string topic h) in_it
                  ∙ sym put.holds
                  ∙ sym (append-nil _));
          swarm_ran = f.swarm_ran;
          tasks_going = f.tasks_going;
          going = f.going;
        }

    -- The swarm's loop takes one more input.
    ran_on :
        (i : StreamerInput N)
        → (run_streamer N (tasks ++ i ∷ []) start.swarm topic).0
          ≡ swarm_round N S M sink gossip to_string topic i n.swarm
    ran_on i =
        ap (λ r. r.0) (run_streamer-append N tasks (i ∷ []) start.swarm topic f.tasks_going)
        ∙ ap (λ s. (run_streamer N (i ∷ []) s topic).0) f.swarm_ran

    pub offered-Runs :
        (m : Message) (rest : M.Chan)
        → gossip.recv n.gossip_tx ≡ some (m, rest)
        → Runs N S M sink gossip to_string topic start samples inputs
            (tasks ++ StreamerInput.publish m ∷ [])
            (record n {
              gossip_tx = rest;
              swarm =
                  swarm_round N S M sink gossip to_string topic (StreamerInput.publish m) n.swarm;
            })
    offered-Runs m rest got =
        let (first, same) = gossip.recv_next n.gossip_tx rest m got in
        let gossip_fits = f.still.gossip_fits in
        record {
          still = record {
            sink_open = f.still.sink_open;
            sink_fits = f.still.sink_fits;
            gossip_open = same ∙ f.still.gossip_open;
            gossip_fits = omega (arith, ap length first, gossip_fits);
          };
          sink_flow = f.sink_flow;
          gossip_flow =
              f.gossip_flow
              ∙ ap (λ l. offered N tasks ++ (l ++ hand)) first
              ∙ sym (append_assoc (offered N tasks) (m ∷ []) (gossip.held rest ++ hand))
              ∙ ap (λ l. l ++ (gossip.held rest ++ hand))
                  (sym (offered-append N tasks (StreamerInput.publish m ∷ []) f.tasks_going));
          swarm_ran = ran_on (StreamerInput.publish m);
          tasks_going = outcome-append N tasks (StreamerInput.publish m ∷ []) f.tasks_going;
          going = f.going;
        }

    pub network-Runs :
        (e : SwarmEvent N)
        → Runs N S M sink gossip to_string topic start samples inputs
            (tasks ++ StreamerInput.event e ∷ [])
            (record n {
              swarm = swarm_round N S M sink gossip to_string topic (StreamerInput.event e) n.swarm;
            })
    network-Runs e = record {
      still = record {
        sink_open = f.still.sink_open;
        sink_fits = f.still.sink_fits;
        gossip_open = f.still.gossip_open;
        gossip_fits = f.still.gossip_fits;
      };
      sink_flow = f.sink_flow;
      gossip_flow =
          f.gossip_flow
          ∙ ap (λ l. l ++ (waiting ++ hand))
              (sym (
                offered-append N tasks (StreamerInput.event e ∷ []) f.tasks_going
                ∙ append-nil (offered N tasks)));
      swarm_ran = ran_on (StreamerInput.event e);
      tasks_going = outcome-append N tasks (StreamerInput.event e ∷ []) f.tasks_going;
      going = f.going;
    }
