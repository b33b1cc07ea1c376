-- ===== src/Tasks/Streamer/Steps.antt =====
-- What flows through a streamer's node, and how each round of a task keeps it.
use Prim.Native.String.{String}
use p2pradio.Prelude.{
  ℕ, ◌≤◌, ◌≡◌, refl, ap, sym, ◌∙◌, false, Option, none, some, List, [], ◌∷◌, ◌++◌, append-nil,
  append_assoc, length, arith,
}
use p2pradio.Errors.{Foreign}
use p2pradio.Network.{Network}
use p2pradio.Channel.{Mpsc, Bounded, HasRoom}
use p2pradio.Codec.{Message}
use p2pradio.Ogg.{Sample}
use p2pradio.Encoder.{Input, buffer, changed, sink_sample}
use p2pradio.Encoder.Loops.{messages, is_over, readable}
use p2pradio.Swarm.{StreamerInput, run_streamer}
use p2pradio.Swarm.Streamer.{offered, outcome}
use p2pradio.Tasks.Streamer.{sink_capacity, gossip_pub_capacity, Node}
use p2pradio.Tasks.Streamer.Rounds.{
  buffers, sink_sample-Put, programme-append, is_over-append, buffers-append, readable-append,
}

module _ {F : Foreign} (N : Network F) (S : Mpsc (List ℕ)) (M : Mpsc Message)
    (sink : Bounded S sink_capacity) (gossip : Bounded M gossip_pub_capacity)
    (to_string : Message → String) (topic : N.Topic) where
  abbrev programme : List Input → List Message
  programme = messages F M to_string

  -- the message of an input in hand
  abbrev pub in_hand : Option Input → List Message
  in_hand none = []
  in_hand (some i) = programme (i ∷ [])

  abbrev State : Type 0
  State = Node N S M sink gossip to_string topic

  -- a node whose channels are open and hold at most their capacity
  pub record IsOpen (n : State) : Type 0 where
    pub sink_open : S.is_closed n.sink_tx ≡ false
    pub sink_fits : length (sink.held n.sink_tx) ≤ sink_capacity
    pub gossip_open : M.is_closed n.gossip_tx ≡ false
    pub gossip_fits : length (gossip.held n.gossip_tx) ≤ gossip_pub_capacity

  -- a node whose channels are new and whose swarm has published nothing
  pub record IsFresh (n : State) : Type 0 where
    pub sink_open : S.is_closed n.sink_tx ≡ false
    pub sink_empty : sink.held n.sink_tx ≡ []
    pub nothing_taken : n.hand ≡ none
    pub gossip_open : M.is_closed n.gossip_tx ≡ false
    pub gossip_empty : gossip.held n.gossip_tx ≡ []
    pub silent : N.published n.swarm.gossipsub ≡ []

  pub fresh-IsOpen : (n : State) → IsFresh n → IsOpen n
  fresh-IsOpen n f = record {
    sink_open = f.sink_open;
    sink_fits = omega (arith, ap length f.sink_empty);
    gossip_open = f.gossip_open;
    gossip_fits = omega (arith, ap length f.gossip_empty);
  }

  -- What holds in every run from `start`: `tasks` is what the swarm's loop has taken.
  pub record Runs (start : State) (samples : List (Option Sample)) (inputs : List Input)
      (tasks : List (StreamerInput N)) (n : State) : Type 0 where
    pub still : IsOpen n
    pub sink_flow :
        sink.held start.sink_tx ++ readable S samples ≡ buffers inputs ++ sink.held n.sink_tx
    pub gossip_flow :
        (gossip.held start.gossip_tx ++ in_hand start.hand) ++ programme inputs
        ≡ offered N tasks ++ (gossip.held n.gossip_tx ++ in_hand n.hand)
    pub swarm_ran : (run_streamer N tasks start.swarm topic).0 ≡ n.swarm
    pub tasks_going : outcome N tasks ≡ none
    pub going : is_over F M to_string inputs ≡ false

  pub here-Runs : (n : State) → IsOpen n → Runs n [] [] [] n
  unfolding run_streamer
  here-Runs n o = record {
    still = o;
    sink_flow = append-nil (sink.held n.sink_tx);
    gossip_flow = append-nil _;
    swarm_ran = refl;
    tasks_going = refl;
    going = refl;
  }

  module _ {start : State} (n : State) {samples : List (Option Sample)} {inputs : List Input}
      {tasks : List (StreamerInput N)} (f : Runs start samples inputs tasks n) where
    abbrev waiting : List Message
    waiting = gossip.held n.gossip_tx

    abbrev before : List Message
    before = gossip.held start.gossip_tx ++ in_hand start.hand

    pub sampled-Runs :
        (s : Option Sample)
        → HasRoom sink n.sink_tx
        → Runs start
            (samples ++ s ∷ [])
            inputs
            tasks
            (record n { sink_tx = (sink_sample S s n.sink_tx).0 })
    sampled-Runs s room =
        let put =
          sink_sample-Put N S M sink gossip to_string topic s n.sink_tx f.still.sink_open room in
        record {
          still = record {
            sink_open = put.open_still;
            sink_fits = put.fits;
            gossip_open = f.still.gossip_open;
            gossip_fits = f.still.gossip_fits;
          };
          sink_flow =
              ap (◌++◌ (sink.held start.sink_tx))
                (readable-append N S M sink gossip to_string topic samples s)
              ∙ sym (
                  append_assoc (sink.held start.sink_tx) (readable S samples) (readable S (s ∷ [])))
              ∙ ap (λ l. l ++ readable S (s ∷ [])) f.sink_flow
              ∙ append_assoc (buffers inputs) (sink.held n.sink_tx) (readable S (s ∷ []))
              ∙ ap (◌++◌ (buffers inputs)) (sym put.holds);
          gossip_flow = f.gossip_flow;
          swarm_ran = f.swarm_ran;
          tasks_going = f.tasks_going;
          going = f.going;
        }

    -- an input is taken in hand
    taken_flow :
        (i : Input)
        → n.hand ≡ none
        → before ++ programme (inputs ++ i ∷ [])
          ≡ offered N tasks ++ (waiting ++ programme (i ∷ []))
    taken_flow i idle =
        ap (◌++◌ before) (programme-append N S M sink gossip to_string topic inputs i f.going)
        ∙ sym (append_assoc before (programme inputs) (programme (i ∷ [])))
        ∙ ap (λ l. l ++ programme (i ∷ []))
            (f.gossip_flow
              ∙ ap (◌++◌ (offered N tasks))
                  (ap (λ h. waiting ++ in_hand h) idle ∙ append-nil waiting))
        ∙ append_assoc (offered N tasks) waiting (programme (i ∷ []))

    pub buffered-Runs :
        (buf : List ℕ) (rest : S.Chan)
        → n.hand ≡ none
        → sink.recv n.sink_tx ≡ some (buf, rest)
        → Runs start samples
            (inputs ++ buffer buf ∷ [])
            tasks
            (record n { sink_tx = rest; hand = some (buffer buf) })
    buffered-Runs buf rest idle got =
        let (first, same) = sink.recv_next n.sink_tx rest buf got in
        let sink_fits = f.still.sink_fits in
        record {
          still = record {
            sink_open = same ∙ f.still.sink_open;
            sink_fits = omega (arith, ap length first, sink_fits);
            gossip_open = f.still.gossip_open;
            gossip_fits = f.still.gossip_fits;
          };
          sink_flow =
              f.sink_flow
              ∙ ap (◌++◌ (buffers inputs)) first
              ∙ sym (append_assoc (buffers inputs) (buf ∷ []) (sink.held rest))
              ∙ ap (λ l. l ++ sink.held rest)
                  (sym (buffers-append N S M sink gossip to_string topic inputs (buffer buf)));
          gossip_flow = taken_flow (buffer buf) idle;
          swarm_ran = f.swarm_ran;
          tasks_going = f.tasks_going;
          going = is_over-append N S M sink gossip to_string topic inputs (buffer buf) f.going refl;
        }

    pub titled-Runs :
        (title : Option (List ℕ))
        → n.hand ≡ none
        → Runs start samples
            (inputs ++ changed title ∷ [])
            tasks
            (record n { hand = some (changed title) })
    titled-Runs title idle = record {
      still = record {
        sink_open = f.still.sink_open;
        sink_fits = f.still.sink_fits;
        gossip_open = f.still.gossip_open;
        gossip_fits = f.still.gossip_fits;
      };
      sink_flow =
          f.sink_flow
          ∙ ap (λ l. l ++ sink.held n.sink_tx)
              (sym (
                buffers-append N S M sink gossip to_string topic inputs (changed title)
                ∙ append-nil (buffers inputs)));
      gossip_flow = taken_flow (changed title) idle;
      swarm_ran = f.swarm_ran;
      tasks_going = f.tasks_going;
      going = is_over-append N S M sink gossip to_string topic inputs (changed title) f.going refl;
    }
