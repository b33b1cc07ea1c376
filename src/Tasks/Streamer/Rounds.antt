-- ===== src/Tasks/Streamer/Rounds.antt =====
-- The rounds of a streamer's tasks one by one: what each takes and what it leaves in a channel.
use Prim.Native.String.{String}
use p2pradio.Prelude.{
  ℕ, ◌≤◌, ◌≡◌, refl, ap, sym, ◌∙◌, false, Option, none, some, ◌⊎◌, List, [], ◌∷◌, ◌++◌, inl, inr,
  length, arith, Result-cases, eq_nil_of_append,
}
use p2pradio.Errors.{Foreign}
use p2pradio.Network.{Network}
use p2pradio.Channel.{Mpsc, Bounded, HasRoom}
use p2pradio.Channel.Room.{Put, Put-none, Put-one}
use p2pradio.Codec.{Message, audio_packet, metadata}
use p2pradio.Ogg.{Sample, read_sample}
use p2pradio.Encoder.{Input, buffer, changed, closed, msg_loop, send_or_other, sink_sample}
use p2pradio.Encoder.Loops.{messages, is_over, readable, msg_loop_lem}
use p2pradio.Tasks.Streamer.{sink_capacity, gossip_pub_capacity, msg_round}

-- the buffers among the inputs
abbrev pub buffers : List Input → List (List ℕ)
buffers [] = []
buffers (buffer buf ∷ inputs) = buf ∷ buffers inputs
buffers (changed title ∷ inputs) = buffers inputs
buffers (closed ∷ inputs) = buffers inputs

module _ {F : Foreign} (N : Network F) (S : Mpsc (List ℕ)) (M : Mpsc Message)
    (sink : Bounded S sink_capacity) (gossip : Bounded M gossip_pub_capacity)
    (to_string : Message → String) (topic : N.Topic) where
  abbrev programme : List Input → List Message
  programme = messages F M to_string

  pub sink_sample-Put :
      (s : Option Sample) (c : S.Chan)
      → S.is_closed c ≡ false
      → HasRoom sink c
      → Put sink c (sink_sample S s c).0 (readable S (s ∷ []))
  unfolding sink_sample
  sink_sample-Put s c opened room = elim (Result-cases (read_sample s)) [
    | inl (p, e) ↦
        let (c', accepted, put) = Put-one sink c opened room p.0 in
        rw (e, sink_sample, readable) (rw (accepted, sink_sample) put)
    | inr (x, e) ↦ rw (e, sink_sample, readable) (Put-none sink c opened (omega arith))
  ]

  -- One round of `msg_loop` when there is room.
  msg_round-Put :
      (i : Input) (c : M.Chan)
      → M.is_closed c ≡ false
      → HasRoom gossip c
      → Put gossip c (msg_loop F M to_string (i ∷ []) c).0 (programme (i ∷ []))
  unfolding msg_loop send_or_other
  msg_round-Put (changed none) c opened room = Put-none gossip c opened (omega arith)
  msg_round-Put closed c opened room = Put-none gossip c opened (omega arith)
  msg_round-Put (buffer buf) c opened room =
      let (c', accepted, put) = Put-one gossip c opened room (audio_packet buf) in
      rw (accepted, msg_loop, send_or_other) put
  msg_round-Put (changed (some title)) c opened room =
      let (c', accepted, put) =
        Put-one gossip c opened room (metadata (record { title = title })) in
      rw (accepted, msg_loop, send_or_other) put

  -- A round that leaves the channel as it is had nothing to send.
  silent_round :
      (i : Input) (c : M.Chan)
      → M.is_closed c ≡ false
      → msg_round N S M sink gossip to_string topic i c ≡ c
      → programme (i ∷ []) ≡ []
  silent_round i c opened same =
      eq_nil_of_append (M.sent c) (programme (i ∷ []))
        (sym (msg_loop_lem F M to_string (i ∷ []) c opened).0 ∙ ap M.sent same)

  pub round-Put :
      (i : Input) (c : M.Chan)
      → M.is_closed c ≡ false
      → length (gossip.held c) ≤ gossip_pub_capacity
      → HasRoom gossip c ⊎ (msg_round N S M sink gossip to_string topic i c ≡ c)
      → Put gossip c (msg_round N S M sink gossip to_string topic i c) (programme (i ∷ []))
  round-Put i c opened fits (inl room) = msg_round-Put i c opened room
  round-Put i c opened fits (inr same) =
      rw (same, silent_round i c opened same) (Put-none gossip c opened fits)

  pub programme-append :
      (inputs : List Input) (i : Input)
      → is_over F M to_string inputs ≡ false
      → programme (inputs ++ i ∷ []) ≡ programme inputs ++ programme (i ∷ [])
  programme-append [] i h = refl
  programme-append (closed ∷ inputs) i h = cc
  programme-append (buffer buf ∷ inputs) i h =
      ap (◌∷◌ (audio_packet buf)) (programme-append inputs i h)
  programme-append (changed none ∷ inputs) i h = programme-append inputs i h
  programme-append (changed (some title) ∷ inputs) i h =
      ap (◌∷◌ (metadata (record { title = title }))) (programme-append inputs i h)

  pub is_over-append :
      (inputs : List Input) (i : Input)
      → is_over F M to_string inputs ≡ false
      → is_over F M to_string (i ∷ []) ≡ false
      → is_over F M to_string (inputs ++ i ∷ []) ≡ false
  is_over-append [] i h last = last
  is_over-append (closed ∷ inputs) i h last = h
  is_over-append (buffer buf ∷ inputs) i h last = is_over-append inputs i h last
  is_over-append (changed title ∷ inputs) i h last = is_over-append inputs i h last

  pub buffers-append :
      (inputs : List Input) (i : Input)
      → buffers (inputs ++ i ∷ []) ≡ buffers inputs ++ buffers (i ∷ [])
  buffers-append [] i = refl
  buffers-append (closed ∷ inputs) i = buffers-append inputs i
  buffers-append (buffer buf ∷ inputs) i = ap (◌∷◌ buf) (buffers-append inputs i)
  buffers-append (changed title ∷ inputs) i = buffers-append inputs i

  pub readable-append :
      (samples : List (Option Sample)) (s : Option Sample)
      → readable S (samples ++ s ∷ []) ≡ readable S samples ++ readable S (s ∷ [])
  readable-append [] s = refl
  readable-append (x ∷ samples) s = elim (Result-cases (read_sample x)) [
    | inl (p, e) ↦ rw (e, readable) (ap (◌∷◌ p.0) (readable-append samples s))
    | inr (e', e) ↦ rw (e, readable) (readable-append samples s)
  ]
