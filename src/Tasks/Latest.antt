-- ===== src/Tasks/Latest.antt =====
-- Which titles `msg_loop` takes from the watch channel of Tasks/Titles.antt.
use Prim.Native.String.{String}
use p2pradio.Prelude.{
  ℕ, ap, sym, subst, ◌∙◌, ◌≡◌, refl, true, false, Option, none, some, List, [], ◌∷◌, ◌++◌,
  append-nil, IsSublist, nil, keep, drop_one, IsSublist-trans, IsSublist-append,
}
use p2pradio.Errors.{Foreign}
use p2pradio.Network.{Network}
use p2pradio.Channel.{Mpsc, Bounded, Watch}
use p2pradio.Codec.{Message}
use p2pradio.Ogg.{Sample}
use p2pradio.Encoder.{
  Gst, Input, buffer, changed, closed, BusInput, bus, cancelled, MessageView, eos, error, tag,
  bus_loop, process_message,
}
use p2pradio.Encoder.Loops.{is_left, titles_before, messages, is_over}
use p2pradio.Bridge.Relay.{last_title}
use p2pradio.Tasks.Streamer.{sink_capacity, gossip_pub_capacity}
use p2pradio.Tasks.Streamer
use p2pradio.Tasks.Titles.{
  bus_round, Watched, here, bus_read, titled, sampled, buffered, sent, offered, network,
}

-- the titles among the inputs of `msg_loop`
abbrev pub taken : List Input → List (List ℕ)
taken [] = []
taken (buffer buf ∷ inputs) = taken inputs
taken (changed none ∷ inputs) = taken inputs
taken (changed (some title) ∷ inputs) = title ∷ taken inputs
taken (closed ∷ inputs) = taken inputs

-- the last of some titles, or the one from before
abbrev pub last_of : List ℕ → List (List ℕ) → List ℕ
last_of before [] = before
last_of before (title ∷ titles) = last_of title titles

pub taken-append : (xs ys : List Input) → taken (xs ++ ys) ≡ taken xs ++ taken ys
taken-append [] ys = refl
taken-append (buffer buf ∷ xs) ys = taken-append xs ys
taken-append (changed none ∷ xs) ys = taken-append xs ys
taken-append (changed (some title) ∷ xs) ys = ap (◌∷◌ title) (taken-append xs ys)
taken-append (closed ∷ xs) ys = taken-append xs ys

last_of-append :
    (before : List ℕ) (xs : List (List ℕ)) (t : List ℕ) → last_of before (xs ++ t ∷ []) ≡ t
last_of-append before [] t = refl
last_of-append before (x ∷ xs) t = last_of-append x xs t

IsSublist-snoc :
    {X : Type 0} {xs ys : List X} (t : X)
    → IsSublist xs ys
    → IsSublist (xs ++ t ∷ []) (ys ++ t ∷ [])
IsSublist-snoc t nil = keep nil
IsSublist-snoc t (keep p) = keep (IsSublist-snoc t p)
IsSublist-snoc t (drop_one p) = drop_one (IsSublist-snoc t p)

pub last_title-messages :
    (F : Foreign) (M : Mpsc Message) (to_string : Message → String) (before : List ℕ)
    (inputs : List Input)
    → is_over F M to_string inputs ≡ false
    → last_title before (messages F M to_string inputs) ≡ last_of before (taken inputs)
last_title-messages F M to_string before [] going = refl
last_title-messages F M to_string before (buffer buf ∷ inputs) going =
    last_title-messages F M to_string before inputs going
last_title-messages F M to_string before (changed none ∷ inputs) going =
    last_title-messages F M to_string before inputs going
last_title-messages F M to_string before (changed (some title) ∷ inputs) going =
    last_title-messages F M to_string title inputs going
last_title-messages F M to_string before (closed ∷ inputs) going = cc

module _ (G : Gst) where
  titles_before-append :
      (brought : List (BusInput G)) (i : BusInput G)
      → is_left brought ≡ false
      → titles_before (brought ++ i ∷ []) ≡ titles_before brought ++ titles_before (i ∷ [])
  titles_before-append [] i h = refl
  titles_before-append (cancelled ∷ brought) i h = cc
  titles_before-append (bus eos ∷ brought) i h = cc
  titles_before-append (bus (error path e debug) ∷ brought) i h = cc
  titles_before-append (bus (tag (some title)) ∷ brought) i h =
      ap (◌∷◌ title) (titles_before-append brought i h)
  titles_before-append (bus (tag none) ∷ brought) i h = titles_before-append brought i h
  titles_before-append (bus MessageView.other ∷ brought) i h = titles_before-append brought i h

module _ {F : Foreign} (N : Network F) (S : Mpsc (List ℕ)) (M : Mpsc Message)
    (sink : Bounded S sink_capacity) (gossip : Bounded M gossip_pub_capacity)
    (to_string : Message → String) (topic : N.Topic) (G : Gst) (W : Watch (Option (List ℕ))) where
  -- The titles that were taken are some of those that came, in order; one that is still to be seen is
  -- behind them and is the last that came; where none is, the last taken is the last that came.
  pub record IsKept (came took : List (List ℕ)) (w : W.Chan) : Type 0 where
    pub some_came : IsSublist took came
    pub unseen :
        W.has_changed w ≡ true
        → (t : List ℕ) × (W.value w ≡ some t)
          × IsSublist (took ++ t ∷ []) came
          × ((before : List ℕ) → last_of before came ≡ t)
    pub seen :
        W.has_changed w ≡ false → (before : List ℕ) → last_of before took ≡ last_of before came

  send-IsKept :
      (came took : List (List ℕ)) (w : W.Chan) (t : List ℕ)
      → IsKept came took w
      → IsKept (came ++ t ∷ []) took (W.send (some t) w)
  send-IsKept came took w t k = record {
    some_came = IsSublist-trans k.some_came (IsSublist-append came (t ∷ []));
    unseen = λ e. (
      t,
      W.send_value (some t) w,
      IsSublist-snoc t k.some_came,
      λ before. last_of-append before came t,
    );
    seen = λ e. absurd (let fresh = W.send_changed (some t) w in cc);
  }

  borrow_and_update-IsKept :
      (came took : List (List ℕ)) (w : W.Chan)
      → IsKept came took w
      → W.has_changed w ≡ true
      → IsKept came
          (took ++ taken (changed (W.borrow_and_update w).0 ∷ []))
          (W.borrow_and_update w).1
  borrow_and_update-IsKept came took w k fresh =
      let (t, holds, sub, last) = k.unseen fresh in
      let title : (W.borrow_and_update w).0 ≡ some t = W.update_taken w ∙ holds in
      rw title (record {
        some_came = sub;
        unseen = λ e. absurd (let over = W.update_seen w in cc);
        seen = λ e before. last_of-append before took t ∙ sym (last before);
      })

  bus_round-IsKept :
      (brought : List (BusInput G)) (took : List (List ℕ)) (w : W.Chan) (i : BusInput G)
      → is_left brought ≡ false
      → IsKept (titles_before brought) took w
      → IsKept
          (titles_before (brought ++ i ∷ []))
          took
          (bus_round N S M sink gossip to_string topic G W i w)
  unfolding bus_loop process_message
  bus_round-IsKept brought took w i h k =
      subst (λ came. IsKept came took (bus_round N S M sink gossip to_string topic G W i w))
        (sym (titles_before-append G brought i h)) (by_input i)
    where
      came : List (List ℕ)
      came = titles_before brought

      quiet : IsKept (came ++ []) took w
      quiet = rw (append-nil came) k

      by_input :
          (i : BusInput G)
          → IsKept
              (titles_before brought ++ titles_before (i ∷ []))
              took
              (bus_round N S M sink gossip to_string topic G W i w)
      by_input cancelled = quiet
      by_input (bus eos) = quiet
      by_input (bus (error path e debug)) = quiet
      by_input (bus (tag (some title))) = send-IsKept (titles_before brought) took w title k
      by_input (bus (tag none)) = quiet
      by_input (bus MessageView.other) = quiet

  same_titles :
      (came : List (List ℕ)) (inputs more : List Input) (w : W.Chan)
      → IsKept came (taken inputs ++ taken more) w
      → IsKept came (taken (inputs ++ more)) w
  same_titles came inputs more w k =
      subst (λ took. IsKept came took w) (sym (taken-append inputs more)) k

  -- In any run of a streamer's node with its bus loop, which takes titles only from the watch channel: the
  -- titles that `msg_loop` has taken are some of those of the tags that came, in their order, none
  -- twice; and where the channel holds none that is still to be seen, the last one taken is the last
  -- that came.
  pub Watched-IsKept :
      {start : Streamer.Node N S M sink gossip to_string topic} (brought : List (BusInput G))
      (w : W.Chan) (samples : List (Option Sample)) (inputs : List Input)
      (n : Streamer.Node N S M sink gossip to_string topic)
      (r : Streamer.Reach N S M sink gossip to_string topic start samples inputs n)
      → Watched N S M sink gossip to_string topic G W brought w samples inputs n r
      → IsKept (titles_before brought) (taken inputs) w
  Watched-IsKept _ _ _ _ _ _ here = record {
    some_came = nil;
    unseen = λ e. absurd (let seen = W.channel_seen none in cc);
    seen = λ e before. refl;
  }
  Watched-IsKept _ _ _ _ _ _ (bus_read {brought = brought} {w = w} {inputs = inputs} h going i) =
      bus_round-IsKept brought (taken inputs) w i going (Watched-IsKept _ _ _ _ _ _ h)
  Watched-IsKept _ _ _ _ _ _ (titled {brought = brought} {w = w} {inputs = inputs} h fresh idle) =
      same_titles (titles_before brought) inputs _ _ (
        borrow_and_update-IsKept (titles_before brought) (taken inputs) w
          (Watched-IsKept _ _ _ _ _ _ h) fresh)
  Watched-IsKept _ _ _ _ _ _ (sampled h room s) = Watched-IsKept _ _ _ _ _ _ h
  Watched-IsKept _ _ _ _ _ _
        (buffered {brought = brought} {w = w} {inputs = inputs} h idle buf rest took) =
      same_titles (titles_before brought) inputs (buffer buf ∷ []) w (
        subst (λ l. IsKept (titles_before brought) l w) (sym (append-nil (taken inputs)))
          (Watched-IsKept _ _ _ _ _ _ h))
  Watched-IsKept _ _ _ _ _ _ (sent h i holds room) = Watched-IsKept _ _ _ _ _ _ h
  Watched-IsKept _ _ _ _ _ _ (offered h m rest took) = Watched-IsKept _ _ _ _ _ _ h
  Watched-IsKept _ _ _ _ _ _ (network h e) = Watched-IsKept _ _ _ _ _ _ h
