-- ===== src/Pipeline/Tests.antt =====
-- The handlers of Pipeline.antt over a graph that is a function from pads to their peers: the interface
-- of Linking can be met.
use mathlib.Core.Option
use p2pradio.Prelude.{
  ℕ, ◌≡◌, ◌≢◌, refl, ap, Bool, true, false, Option, none, some, List, [], ◌∷◌, if◌then◌else◌,
  Result, ok, err, ltb, ◌==◌, arith,
}
use p2pradio.Pipeline.{
  Linking, PadAdded, uri_pad, parse_pad, pads_added, pad_added, uri_pad_added, parse_pad_added,
  unlink_old,
}
use p2pradio.Pipeline.Pads.{First, Last, pads_added_lem}

pub data Pad : Type 0 where
  source sink : ℕ → Pad

-- which source a sink has; a link from a source above 9 fails
abbrev Graph : Type 0
Graph = ℕ → Option ℕ

abbrev source_of : Option ℕ → Option Pad
source_of none = none
source_of (some n) = some (source n)

abbrev peer_of : Pad → Graph → Option Pad
peer_of (source n) g = none
peer_of (sink n) g = source_of (g n)

abbrev is_some : Option Pad → Bool
is_some none = false
is_some (some p) = true

abbrev set : ℕ → Option ℕ → Graph → Graph
set n v g = λ m. if m == n then v else g m

abbrev join : Pad → Pad → Graph → Graph × Result (Unit {0}) ℕ
join (source s) (sink k) g = if ltb s 10 then (set k (some s) g, ok tt) else (g, err s)
join p q g = (g, err 0)

abbrev part : Pad → Pad → Graph → Graph × Result (Unit {0}) ℕ
part p (sink k) g = (set k none g, ok tt)
part p (source s) g = (g, err 0)

linked_peer_lem : (p q : Pad) (g : Graph) → peer_of p g ≡ some q → is_some (peer_of p g) ≡ true
linked_peer_lem p q g e = rw e refl

unlinked_peer_lem : (p : Pad) (g : Graph) → peer_of p g ≡ none → is_some (peer_of p g) ≡ false
unlinked_peer_lem p g e = rw e refl

abbrev is_source : Pad → Bool
is_source (source n) = true
is_source (sink n) = false

source_of_lem : (o : Option ℕ) (q : Pad) → source_of o ≡ some q → is_source q ≡ true
source_of_lem none q e = cc
source_of_lem (some n) (source m) e = refl
source_of_lem (some n) (sink m) e = cc

peer_src_lem :
    (p q : Pad) (g : Graph) → is_source p ≡ false → peer_of p g ≡ some q → is_source q ≡ true
peer_src_lem (source n) q g t e = cc
peer_src_lem (sink n) q g t e = source_of_lem (g n) q e

join_ok_lem :
    (p q : Pad) (g : Graph) (u : Unit {0})
    → (join p q g).1 ≡ ok u
    → peer_of q (join p q g).0 ≡ some p
join_ok_lem (source s) (sink k) g u e = ground arith
join_ok_lem (source s) (source k) g u e = cc
join_ok_lem (sink s) q g u e = cc

join_other_lem : (p q r : Pad) (g : Graph) → r ≢ p → r ≢ q → peer_of r (join p q g).0 ≡ peer_of r g
join_other_lem (source s) (sink k) (sink m) g h other =
    let apart : m ≢ k = λ e. other (ap sink e) in ground arith
join_other_lem (source s) (sink k) (source m) g h other = refl
join_other_lem (source s) (source k) r g h other = refl
join_other_lem (sink s) q r g h other = refl

join_err_lem : (p q : Pad) (g : Graph) (e : ℕ) → (join p q g).1 ≡ err e → (join p q g).0 ≡ g
join_err_lem (source s) (sink k) g e h = ground arith
join_err_lem (source s) (source k) g e h = refl
join_err_lem (sink s) q g e h = refl

part_peer_lem : (p q : Pad) (g : Graph) → peer_of q g ≡ some p → peer_of q (part p q g).0 ≡ none
part_peer_lem p (sink k) g e = ground arith
part_peer_lem p (source s) g e = cc

part_other_lem : (p q r : Pad) (g : Graph) → r ≢ p → r ≢ q → peer_of r (part p q g).0 ≡ peer_of r g
part_other_lem p (sink k) (sink m) g h other =
    let apart : m ≢ k = λ e. other (ap sink e) in ground arith
part_other_lem p (sink k) (source m) g h other = refl
part_other_lem p (source s) r g h other = refl

abbrev pads : Linking
pads = record {
  Pad = Pad;
  Graph = Graph;
  PadLinkError = ℕ;
  UnlinkError = ℕ;
  is_src = is_source;
  peer = peer_of;
  is_linked = λ p g. is_some (peer_of p g);
  link = join;
  unlink = part;
  linked_peer = linked_peer_lem;
  unlinked_peer = unlinked_peer_lem;
  peer_src = peer_src_lem;
  link_ok = join_ok_lem;
  link_other = join_other_lem;
  link_err = join_err_lem;
  unlink_peer = part_peer_lem;
  unlink_other = part_other_lem;
}

-- the first pad of urisourcebin cannot be linked; parsebin's second pad takes the place of its first
abbrev added : List (PadAdded pads)
added =
    uri_pad (source 12)
    ∷ uri_pad (source 2)
    ∷ parse_pad (source 3)
    ∷ uri_pad (source 4)
    ∷ parse_pad (source 5)
    ∷ []

abbrev nothing : Graph
nothing n = none

after_added :
    Option.map {B = Option Pad × Option Pad × List ℕ}
      (λ r. (peer_of (sink 0) r.0, peer_of (sink 1) r.0, r.1))
      (pads_added pads (some (some (sink 0))) (some (some (sink 1))) added nothing)
    ≡ some (some (source 2), some (source 5), [])
unfolding pads_added pad_added uri_pad_added parse_pad_added unlink_old
after_added = refl

two_sinks : sink 0 ≢ sink 1
two_sinks e = cc

pads_added_lem_example :
    (g' : Graph) × (errors : List ℕ) × (pads_added pads
        (some (some (sink 0)))
        (some (some (sink 1)))
        added
        nothing
      ≡ some (g', errors))
    × First pads (sink 0) (sink 1) refl refl two_sinks added nothing g'
    × Last pads (sink 0) (sink 1) refl refl two_sinks added nothing g' errors
pads_added_lem_example =
    pads_added_lem pads (sink 0) (sink 1) refl refl two_sinks added nothing
      (refl, (refl, (refl, (refl, (refl, tt)))))
