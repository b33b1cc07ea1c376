-- ===== src/Pipeline.antt =====
-- The pipeline of the encoding backend: how the `pad-added` handlers of `create_icecast_pipeline` in
-- src/backend/icecast_ogg.rs link its elements while it plays.
mod Links
pub mod Pads
pub mod Making
mod Tests
use mathlib.Core.Option
use p2pradio.Prelude.{
  ◌≡◌, ◌≢◌, Bool, true, false, not, Option, none, some, List, [], ◌∷◌, ◌++◌, if◌then◌else◌, Result,
  ok, err,
}

-- GStreamer's links between pads. `peer` is the other end of a pad's link.
pub record Linking : Type 1 where
  pub Pad : Type 0
  pub Graph : Type 0
  pub PadLinkError : Type 0
  pub UnlinkError : Type 0
  pub is_src : Pad → Bool
  pub peer : Pad → Graph → Option Pad
  pub is_linked : Pad → Graph → Bool
  -- the source pad first
  pub link : Pad → Pad → Graph → Graph × Result (Unit {0}) PadLinkError
  pub unlink : Pad → Pad → Graph → Graph × Result (Unit {0}) UnlinkError
  -- A pad is linked exactly when it has a peer, and a link joins a source pad and a sink pad.
  pub linked_peer : (p q : Pad) (g : Graph) → peer p g ≡ some q → is_linked p g ≡ true
  pub unlinked_peer : (p : Pad) (g : Graph) → peer p g ≡ none → is_linked p g ≡ false
  pub peer_src : (p q : Pad) (g : Graph) → is_src p ≡ false → peer p g ≡ some q → is_src q ≡ true
  -- Linking joins two pads and no others, or fails and does nothing.
  pub link_ok :
      (src sink : Pad) (g : Graph) (u : Unit {0})
      → (link src sink g).1 ≡ ok u
      → peer sink (link src sink g).0 ≡ some src
  pub link_other :
      (src sink p : Pad) (g : Graph) → p ≢ src → p ≢ sink → peer p (link src sink g).0 ≡ peer p g
  pub link_err :
      (src sink : Pad) (g : Graph) (e : PadLinkError)
      → (link src sink g).1 ≡ err e
      → (link src sink g).0 ≡ g
  -- Unlinking a pad from its peer parts these two and no others.
  pub unlink_peer :
      (src sink : Pad) (g : Graph) → peer sink g ≡ some src → peer sink (unlink src sink g).0 ≡ none
  pub unlink_other :
      (src sink p : Pad) (g : Graph) → p ≢ src → p ≢ sink → peer p (unlink src sink g).0 ≡ peer p g

module _ (L : Linking) where
  open L use {Pad, Graph, PadLinkError, peer, is_linked, link, unlink}

  -- Both handlers get the sink pad of the next element: `none` where that element is gone, and
  -- `some none` where it has no such pad. The result `none` is the panic of `expect`.

  -- the handler of urisourcebin
  unfoldable pub uri_pad_added : Option (Option Pad) → Pad → Graph → Option Graph
  uri_pad_added none src_pad g = some g
  uri_pad_added (some none) src_pad g = none
  uri_pad_added (some (some sink_pad)) src_pad g =
      some (if not (is_linked sink_pad g) then (link src_pad sink_pad g).0 else g)

  unfoldable pub unlink_old : Pad → Graph → Graph
  unlink_old sink_pad g =
      if is_linked sink_pad g
      then (elim (peer sink_pad g) [ none ↦ g | some old_peer ↦ (unlink old_peer sink_pad g).0 ])
      else g

  -- what `element_error!` posts on the bus, if the link fails
  abbrev posted : Result (Unit {0}) PadLinkError → List PadLinkError
  posted (ok u) = []
  posted (err e) = e ∷ []

  -- the handler of parsebin, with the errors that it posts
  unfoldable pub parse_pad_added :
      Option (Option Pad) → Pad → Graph → Option (Graph × List PadLinkError)
  unfolding unlink_old
  parse_pad_added none src_pad g = some (g, [])
  parse_pad_added (some none) src_pad g = none
  parse_pad_added (some (some sink_pad)) src_pad g =
      let (g', result) = link src_pad sink_pad (unlink_old sink_pad g) in some (g', posted result)

  -- a pad that urisourcebin or parsebin has added
  pub data PadAdded : Type 0 where
    uri_pad parse_pad : Pad → PadAdded

  module _ (parsebin rtpopuspay : Option (Option Pad)) where
    unfoldable pub pad_added : PadAdded → Graph → Option (Graph × List PadLinkError)
    unfolding uri_pad_added parse_pad_added
    pad_added (uri_pad src_pad) g = Option.map (λ g'. (g', [])) (uri_pad_added parsebin src_pad g)
    pad_added (parse_pad src_pad) g = parse_pad_added rtpopuspay src_pad g

    -- the pads of a run of the pipeline, in the order in which they come, and all the errors
    unfoldable pub pads_added : List PadAdded → Graph → Option (Graph × List PadLinkError)
    pads_added [] g = some (g, [])
    pads_added (e ∷ es) g = elim (pad_added e g) [
      | none ↦ none
      | some (g', errors) ↦ Option.map (λ r. (r.0, errors ++ r.1)) (pads_added es g')
    ]
