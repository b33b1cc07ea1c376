-- ===== src/Ogg.antt =====
-- src/backend/ogg_dec.rs: the `new_sample` callback of `create_opus_pipeline`, which caches the Ogg
-- header pages and broadcasts every page. GStreamer hands it the samples: what its calls return is
-- the argument. The header cache is shared with the HTTP server under a mutex, which the callback
-- holds from the cache's update to the broadcast; so one call is one step of the state below.
pub mod Headers
pub mod Runs
use p2pradio.Prelude.{
  ℕ, Bool, true, false, Option, none, some, List, [], ◌∷◌, ◌++◌, if◌then◌else◌, not, Result, ok,
  err, ◌>>=◌,
}
use p2pradio.Channel.{Broadcast}

-- `gst::FlowError`, `gst::FlowSuccess`
pub data FlowError : Type 0 where
  eos error : FlowError

pub data FlowSuccess : Type 0 where
  flow_ok : FlowSuccess

-- `gst::Buffer`: the outer `none` is a failed `map_readable`, the inner a failed `as_slice_of`
pub record Buffer : Type 0 where
  pub content : Option (Option (List ℕ))
  pub header : Bool

-- `gst::Sample`
pub record Sample : Type 0 where
  pub buffer : Option Buffer

abbrev pub Page : Type 0
Page = List ℕ

-- `Option::ok_or`
abbrev pub ok_or {ℓ κ} : {A : Type ℓ} {E : Type κ} → Option A → E → Result A E
ok_or none e = err e
ok_or (some a) e = ok a

-- What the callback reads of a sample, with its error of each step.
unfoldable pub read_sample : Option Sample → Result (Page × Bool) FlowError
read_sample pulled = do
  sample ← ok_or pulled eos
  buffer ← ok_or sample.buffer error
  map_ ← ok_or buffer.content error
  samples ← ok_or map_ error
  ok (samples, buffer.header)

module _ (B : Broadcast Page) where
  open B use {Chan, send}

  -- what the callback owns and shares: the cached headers, `last_was_header`, and the channel
  pub record Muxer : Type 0 where
    pub headers : List Page
    pub last_was_header : Bool
    pub dec_tx : Chan

  -- The part under the lock. A failed broadcast, with no listener, is logged and no more.
  unfoldable pub publish : Page → Bool → Muxer → Muxer
  publish samples is_header m = record {
    headers =
        if is_header
        then (if not m.last_was_header then [] else m.headers) ++ samples ∷ []
        else m.headers;
    last_was_header = is_header;
    dec_tx = (send samples m.dec_tx).0;
  }

  -- the callback: an error leaves the state as it was
  unfoldable pub new_sample : Option Sample → Muxer → Muxer × Result FlowSuccess FlowError
  new_sample pulled m = elim (read_sample pulled) [
    | err e ↦ (m, err e)
    | ok (samples, is_header) ↦ (publish samples is_header m, ok flow_ok)
  ]

  -- the callback on one sample after the other
  unfoldable pub run_samples : List (Option Sample) → Muxer → Muxer
  run_samples [] m = m
  run_samples (s ∷ samples) m = run_samples samples (new_sample s m).0
