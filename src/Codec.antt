-- ===== src/Codec.antt =====
-- src/p2p/codec.rs: the messages that the streamer publishes over gossipsub, one type byte and the
-- content. `Vec<u8>` is a list of numbers, `String` a list of scalar values (Text.antt).
pub mod RoundTrip
pub mod Wire
mod Tests
use p2pradio.Prelude.{
  ℕ, Option, none, some, List, [], ◌∷◌, ◌++◌, ◌==◌, if◌then◌else◌, Result, ok, err, ◌>>=◌,
}
use p2pradio.Text.{IsText, as_bytes, from_utf8}

pub record Metadata : Type 0 where
  -- stream label
  pub title : List ℕ

pub data Message : Type 0 where
  audio_packet : List ℕ → Message
  metadata : Metadata → Message

pub data DecodeError : Type 0 where
  invalid_message_type : DecodeError

-- Rust's type system keeps a `String` well formed.
abbrev pub IsMessage : Message → Type 0
IsMessage (audio_packet bytes) = Unit
IsMessage (metadata m) = IsText m.title

-- `Metadata::encode_bin`
unfoldable pub encode_bin : Metadata → List ℕ
encode_bin m = [] ++ as_bytes m.title

-- `from_utf8(encoded).map_err(…)`
text_or_invalid : Option (List ℕ) → Result (List ℕ) DecodeError
text_or_invalid none = err invalid_message_type
text_or_invalid (some t) = ok t

-- `Metadata::decode_bin`
unfoldable pub decode_bin : List ℕ → Result Metadata DecodeError
unfolding text_or_invalid
decode_bin encoded = do title ← text_or_invalid (from_utf8 encoded); ok (record { title = title })

-- `Message::encode`
unfoldable pub encode : Message → List ℕ
unfolding encode_bin
encode (audio_packet data_bytes) = ([] ++ 0 ∷ []) ++ data_bytes
encode (metadata m) = ([] ++ 1 ∷ []) ++ encode_bin m

-- `Message::decode`
unfoldable pub decode : List ℕ → Result Message DecodeError
unfolding decode_bin
decode [] = err invalid_message_type
decode (kind ∷ rest) =
    if kind == 0
    then ok (audio_packet rest)
    else if kind == 1
    then (do m ← decode_bin rest; ok (metadata m))
    else err invalid_message_type
