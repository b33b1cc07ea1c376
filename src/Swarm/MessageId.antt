-- ===== src/Swarm/MessageId.antt =====
-- `message_id` of src/p2p/swarm.rs.
use p2pradio.Prelude.{
  ℕ, ◌+◌, ◌*◌, ◌^◌, ◌<◌, ◌≡◌, ◌↔◌, refl, ap, sym, ◌∙◌, Option, none, some, List, [], ◌∷◌, arith,
}
use p2pradio.Errors.{Foreign}
use p2pradio.Network.{Network}
use p2pradio.Swarm.{to_be_bytes, GossipMessage, message_id}

-- `u64::from_be_bytes`
from_be_bytes : ℕ → List ℕ → ℕ
from_be_bytes acc [] = acc
from_be_bytes acc (b ∷ bytes) = from_be_bytes (acc * 256 + b) bytes

from-to_be_bytes : (n : ℕ) → n < 2 ^ 64 → from_be_bytes 0 (to_be_bytes n) ≡ n
unfolding from_be_bytes
from-to_be_bytes n h = omega arith

abbrev IsU64 : Option ℕ → Type 0
IsU64 none = Unit
IsU64 (some n) = n < 2 ^ 64

abbrev id_of : Option ℕ → List ℕ
id_of none = []
id_of (some n) = to_be_bytes n

id_of-injective : (a b : Option ℕ) → IsU64 a → IsU64 b → id_of a ≡ id_of b → a ≡ b
id_of-injective none none ha hb e = refl
id_of-injective none (some b) ha hb e = cc
id_of-injective (some a) none ha hb e = cc
id_of-injective (some a) (some b) ha hb e =
    ap some (sym (from-to_be_bytes a ha) ∙ ap (from_be_bytes 0) e ∙ from-to_be_bytes b hb)

module _ {F : Foreign} (N : Network F) where
  message_id-id_of : (m : GossipMessage N) → message_id N m ≡ id_of m.sequence_number
  unfolding message_id
  message_id-id_of m = ground (arith)

  -- For 64-bit sequence numbers, two messages have one id exactly when they have the same sequence
  -- number, or both have none: the author does not count.
  pub message_id-injective :
      (m n : GossipMessage N)
      → IsU64 m.sequence_number
      → IsU64 n.sequence_number
      → (message_id N m ≡ message_id N n) ↔ (m.sequence_number ≡ n.sequence_number)
  message_id-injective m n hm hn = (
    λ e. id_of-injective _ _ hm hn (sym (message_id-id_of m) ∙ e ∙ message_id-id_of n),
    λ e. message_id-id_of m ∙ ap id_of e ∙ sym (message_id-id_of n),
  )
