-- ===== src/Channel.antt =====
-- The channels of tokio, which the program uses and does not implement, as interfaces: what its code
-- calls, and of the documented behaviour what the theorems rely on. A `send` that has to wait for
-- room is one step, taken when there is room.
pub mod Logs
pub mod Queues
pub mod Room
use p2pradio.Prelude.{
  ℕ, ◌+◌, ◌<◌, ◌≡◌, Bool, true, false, Option, none, some, List, [], ◌∷◌, ◌++◌, length, Result, ok,
  err,
}

-- tokio::sync::mpsc: `sent` is all that the channel has accepted, in order.
pub record Mpsc (A : Type 0) : Type 1 where
  pub Chan : Type 0
  pub send : A → Chan → Result Chan A
  pub sent : Chan → List A
  pub is_closed : Chan → Bool
  -- An open channel accepts the value behind those before it, and stays open meanwhile.
  pub send_open :
      (a : A) (c : Chan)
      → is_closed c ≡ false
      → (c' : Chan) × (send a c ≡ ok c') × (sent c' ≡ sent c ++ a ∷ []) × (is_closed c' ≡ false)
  -- A channel whose receiver is gone hands the value back.
  pub send_closed : (a : A) (c : Chan) → is_closed c ≡ true → send a c ≡ err a

-- The receiving end of a channel of tokio::sync::mpsc or of flume that was made with a capacity:
-- `held` is what was sent and has not been received.
pub record Bounded {A : Type 0} (M : Mpsc A) (capacity : ℕ) : Type 0 where
  pub held : M.Chan → List A
  pub recv : M.Chan → Option (A × M.Chan)
  pub held_send : (a : A) (c c' : M.Chan) → M.send a c ≡ ok c' → held c' ≡ held c ++ a ∷ []
  -- It is received in the order in which it was sent.
  pub recv_next :
      (c c' : M.Chan) (a : A)
      → recv c ≡ some (a, c')
      → (held c ≡ a ∷ held c') × (M.is_closed c' ≡ M.is_closed c)
  -- What waits can be received.
  pub recv_ready :
      (c : M.Chan) (a : A) (rest : List A)
      → held c ≡ a ∷ rest
      → (c' : M.Chan) × (recv c ≡ some (a, c'))

-- A `send` completes only while there is room.
abbrev pub HasRoom : {A : Type 0} {M : Mpsc A} {capacity : ℕ} → Bounded M capacity → M.Chan → Type 0
HasRoom {capacity} q c = length (q.held c) < capacity

-- tokio::sync::watch with one receiver: it keeps the last value only, and the receiver is told once of a
-- value that it has not seen.
pub record Watch (A : Type 0) : Type 1 where
  pub Chan : Type 0
  pub channel : A → Chan
  pub send : A → Chan → Chan
  -- whether `changed` is ready
  pub has_changed : Chan → Bool
  pub borrow_and_update : Chan → A × Chan
  pub value : Chan → A
  pub channel_value : (a : A) → value (channel a) ≡ a
  pub channel_seen : (a : A) → has_changed (channel a) ≡ false
  pub send_value : (a : A) (c : Chan) → value (send a c) ≡ a
  pub send_changed : (a : A) (c : Chan) → has_changed (send a c) ≡ true
  pub update_taken : (c : Chan) → (borrow_and_update c).0 ≡ value c
  pub update_value : (c : Chan) → value (borrow_and_update c).1 ≡ value c
  pub update_seen : (c : Chan) → has_changed (borrow_and_update c).1 ≡ false

-- tokio::sync::broadcast: `unread` is what a receiver has still to read.
pub record Broadcast (A : Type 0) : Type 1 where
  pub Chan : Type 0
  pub Receiver : Type 0
  pub capacity : ℕ
  -- `false` where the channel has no receiver
  pub send : A → Chan → Chan × Bool
  pub subscribe : Chan → Chan × Receiver
  -- `none` while there is nothing to read; an error is the number of values that the receiver lost
  pub recv : Chan → Receiver → Option (Result A ℕ × Receiver)
  pub unread : Chan → Receiver → List A
  pub IsLive : Chan → Receiver → Type 0
  -- A new receiver sees nothing of what was sent before.
  pub subscribe_live : (c : Chan) → IsLive (subscribe c).0 (subscribe c).1
  pub subscribe_unread : (c : Chan) → unread (subscribe c).0 (subscribe c).1 ≡ []
  -- Each value sent later reaches it, unless it lags by the capacity.
  pub send_live : (a : A) (c : Chan) (r : Receiver) → IsLive c r → IsLive (send a c).0 r
  pub send_unread :
      (a : A) (c : Chan) (r : Receiver)
      → IsLive c r
      → length (unread c r) < capacity
      → unread (send a c).0 r ≡ unread c r ++ a ∷ []
  -- It reads them in the order in which they were sent.
  pub recv_empty : (c : Chan) (r : Receiver) → unread c r ≡ [] → recv c r ≡ none
  pub recv_next :
      (c : Chan) (r : Receiver) (a : A) (rest : List A)
      → IsLive c r
      → unread c r ≡ a ∷ rest
      → (r' : Receiver) × (recv c r ≡ some (ok a, r')) × IsLive c r' × (unread c r' ≡ rest)
