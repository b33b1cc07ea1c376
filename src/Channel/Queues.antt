-- ===== src/Channel/Queues.antt =====
-- A channel that keeps what waits in it: the two ends of Channel.antt can be met together.
use p2pradio.Prelude.{
  arith, ℕ, ◌≡◌, refl, Bool, true, false, Option, none, some, List, [], ◌∷◌, ◌++◌, Result, ok, err,
}
use p2pradio.Channel.{Mpsc, Bounded}

pub record Queue (A : Type 0) : Type 0 where
  pub log : List A
  pub waiting : List A
  pub closed : Bool

abbrev pub empty : {A : Type 0} → Queue A
empty = record { log = []; waiting = []; closed = false }

abbrev queue_put : {A : Type 0} → Bool → A → Queue A → Result (Queue A) A
queue_put true a c = err a
queue_put false a c = ok (record c { log = c.log ++ a ∷ []; waiting = c.waiting ++ a ∷ [] })

abbrev pub queue_send : {A : Type 0} → A → Queue A → Result (Queue A) A
queue_send a c = queue_put c.closed a c

abbrev queue_take : {A : Type 0} → List A → Queue A → Option (A × Queue A)
queue_take [] c = none
queue_take (a ∷ rest) c = some (a, record c { waiting = rest })

abbrev pub queue_recv : {A : Type 0} → Queue A → Option (A × Queue A)
queue_recv c = queue_take c.waiting c

pub queue_send_open :
    {A : Type 0} (a : A) (c : Queue A)
    → c.closed ≡ false
    → (c' : Queue A) × (queue_send a c ≡ ok c') × (c'.log ≡ c.log ++ a ∷ []) × (c'.closed ≡ false)
queue_send_open a c h =
    (record c { log = c.log ++ a ∷ []; waiting = c.waiting ++ a ∷ [] }, rw h refl, refl, h)

pub queue_send_closed :
    {A : Type 0} (a : A) (c : Queue A) → c.closed ≡ true → queue_send a c ≡ err a
queue_send_closed a c h = rw h refl

abbrev pub queue_mpsc : (A : Type 0) → Mpsc A
queue_mpsc A = record {
  Chan = Queue A;
  send = queue_send;
  sent = λ c. c.log;
  is_closed = λ c. c.closed;
  send_open = queue_send_open;
  send_closed = queue_send_closed;
}

queue_put-ok :
    {A : Type 0} (closed : Bool) (a : A) (c c' : Queue A)
    → queue_put closed a c ≡ ok c'
    → c'.waiting ≡ c.waiting ++ a ∷ []
queue_put-ok true a c c' h = cc
queue_put-ok false a c c' h = ground arith

queue_take-some :
    {A : Type 0} (waiting : List A) (c c' : Queue A) (a : A)
    → queue_take waiting c ≡ some (a, c')
    → (waiting ≡ a ∷ c'.waiting) × (c'.closed ≡ c.closed)
queue_take-some [] c c' a h = cc
queue_take-some (x ∷ rest) c c' a h = ground arith

pub queue_held_send :
    {A : Type 0} (a : A) (c c' : Queue A)
    → queue_send a c ≡ ok c'
    → c'.waiting ≡ c.waiting ++ a ∷ []
queue_held_send a c c' h = queue_put-ok c.closed a c c' h

pub queue_recv_next :
    {A : Type 0} (c c' : Queue A) (a : A)
    → queue_recv c ≡ some (a, c')
    → (c.waiting ≡ a ∷ c'.waiting) × (c'.closed ≡ c.closed)
queue_recv_next c c' a h = queue_take-some c.waiting c c' a h

pub queue_recv_ready :
    {A : Type 0} (c : Queue A) (a : A) (rest : List A)
    → c.waiting ≡ a ∷ rest
    → (c' : Queue A) × (queue_recv c ≡ some (a, c'))
queue_recv_ready c a rest e = (record c { waiting = rest }, rw e refl)

abbrev pub queue_bounded : (A : Type 0) (capacity : ℕ) → Bounded (queue_mpsc A) capacity
queue_bounded A capacity = record {
  held = λ c. c.waiting;
  recv = queue_recv;
  held_send = queue_held_send;
  recv_next = queue_recv_next;
  recv_ready = queue_recv_ready;
}
