-- ===== src/Channel/Logs.antt =====
-- Channels kept as the log of all that was sent: the interfaces of Channel.antt can be met.
use p2pradio.Prelude.{
  ℕ, suc, zero, ◌≤◌, ◌≡◌, refl, Bool, true, false, Option, none, some, List, [], ◌∷◌, ◌++◌, length,
  drop, Result, ok, err, arith, length-append,
}
use p2pradio.Channel.{Mpsc, Broadcast, Watch}

abbrev pub LogChan : Type 0 → Type 0
LogChan A = List A × Bool

abbrev pub log_send : {A : Type 0} → A → LogChan A → Result (LogChan A) A
log_send a (log, true) = err a
log_send a (log, false) = ok (log ++ a ∷ [], false)

pub log_send_open :
    {A : Type 0} (a : A) (c : LogChan A)
    → c.1 ≡ false
    → (c' : LogChan A) × (log_send a c ≡ ok c') × (c'.0 ≡ c.0 ++ a ∷ []) × (c'.1 ≡ false)
log_send_open a (log, false) e = ((log ++ a ∷ [], false), refl, refl, refl)
log_send_open a (log, true) e = cc

pub log_send_closed : {A : Type 0} (a : A) (c : LogChan A) → c.1 ≡ true → log_send a c ≡ err a
log_send_closed a (log, true) e = refl
log_send_closed a (log, false) e = cc

abbrev pub log_mpsc : (A : Type 0) → Mpsc A
log_mpsc A = record {
  Chan = LogChan A;
  send = log_send;
  sent = λ c. c.0;
  is_closed = λ c. c.1;
  send_open = log_send_open;
  send_closed = log_send_closed;
}

pub drop-append :
    {A : Type 0} (n : ℕ) (xs ys : List A) → n ≤ length xs → drop n (xs ++ ys) ≡ drop n xs ++ ys
drop-append zero xs ys h = refl
drop-append (suc n) [] ys h = absurd (omega arith)
drop-append (suc n) (x ∷ xs) ys h = drop-append n xs ys (omega arith)

pub drop-length : {A : Type 0} (xs : List A) → drop (length xs) xs ≡ []
drop-length [] = refl
drop-length (x ∷ xs) = drop-length xs

abbrev pub log_next : {A : Type 0} → ℕ → List A → Option (Result A ℕ × ℕ)
log_next r [] = none
log_next r (a ∷ rest) = some (ok a, suc r)

drop_next :
    {A : Type 0} (r : ℕ) (c : List A) (a : A) (rest : List A)
    → drop r c ≡ a ∷ rest
    → (suc r ≤ length c) × (drop (suc r) c ≡ rest)
drop_next zero [] a rest e = cc
drop_next zero (x ∷ c) a rest e = (omega arith, ground arith)
drop_next (suc r) [] a rest e = cc
drop_next (suc r) (x ∷ c) a rest e = let h = drop_next r c a rest e in (omega (arith, h.0), h.1)

pub log_recv_next :
    {A : Type 0} (c : List A) (r : ℕ) (a : A) (rest : List A)
    → r ≤ length c
    → drop r c ≡ a ∷ rest
    → (r' : ℕ) × (log_next r (drop r c) ≡ some (ok a, r')) × (r' ≤ length c) × (drop r' c ≡ rest)
log_recv_next c r a rest h e = let n = drop_next r c a rest e in (suc r, rw e, n.0, n.1)

abbrev pub log_broadcast : (A : Type 0) → ℕ → Broadcast A
log_broadcast A capacity = record {
  Chan = List A;
  Receiver = ℕ;
  capacity = capacity;
  send = λ a c. (c ++ a ∷ [], true);
  subscribe = λ c. (c, length c);
  recv = λ c r. log_next r (drop r c);
  unread = λ c r. drop r c;
  IsLive = λ c r. r ≤ length c;
  subscribe_live = λ c. omega arith;
  subscribe_unread = drop-length;
  send_live = λ a c r h. omega (arith, length-append c (a ∷ []));
  send_unread = λ a c r h _. drop-append r c (a ∷ []) h;
  recv_empty = λ c r e. rw e;
  recv_next = log_recv_next;
}

-- a value, and whether the receiver has still to see it
abbrev pub flag_watch : (A : Type 0) → Watch A
flag_watch A = record {
  Chan = A × Bool;
  channel = λ a. (a, false);
  send = λ a c. (a, true);
  has_changed = λ c. c.1;
  borrow_and_update = λ c. (c.0, (c.0, false));
  value = λ c. c.0;
  channel_value = λ a. refl;
  channel_seen = λ a. refl;
  send_value = λ a c. refl;
  send_changed = λ a c. refl;
  update_taken = λ c. refl;
  update_value = λ c. refl;
  update_seen = λ c. refl;
}
