-- ===== src/Channel/Room.antt =====
-- What a task leaves in a channel with a capacity.
use p2pradio.Prelude.{
  ℕ, ◌≤◌, ◌≡◌, ap, sym, false, List, [], ◌∷◌, ◌++◌, ok, append-nil, length, length-append, arith,
}
use p2pradio.Channel.{Mpsc, Bounded, HasRoom}

-- What a task leaves in a channel to which it may have sent: what was there, and then `sent`.
pub record Put {A : Type 0} {M : Mpsc A} {capacity : ℕ} (q : Bounded M capacity) (c c' : M.Chan)
    (sent : List A) : Type 0 where
  pub holds : q.held c' ≡ q.held c ++ sent
  pub open_still : M.is_closed c' ≡ false
  pub fits : length (q.held c') ≤ capacity

module _ {A : Type 0} {M : Mpsc A} {capacity : ℕ} (q : Bounded M capacity) (c : M.Chan)
    (opened : M.is_closed c ≡ false) where
  pub Put-none : length (q.held c) ≤ capacity → Put q c c []
  Put-none fits = record { holds = sym (append-nil _); open_still = opened; fits = fits }

  pub Put-one : HasRoom q c → (a : A) → (c' : M.Chan) × (M.send a c ≡ ok c') × Put q c c' (a ∷ [])
  Put-one room a =
      let (c', sent, log, still) = M.send_open a c opened in
      let holds = q.held_send a c c' sent in
      (
        c',
        sent,
        record {
          holds = holds;
          open_still = still;
          fits = omega (arith, ap length holds, length-append (q.held c) (a ∷ []));
        },
      )
