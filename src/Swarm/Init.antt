-- ===== src/Swarm/Init.antt =====
-- The start of either node's swarm: `init_swarm` and `tune_in` of src/p2p/swarm.rs.
use Prim.Native.String.{String}
use p2pradio.Prelude.{◌≡◌, ◌⊎◌, inl, inr, refl, true, false, Result, Result-cases, ok, err}
use p2pradio.Errors.{Foreign, AppError, subscription_error, already_subscribed}
use p2pradio.Network.{Network}
use p2pradio.Swarm.{Swarm, tune_in, init_swarm}

module _ {F : Foreign} (N : Network F) (built : Result (Swarm N) F.BehaviourBuilderError)
    (listening : Result (Unit {0}) String) (topic : N.Topic) where
  -- the first step that fails, and its error
  pub data InitFails : AppError F → Type 0 where
    build_failed :
        (x : F.BehaviourBuilderError) → built ≡ err x → InitFails (AppError.behaviour_builder x)
    listen_failed :
        (s : Swarm N) (text : String)
        → built ≡ ok s
        → listening ≡ err text
        → InitFails (AppError.other text)
    subscribe_failed :
        (s : Swarm N) (x : F.SubscriptionError)
        → built ≡ ok s
        → listening ≡ ok tt
        → (N.subscribe topic s.gossipsub).1 ≡ err x
        → InitFails (AppError.gossip_error (subscription_error x))
    subscribed_before :
        (s : Swarm N)
        → built ≡ ok s
        → listening ≡ ok tt
        → (N.subscribe topic s.gossipsub).1 ≡ ok false
        → InitFails (AppError.gossip_error already_subscribed)

  -- The swarm starts with the topic newly subscribed where it can be built and can listen;
  -- otherwise the error is that of the first step that fails, and a topic that was subscribed before
  -- is an error.
  pub init_swarm_lem :
      ((s : Swarm N) × (built ≡ ok s)
        × (listening ≡ ok tt)
        × ((N.subscribe topic s.gossipsub).1 ≡ ok true)
        × (init_swarm N built listening topic
            ≡ ok (record s { gossipsub = (N.subscribe topic s.gossipsub).0 })))
      ⊎ ((e : AppError F) × InitFails e × (init_swarm N built listening topic ≡ err e))
  unfolding init_swarm tune_in
  init_swarm_lem = elim (Result-cases built) [
    | inr (x, p) ↦ inr (_, build_failed x p, rw (p, init_swarm) refl)
    | inl (s, p) ↦ elim (Result-cases listening) [
      | inr (text, q) ↦
          inr (_, listen_failed s text p q, rw (p, init_swarm) (rw (q, init_swarm) refl))
      | inl (u, q) ↦ elim (Result-cases (N.subscribe topic s.gossipsub).1) [
        | inr (x, r) ↦ inr (
          _,
          subscribe_failed s x p q r,
          rw (p, init_swarm) (rw (q, init_swarm) (rw (r, init_swarm, tune_in) refl)),
        )
        | inl (false, r) ↦ inr (
          _,
          subscribed_before s p q r,
          rw (p, init_swarm) (rw (q, init_swarm) (rw (r, init_swarm, tune_in) refl)),
        )
        | inl (true, r) ↦
            inl (
              s,
              p,
              q,
              r,
              rw (p, init_swarm) (rw (q, init_swarm) (rw (r, init_swarm, tune_in) refl)),
            )
      ]
    ]
  ]
