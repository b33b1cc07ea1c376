-- ===== src/Network.antt =====
-- libp2p, as src/p2p/swarm.rs uses it: the peer identities, and the state of `gossipsub::Behaviour`
-- behind the calls that the program makes. What those calls do is stated as gossipsub documents it.
pub mod Tables
use p2pradio.Prelude.{
  ℕ, ◌≡◌, ◌↔◌, Bool, true, false, not, ◌&&◌, ◌||◌, Option, List, [], ◌∷◌, ◌++◌, Result, ok, err,
}
use p2pradio.Errors.{Foreign}

pub record Network (F : Foreign) : Type 1 where
  pub PeerId : Type 0
  pub peer_eq : PeerId → PeerId → Bool
  pub peer_eq_iff : (p q : PeerId) → (peer_eq p q ≡ true) ↔ (p ≡ q)
  pub Multiaddr : Type 0
  pub Topic : Type 0
  pub MessageId : Type 0
  pub Gossip : Type 0
  pub add_explicit_peer : PeerId → Gossip → Gossip
  pub remove_explicit_peer : PeerId → Gossip → Gossip
  pub blacklist_peer : PeerId → Gossip → Gossip
  -- `false` where the topic was subscribed before
  pub subscribe : Topic → Gossip → Gossip × Result Bool F.SubscriptionError
  pub publish : Topic → List ℕ → Gossip → Gossip × Result MessageId F.PublishError
  -- What can be observed: the two sets of peers, and the data published.
  pub is_explicit : Gossip → PeerId → Bool
  pub is_blacklisted : Gossip → PeerId → Bool
  pub published : Gossip → List (List ℕ)
  pub explicit-add :
      (p : PeerId) (g : Gossip) (q : PeerId)
      → is_explicit (add_explicit_peer p g) q ≡ (peer_eq p q || is_explicit g q)
  pub blacklisted-add :
      (p : PeerId) (g : Gossip) (q : PeerId)
      → is_blacklisted (add_explicit_peer p g) q ≡ is_blacklisted g q
  pub explicit-remove :
      (p : PeerId) (g : Gossip) (q : PeerId)
      → is_explicit (remove_explicit_peer p g) q ≡ (not (peer_eq p q) && is_explicit g q)
  pub blacklisted-remove :
      (p : PeerId) (g : Gossip) (q : PeerId)
      → is_blacklisted (remove_explicit_peer p g) q ≡ is_blacklisted g q
  pub explicit-blacklist :
      (p : PeerId) (g : Gossip) (q : PeerId) → is_explicit (blacklist_peer p g) q ≡ is_explicit g q
  pub blacklisted-blacklist :
      (p : PeerId) (g : Gossip) (q : PeerId)
      → is_blacklisted (blacklist_peer p g) q ≡ (peer_eq p q || is_blacklisted g q)
  pub published-add : (p : PeerId) (g : Gossip) → published (add_explicit_peer p g) ≡ published g
  pub published-remove :
      (p : PeerId) (g : Gossip) → published (remove_explicit_peer p g) ≡ published g
  pub explicit-publish :
      (t : Topic) (bytes : List ℕ) (g : Gossip) (q : PeerId)
      → is_explicit (publish t bytes g).0 q ≡ is_explicit g q
  pub publish_ok :
      (t : Topic) (bytes : List ℕ) (g : Gossip) (i : MessageId)
      → (publish t bytes g).1 ≡ ok i
      → published (publish t bytes g).0 ≡ published g ++ bytes ∷ []
  pub publish_err :
      (t : Topic) (bytes : List ℕ) (g : Gossip) (e : F.PublishError)
      → (publish t bytes g).1 ≡ err e
      → published (publish t bytes g).0 ≡ published g
