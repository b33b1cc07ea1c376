-- ===== src/Network/Tables.antt =====
-- A network whose state is two sets of peers and a log: the interface of Network.antt can be met.
-- Peers and topics are numbers, and publishing fails on empty data.
use Prim.Native.String.{String}
use p2pradio.Prelude.{
  ℕ, ◌≡◌, refl, Bool, true, not, ◌&&◌, ◌||◌, List, [], ◌∷◌, ◌++◌, Result, ok, err, ◌==◌, ==_iff,
  length,
}
use p2pradio.Errors.{Foreign}
use p2pradio.Network.{Network}

abbrev pub texts : Foreign
texts = record {
  IoError = ℕ;
  RegisterMethodError = ℕ;
  PublishError = ℕ;
  SubscriptionError = ℕ;
  JoinError = ℕ;
  BehaviourBuilderError = ℕ;
  AnyhowError = String;
  new_anyhow = λ text. text;
}

pub record Table : Type 0 where
  pub explicit : ℕ → Bool
  pub blacklisted : ℕ → Bool
  pub log : List (List ℕ)

abbrev pub table_publish : ℕ → List ℕ → Table → Table × Result ℕ ℕ
table_publish topic [] t = (t, err 0)
table_publish topic (b ∷ bytes) t =
    (record t { log = t.log ++ (b ∷ bytes) ∷ [] }, ok (length t.log))

pub table_publish_ok :
    (topic : ℕ) (bytes : List ℕ) (t : Table) (i : ℕ)
    → (table_publish topic bytes t).1 ≡ ok i
    → (table_publish topic bytes t).0.log ≡ t.log ++ bytes ∷ []
table_publish_ok topic [] t i e = cc
table_publish_ok topic (b ∷ bytes) t i e = refl

pub table_publish_err :
    (topic : ℕ) (bytes : List ℕ) (t : Table) (x : ℕ)
    → (table_publish topic bytes t).1 ≡ err x
    → (table_publish topic bytes t).0.log ≡ t.log
table_publish_err topic [] t x e = refl
table_publish_err topic (b ∷ bytes) t x e = cc

pub table_publish-explicit :
    (topic : ℕ) (bytes : List ℕ) (t : Table) (q : ℕ)
    → (table_publish topic bytes t).0.explicit q ≡ t.explicit q
table_publish-explicit topic [] t q = refl
table_publish-explicit topic (b ∷ bytes) t q = refl

abbrev pub tables : Network texts
tables = record {
  PeerId = ℕ;
  peer_eq = ◌==◌;
  peer_eq_iff = ==_iff;
  Multiaddr = ℕ;
  Topic = ℕ;
  MessageId = ℕ;
  Gossip = Table;
  add_explicit_peer = λ p t. record t { explicit = λ q. p == q || t.explicit q };
  remove_explicit_peer = λ p t. record t { explicit = λ q. not (p == q) && t.explicit q };
  blacklist_peer = λ p t. record t { blacklisted = λ q. p == q || t.blacklisted q };
  subscribe = λ topic t. (t, ok true);
  publish = table_publish;
  is_explicit = λ t. t.explicit;
  is_blacklisted = λ t. t.blacklisted;
  published = λ t. t.log;
  explicit-add = λ p t q. refl;
  blacklisted-add = λ p t q. refl;
  explicit-remove = λ p t q. refl;
  blacklisted-remove = λ p t q. refl;
  explicit-blacklist = λ p t q. refl;
  blacklisted-blacklist = λ p t q. refl;
  published-add = λ p t. refl;
  published-remove = λ p t. refl;
  explicit-publish = table_publish-explicit;
  publish_ok = table_publish_ok;
  publish_err = table_publish_err;
}
