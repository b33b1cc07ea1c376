-- ===== src/Pipeline/Making/Tests.antt =====
-- The pipelines of Pipeline/Making.antt where an element is its name: the interface of Elements can be met.
use Prim.Native.String.{String}
use p2pradio.Prelude.{
  ℕ, ◌≡◌, ◌⊎◌, refl, Bool, false, none, some, List, [], ◌∷◌, ◌++◌, Result, ok, err,
}
use p2pradio.Channel.{Mpsc}
use p2pradio.Channel.Queues.{queue_mpsc, empty}
use p2pradio.Encoder.{Error}
use p2pradio.Decoder.Sources.{G}
use p2pradio.Pipeline.Making.{
  Elements, neighbours, StreamWithPipeline, create_icecast_pipeline, DecStreamWithPipeline,
  new_decoding_backend,
}
use p2pradio.Pipeline.Making.Linked.{
  IsStepError, IsSource, IsChain, create_icecast_pipeline_lem, new_decoding_backend_lem,
}

pub data Name : Type 0 where
  source : List ℕ → Name
  element : String → Name

pub record Lists : Type 0 where
  pub added : List Name
  pub joined : List (Name × Name)

abbrev names : Elements G
names = record {
  Element = Name;
  Pipeline = Lists;
  default = record { added = []; joined = [] };
  make = λ name. ok (element name);
  make_source = λ url. ok (source url);
  app_src = element "app_src";
  app_sink = element;
  add_many = λ es p. (record p { added = p.added ++ es }, ok tt);
  link_many = λ es p. (record p { joined = p.joined ++ neighbours es }, ok tt);
  set_state = λ s p. (p, ok tt);
  elements = λ p. p.added;
  links = λ p. p.joined;
  default_elements = refl;
  default_links = refl;
  add_elements = λ es p u e. refl;
  add_links = λ es p. refl;
  link_elements = λ es p. refl;
  link_links = λ es p u e. refl;
  state_elements = λ s p. refl;
  state_links = λ s p. refl;
}

abbrev Q : Mpsc (List ℕ)
Q = queue_mpsc (List ℕ)

create_icecast_pipeline_lem_example :
    ((s : StreamWithPipeline names Q) × (create_icecast_pipeline names Q empty (104 ∷ []) ≡ ok s)
      × IsSource names Q empty (104 ∷ []) s)
    ⊎ ((e : Error G) × (create_icecast_pipeline names Q empty (104 ∷ []) ≡ err e)
        × IsStepError names e)
create_icecast_pipeline_lem_example = create_icecast_pipeline_lem names Q empty (104 ∷ [])

abbrev into : Error G → Bool
into e = false

abbrev initialized : Result (Unit {0}) Bool
initialized = ok tt

new_decoding_backend_lem_example :
    let made = new_decoding_backend names into initialized in
    ((e : Bool) × (initialized ≡ err e) × (made ≡ none))
    ⊎ ((initialized ≡ ok tt)
        × (((s : DecStreamWithPipeline names) × (made ≡ some (ok s)) × IsChain names s)
            ⊎ ((e : Error G) × (made ≡ some (err false)) × IsStepError names e)))
new_decoding_backend_lem_example = new_decoding_backend_lem names into initialized
