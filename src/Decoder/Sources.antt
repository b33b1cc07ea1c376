-- ===== src/Decoder/Sources.antt =====
-- An appsrc that keeps what it was given: the interface of Decoder.antt can be met.
use p2pradio.Prelude.{false, ℕ, ◌≡◌, refl, Option, some, List, [], ◌∷◌, ◌++◌, Result, ok, err}
use p2pradio.Ogg.{FlowError, FlowSuccess, flow_ok}
use p2pradio.Encoder.{Gst}
use p2pradio.Decoder.{AppSrc, process_bytes, new_buffer}

abbrev pub G : Gst
G = record { GlibError = ℕ; StateChangeError = ℕ; BoolError = ℕ }

-- an appsrc that refuses an empty buffer
abbrev pub push : List ℕ → List (List ℕ) → List (List ℕ) × Result FlowSuccess FlowError
push [] log = (log, err FlowError.error)
push (b ∷ bytes) log = (log ++ (b ∷ bytes) ∷ [], ok flow_ok)

pub push_ok_lem :
    (bytes : List ℕ) (log : List (List ℕ)) (v : FlowSuccess)
    → (push bytes log).1 ≡ ok v
    → (push bytes log).0 ≡ log ++ bytes ∷ []
push_ok_lem [] log v e = cc
push_ok_lem (b ∷ bytes) log v e = refl

pub push_err_lem :
    (bytes : List ℕ) (log : List (List ℕ)) (x : FlowError)
    → (push bytes log).1 ≡ err x
    → (push bytes log).0 ≡ log
push_err_lem [] log x e = refl
push_err_lem (b ∷ bytes) log x e = cc

abbrev pub source : AppSrc
source = record {
  Src = List (List ℕ);
  push_buffer = push;
  pushed = λ log. log;
  push_ok = push_ok_lem;
  push_err = push_err_lem;
}

abbrev pub room : ℕ → Result (Option (Option (Unit {0}))) ℕ
room n = ok (some (some tt))

-- an appsrc that accepts every buffer
abbrev pub eager : AppSrc
eager = record {
  Src = List (List ℕ);
  push_buffer = λ bytes log. (log ++ bytes ∷ [], ok flow_ok);
  pushed = λ log. log;
  push_ok = λ bytes log v e. refl;
  push_err = λ bytes log x e. cc;
}

abbrev pub Playing : List (List ℕ) → Type 0
Playing src = Unit {0}

pub eager-IsPlaying :
    (bytes : List ℕ) (src : List (List ℕ))
    → Playing src
    → ((process_bytes G eager room bytes src).1 ≡ ok false)
      × Playing (process_bytes G eager room bytes src).0
unfolding process_bytes new_buffer
eager-IsPlaying bytes src plays = (refl, tt)
