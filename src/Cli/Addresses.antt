-- ===== src/Cli/Addresses.antt =====
-- Which texts the parser of socket addresses in src/cli.rs accepts.
use p2pradio.Prelude.{ℕ, ◌≡◌, ◌⊎◌, inl, inr, refl, List, [], ◌∷◌, Result, Result-cases, ok, err}
use p2pradio.Errors.{Foreign}
use p2pradio.Cli.{Eyre, quoted, socketaddr_value_parser}

module _ {F : Foreign} (Y : Eyre F) {SocketAddr : Type 0}
    (to_socket_addrs : List ℕ → Result (List SocketAddr) F.IoError) where
  -- A text is read as the first of the addresses that it resolves to; where there is none, or where it
  -- cannot be resolved, the error has the text in quotes.
  pub socketaddr_value_parser_lem :
      (value : List ℕ)
      → let res = socketaddr_value_parser Y to_socket_addrs value in
        ((a : SocketAddr) × (rest : List SocketAddr) × (to_socket_addrs value ≡ ok (a ∷ rest))
          × (res ≡ ok a))
        ⊎ ((to_socket_addrs value ≡ ok []) × (res ≡ err (Y.msg (quoted value))))
        ⊎ ((e : F.IoError) × (to_socket_addrs value ≡ err e)
            × (res ≡ err (Y.wrap_err (Y.from_io e) (quoted value))))
  unfolding socketaddr_value_parser
  socketaddr_value_parser_lem value = elim (Result-cases (to_socket_addrs value)) [
    | inl ([], e) ↦ inr (inl (e, rw (e, socketaddr_value_parser) refl))
    | inl (a ∷ rest, e) ↦ inl (a, rest, e, rw (e, socketaddr_value_parser) refl)
    | inr (x, e) ↦ inr (inr (x, e, rw (e, socketaddr_value_parser) refl))
  ]
