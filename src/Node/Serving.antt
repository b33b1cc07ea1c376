-- ===== src/Node/Serving.antt =====
-- When `StreamerServerService::new` of src/rpc/mod.rs fails.
use p2pradio.Prelude.{◌≡◌, ◌⊎◌, inl, inr, refl, Result, Result-cases, ok, err}
use p2pradio.Errors.{Foreign, AppError}
use p2pradio.Http.{metrics_router, new_axum_streamer}
use p2pradio.Node.{StreamerServerService, new_streamer_server, start_info_server}

module _ (F : Foreign) {L R X H : Type 0} (bind : Result L F.IoError) (build : Result R F.IoError)
    (local_addr : R → Result X F.IoError) (handle : R → H) where
  -- the first socket that fails, and its error
  pub data ServingFails : AppError F → Type 0 where
    bind_failed : (x : F.IoError) → bind ≡ err x → ServingFails (AppError.io x)
    build_failed :
        (l : L) (x : F.IoError) → bind ≡ ok l → build ≡ err x → ServingFails (AppError.io x)
    local_addr_failed :
        (l : L) (r : R) (x : F.IoError)
        → bind ≡ ok l
        → build ≡ ok r
        → local_addr r ≡ err x
        → ServingFails (AppError.io x)

  abbrev serving : Result (StreamerServerService F L H) (AppError F)
  serving = new_streamer_server F bind (start_info_server F build local_addr handle)

  -- The streamer's server has its HTTP socket, which serves the metrics, and a started RPC server;
  -- otherwise the error is that of the first socket that fails.
  pub new_streamer_server_lem :
      ((l : L) × (r : R) × (x : X) × (bind ≡ ok l)
        × (build ≡ ok r)
        × (local_addr r ≡ ok x)
        × (serving
            ≡ ok (record {
              server_listener = record { listener = l; router = metrics_router };
              server_handle = handle r;
            })))
      ⊎ ((e : AppError F) × ServingFails e × (serving ≡ err e))
  unfolding new_streamer_server start_info_server new_axum_streamer
  new_streamer_server_lem = elim (Result-cases bind) [
    | inr (x, p) ↦ inr (_, bind_failed x p, rw (p, serving) refl)
    | inl (l, p) ↦ elim (Result-cases build) [
      | inr (x, q) ↦ inr (_, build_failed l x p q, rw (p, serving) (rw (q, serving) refl))
      | inl (r, q) ↦ elim (Result-cases (local_addr r)) [
        | inr (x, a) ↦ inr (
          _,
          local_addr_failed l r x p q a,
          rw (p, serving) (rw (q, serving) (rw (a, serving) refl)),
        )
        | inl (x, a) ↦
            inl (l, r, x, p, q, a, rw (p, serving) (rw (q, serving) (rw (a, serving) refl)))
      ]
    ]
  ]
