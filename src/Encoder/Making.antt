-- ===== src/Encoder/Making.antt =====
-- When `EncodingBackend::new` of src/backend/mod.rs fails.
use p2pradio.Prelude.{
  ℕ, arith, length, ◌==◌, false, ◌≡◌, ◌≢◌, ◌⊎◌, inl, inr, refl, List, [], ◌∷◌, Result, Result-cases,
  ok, err,
}
use p2pradio.Errors.{Foreign, AppError}
use p2pradio.Encoder.{new}

module _ (F : Foreign) {P : Type 0} (init_gst : Result (Unit {0}) F.AnyhowError)
    (create_icecast_pipeline : List ℕ → Result P F.AnyhowError) where
  -- the first check or step that fails, and its error
  pub data EncodingFails (url : List ℕ) : AppError F → Type 0 where
    url_empty : url ≡ [] → EncodingFails url (AppError.anyhow (F.new_anyhow "Url is empty"))
    init_failed :
        (x : F.AnyhowError) → url ≢ [] → init_gst ≡ err x → EncodingFails url (AppError.anyhow x)
    pipeline_failed :
        (x : F.AnyhowError)
        → url ≢ []
        → init_gst ≡ ok tt
        → create_icecast_pipeline url ≡ err x
        → EncodingFails url (AppError.anyhow x)

  -- The encoding backend is the pipeline for its URL, which is not empty, where GStreamer can be
  -- initialized; otherwise the error is that of the first check or step that fails.
  pub new_encoding_backend_lem :
      (url : List ℕ)
      → let res = new F init_gst create_icecast_pipeline url in
        ((p : P) × (url ≢ [])
          × (init_gst ≡ ok tt)
          × (create_icecast_pipeline url ≡ ok p)
          × (res ≡ ok p))
        ⊎ ((e : AppError F) × EncodingFails url e × (res ≡ err e))
  unfolding new
  new_encoding_backend_lem [] = inr (_, url_empty refl, refl)
  new_encoding_backend_lem (c ∷ rest) =
      let nonempty : (length (c ∷ rest) == 0) ≡ false = ground arith in
      elim (Result-cases init_gst) [
        | inr (x, p) ↦ inr (_, init_failed x (λ e. cc) p, rw (nonempty, new) (rw (p, new) refl))
        | inl (u, p) ↦ elim (Result-cases (create_icecast_pipeline (c ∷ rest))) [
          | inr (x, q) ↦ inr (
            _,
            pipeline_failed x (λ e. cc) p q,
            rw (nonempty, new) (rw (p, new) (rw (q, new) refl)),
          )
          | inl (made, q) ↦
              inl (made, (λ e. cc), p, q, rw (nonempty, new) (rw (p, new) (rw (q, new) refl)))
        ]
      ]
