-- ===== src/Rpc/Codes.antt =====
-- Which codes `server_error` of src/rpc/json.rs lets through.
use p2pradio.Prelude.{ℕ, ◌<◌, ◌≡◌, ◌≢◌, ◌↔◌, ◌⊎◌, inl, inr, refl, none, some, arith}
use p2pradio.Rpc.{
  ℤ, negsuc, pos, ◌≤ℤ◌, parse_error, invalid_request, method_not_found, invalid_params,
  internal_error, server_error, failed_send_file_ref, failed_recv_file_feed, file_err,
}

-- the range that JSON-RPC leaves to the server, from -32099 to -32000
abbrev pub IsServerError : ℤ → Type 0
IsServerError code = (negsuc 32098 ≤ℤ code) × (code ≤ℤ negsuc 31999)

server_error_cases :
    (code : ℤ)
    → (IsServerError code × (server_error code ≡ some code))
      ⊎ ((¬ IsServerError code) × (server_error code ≡ none))
unfolding server_error
server_error_cases (pos n) = inr (λ h. omega (arith, h.1), ground arith)
server_error_cases (negsuc n) = ground arith

above_reserved : (n k : ℕ) → IsServerError (negsuc n) → 32098 < k → negsuc n ≢ negsuc k
above_reserved n k h far = λ e. let same : n ≡ k = cc in omega (arith, h.0)

reserved_apart :
    (c : ℤ)
    → IsServerError c
    → (c ≢ parse_error)
      × (c ≢ invalid_request)
      × (c ≢ method_not_found)
      × (c ≢ invalid_params)
      × (c ≢ internal_error)
reserved_apart (pos n) h = absurd (omega (arith, h.1))
reserved_apart (negsuc n) h = (
  above_reserved n _ h (omega arith),
  above_reserved n _ h (omega arith),
  above_reserved n _ h (omega arith),
  above_reserved n _ h (omega arith),
  above_reserved n _ h (omega arith),
)

-- `server_error` returns a code exactly where it is in the range, and then that code; outside it
-- panics. No code that it returns is one of the five that JSON-RPC defines itself.
pub server_error_lem :
    (code : ℤ)
    → ((server_error code ≡ some code) ↔ IsServerError code)
      × ((server_error code ≡ none) ↔ (¬ IsServerError code))
      × ((c : ℤ)
          → server_error code ≡ some c
          → (c ≢ parse_error)
            × (c ≢ invalid_request)
            × (c ≢ method_not_found)
            × (c ≢ invalid_params)
            × (c ≢ internal_error))
server_error_lem code = elim (server_error_cases code) [
  | inl (h, e) ↦ (
    (λ x. h, λ x. e),
    (λ x. cc, λ outside. absurd (outside h)),
    λ c same. let it : c ≡ code = cc in rw it (reserved_apart code h),
  )
  | inr (outside, e) ↦
      ((λ x. cc, λ h. absurd (outside h)), (λ x. outside, λ x. e), λ c same. absurd cc)
]

constants :
    (failed_send_file_ref ≡ some (negsuc 32098))
    × (failed_recv_file_feed ≡ some (negsuc 32097))
    × (file_err ≡ some (negsuc 32096))
unfolding server_error
constants = (refl, refl, refl)
