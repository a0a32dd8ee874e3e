-- ===== src/Errors/Kinds.antt =====
-- When a payload of core/errors.ts asks its reader to try again.
use avito_mcp.Prelude.{ℕ, ◌≤◌, ◌<◌, ◌≡◌, ◌↔◌, ◌⊎◌, refl, Bool, true, Option, arith}
use avito_mcp.Client.{api_error, transport, response_limit, missing_credentials, unexpected}
use avito_mcp.Errors.{
  Thrown, failed, request_not_sent, upstream_outcome_unknown, reconcile_required, refused,
  classify_api_error, envelope_of, error_to_mcp_content,
}

-- the errors after which trying again may help: the transport, or a 429 or a 5xx of the API
abbrev pub IsTransient : Thrown → Type 0
IsTransient (failed (api_error status retry_after)) =
    (status ≡ 429) ⊎ ((500 ≤ status) × (status < 600))
IsTransient (failed (transport cause)) = Unit
IsTransient (request_not_sent cause) = IsTransient cause
IsTransient _ = ⊥

module _ (says_timeout : Bool) where
  api_error_iff :
      (status : ℕ) (retry_after : Option ℕ)
      → ((classify_api_error status retry_after).retryable ≡ true)
        ↔ ((status ≡ 429) ⊎ ((500 ≤ status) × (status < 600)))
  unfolding classify_api_error
  api_error_iff status retry_after = (λ h. ground arith, λ h. ground arith)

  envelope_of_iff : (e : Thrown) → ((envelope_of says_timeout e).retryable ≡ true) ↔ IsTransient e
  unfolding envelope_of
  envelope_of_iff (failed (api_error status retry_after)) = api_error_iff status retry_after
  envelope_of_iff (failed (transport cause)) = (λ h. tt, λ h. refl)
  envelope_of_iff (failed missing_credentials) = (λ h. ground arith, λ h. ground arith)
  envelope_of_iff (failed response_limit) = (λ h. ground arith, λ h. ground arith)
  envelope_of_iff (failed unexpected) = (λ h. ground arith, λ h. ground arith)
  envelope_of_iff (request_not_sent cause) = envelope_of_iff cause
  envelope_of_iff (upstream_outcome_unknown reason) = (λ h. ground arith, λ h. ground arith)
  envelope_of_iff (reconcile_required reason) = (λ h. ground arith, λ h. ground arith)
  envelope_of_iff refused = (λ h. ground arith, λ h. ground arith)

  -- A payload says that the call may be tried again exactly when its error is a failure of the transport
  -- or a 429 or a 5xx of the API, also where the error says that the request was not sent because of such
  -- a failure. A call whose outcome is unknown or whose key is held is never offered for another try.
  pub error_to_mcp_content_iff :
      (e : Thrown) → ((error_to_mcp_content says_timeout e).error.retryable ≡ true) ↔ IsTransient e
  unfolding error_to_mcp_content
  error_to_mcp_content_iff e = envelope_of_iff e
