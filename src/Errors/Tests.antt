-- ===== src/Errors/Tests.antt =====
-- Payloads of concrete errors.
use avito_mcp.Prelude.{◌≡◌, ◌↔◌, refl, true, false, none}
use avito_mcp.Client.{api_error, transport, timed_out}
use avito_mcp.Errors.{
  failed, request_not_sent, reconcile_required, error_to_mcp_content, timeout, internal_error_kind,
  legacy_kind_from_type, envelope_of,
}
use avito_mcp.Errors.Kinds.{IsTransient, error_to_mcp_content_iff}

late :
    (error_to_mcp_content false (request_not_sent (failed (transport timed_out)))).error.kind
    ≡ timeout
unfolding error_to_mcp_content envelope_of
late = refl

held_kind : (error_to_mcp_content false (reconcile_required none)).error_kind ≡ internal_error_kind
unfolding error_to_mcp_content envelope_of legacy_kind_from_type
held_kind = refl

error_to_mcp_content_iff_example :
    ((error_to_mcp_content false (failed (api_error 503 none))).error.retryable ≡ true)
    ↔ IsTransient (failed (api_error 503 none))
error_to_mcp_content_iff_example = error_to_mcp_content_iff false (failed (api_error 503 none))
