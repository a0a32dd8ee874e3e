-- ===== src/Errors.antt =====
-- core/errors.ts: how an error becomes the payload of a tool response. The texts of the payload are left
-- out. Whether the text of a network error speaks of a timeout is the parameter `says_timeout`.
pub mod Kinds
mod Tests
use avito_mcp.Prelude.{ℕ, Bool, true, false, ◌&&◌, Option, none, some, leb, ltb, eqb, if◌then◌else◌}
use avito_mcp.Client.{
  Failure, api_error, transport, response_limit, missing_credentials, unexpected, Cause, cancelled,
  timed_out, network,
}
use avito_mcp.Idempotency.{HoldReason}

pub data ErrorType : Type 0 where
  config_error network_error timeout outcome_unknown idempotency_held internal_error : ErrorType
  avito_unauthorized avito_forbidden avito_not_found avito_bad_request : ErrorType
  avito_rate_limit avito_server_error avito_api_error : ErrorType

pub data LegacyKind : Type 0 where
  transport_error_kind internal_error_kind avito_api_error_kind : LegacyKind

-- The errors that reach a payload: those of a request, the three of core/idempotency.ts that
-- core/errors.ts tells apart, and its others.
pub data Thrown : Type 0 where
  failed : Failure → Thrown
  request_not_sent : (cause : Thrown) → Thrown
  upstream_outcome_unknown : HoldReason → Thrown
  reconcile_required : Option HoldReason → Thrown
  refused : Thrown

-- `code`, where it differs from the type
pub data Code : Type 0 where
  plain : ErrorType → Code
  held : Option HoldReason → Code

pub record ErrorEnvelope : Type 0 where
  pub code : Code
  pub kind : ErrorType
  pub retryable : Bool
  pub retry_after : Option ℕ
  pub http_status : Option ℕ

-- the two members of `structuredContent`
pub record Payload : Type 0 where
  pub error : ErrorEnvelope
  pub error_kind : LegacyKind

abbrev envelope : ErrorType → Bool → Option ℕ → Option ℕ → ErrorEnvelope
envelope kind retryable retry_after http_status = record {
  code = plain kind;
  kind = kind;
  retryable = retryable;
  retry_after = retry_after;
  http_status = http_status;
}

unfoldable pub classify_api_error : (status : ℕ) → (retry_after : Option ℕ) → ErrorEnvelope
classify_api_error s retry_after =
    if eqb s 400
    then envelope avito_bad_request false none (some s)
    else if eqb s 401
    then envelope avito_unauthorized false none (some s)
    else if eqb s 403
    then envelope avito_forbidden false none (some s)
    else if eqb s 404
    then envelope avito_not_found false none (some s)
    else if eqb s 429
    then envelope avito_rate_limit true retry_after (some s)
    else if leb 500 s && ltb s 600
    then envelope avito_server_error true retry_after (some s)
    else envelope avito_api_error false none (some s)

unfoldable pub legacy_kind_from_type : ErrorType → LegacyKind
legacy_kind_from_type network_error = transport_error_kind
legacy_kind_from_type timeout = transport_error_kind
legacy_kind_from_type internal_error = internal_error_kind
legacy_kind_from_type config_error = internal_error_kind
legacy_kind_from_type idempotency_held = internal_error_kind
legacy_kind_from_type outcome_unknown = internal_error_kind
legacy_kind_from_type _ = avito_api_error_kind

module _ (says_timeout : Bool) where
  -- the message of a cancelled request speaks of no timeout, that of a deadline does
  abbrev is_timeout : Cause → Bool
  is_timeout cancelled = false
  is_timeout timed_out = true
  is_timeout network = says_timeout

  abbrev failure_envelope : Failure → ErrorEnvelope
  failure_envelope (api_error status retry_after) = classify_api_error status retry_after
  failure_envelope missing_credentials = envelope config_error false none none
  failure_envelope (transport cause) =
      envelope (if is_timeout cause then timeout else network_error) true none none
  failure_envelope response_limit = envelope internal_error false none none
  failure_envelope unexpected = envelope internal_error false none none

  unfoldable pub envelope_of : Thrown → ErrorEnvelope
  envelope_of (request_not_sent cause) = envelope_of cause
  envelope_of (upstream_outcome_unknown reason) = envelope outcome_unknown false none none
  envelope_of (failed f) = failure_envelope f
  envelope_of (reconcile_required reason) = record (envelope idempotency_held false none none) {
    code = held reason;
  }
  envelope_of refused = envelope internal_error false none none

  -- `errorToMcpContent`
  unfoldable pub error_to_mcp_content : Thrown → Payload
  error_to_mcp_content e = record {
    error = envelope_of e;
    error_kind = legacy_kind_from_type (envelope_of e).kind;
  }
