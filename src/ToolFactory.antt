-- ===== src/ToolFactory.antt =====
-- core/tool-factory.ts: the description of a tool, its registration, and what the end of a request means for
-- the caller and for the key. The texts of the results are left out. A tool's own executor comes to an
-- outcome by what the network and the clock do, as the client does.
pub mod Args
pub mod Handler
pub mod Routing
pub mod Outcomes
pub mod Calls
pub mod Gates
pub mod Registered
mod Tests
use avito_mcp.Prelude.{
  ℕ, String, Bool, true, false, not, ◌||◌, ◌&&◌, Option, none, some, List, get_or, if◌then◌else◌,
}
use avito_mcp.Json.{Json, Properties}
use avito_mcp.Policy.{
  Risk, read, write, money, public, sensitive, Config, Decision, allowed, evaluate_policy,
}
use avito_mcp.Client.{Failure, api_error, transport, Round, State, Outcome, returned, thrown}
use avito_mcp.Errors.{
  Payload, Thrown, failed, request_not_sent, upstream_outcome_unknown, refused,
  error_to_mcp_content,
}
use avito_mcp.Idempotency.{
  HoldReason, cancelled_after_dispatch, transport_failure_after_dispatch, Ledger, Request, Entry,
  remember, hold,
}
use avito_mcp.Idempotency.Runs.{Ending, succeeded, outcome_unknown, failed as released}

-- what building a preview gives
pub data Built : Type 0 where
  built : Json → Built
  refused_by : Thrown → Built

pub record BodySpec : Type 0 where
  pub fields : Option (List String)
  pub defaults : Properties
  pub transform : Option (Properties → Json)

-- `ToolSpec`, and the parts of `ToolContext` that a tool's functions are given
pub record ToolSpec : Type 0 where
  pub name : String
  pub is_get : Bool
  pub path_params : List String
  pub query_params : List String
  pub body : Option BodySpec
  pub auth : Option Bool
  pub inject_profile_id : Option String
  pub risk : Option Risk
  pub destructive_hint : Option Bool
  pub accesses_local_files : Bool
  pub environment : Option String
  pub retry : Option Bool
  pub custom_execute : Option (Properties → (ℕ → Round) → Option (State × Outcome))
  pub build_dry_run_preview : Option (Properties → Built)
  pub redact_dry_run_preview : Option (Json → Built)

pub record ToolAnnotations : Type 0 where
  pub read_only_hint : Bool
  pub destructive_hint : Bool
  pub idempotent_hint : Bool
  pub open_world_hint : Bool

-- `CallToolResult`: the kinds of structured content
pub data Result : Type 0 where
  answer : Option Json → Result
  error_content : Payload → Result
  confirmation : (id tool_name : String) → Risk → (expires_at : ℕ) → Result
  preview : (explicit_request : Bool) → (request_preview : Json) → Result

unfoldable pub is_destructive : Risk → Bool
is_destructive write = true
is_destructive money = true
is_destructive public = true
is_destructive _ = false

unfoldable pub risk_to_annotations : Risk → ToolAnnotations
risk_to_annotations sensitive = record {
  read_only_hint = true;
  destructive_hint = false;
  idempotent_hint = false;
  open_world_hint = true;
}
risk_to_annotations read = record {
  read_only_hint = true;
  destructive_hint = false;
  idempotent_hint = true;
  open_world_hint = true;
}
risk_to_annotations write = record {
  read_only_hint = false;
  destructive_hint = false;
  idempotent_hint = false;
  open_world_hint = true;
}
risk_to_annotations money = record {
  read_only_hint = false;
  destructive_hint = true;
  idempotent_hint = false;
  open_world_hint = true;
}
risk_to_annotations public = record {
  read_only_hint = false;
  destructive_hint = true;
  idempotent_hint = false;
  open_world_hint = true;
}

-- what a tool is registered with, and whether an executor is given to the store of pending actions
pub record Registration : Type 0 where
  pub annotations : ToolAnnotations
  pub environment : String
  pub accesses_local_files : Bool
  pub registers_executor : Bool
  pub takes_meta_params : Bool

abbrev pub risk_of : ToolSpec → Risk
risk_of spec = get_or spec.risk write

abbrev override_hint : Option Bool → ToolAnnotations → ToolAnnotations
override_hint none a = a
override_hint (some hint) a = record a { destructive_hint = hint }

abbrev registration : ToolSpec → Registration
registration spec = record {
  annotations = override_hint spec.destructive_hint (risk_to_annotations (risk_of spec));
  environment = get_or spec.environment "prod";
  accesses_local_files = spec.accesses_local_files;
  registers_executor = is_destructive (risk_of spec);
  takes_meta_params = is_destructive (risk_of spec);
}

abbrev if_allowed : Decision → ToolSpec → Option Registration
if_allowed allowed spec = some (registration spec)
if_allowed _ spec = none

-- `defineTool`: nothing is registered where the policy refuses
unfoldable pub define_tool : ToolSpec → Config → Option Registration
define_tool spec cfg = if_allowed (evaluate_policy spec.name (risk_of spec) cfg) spec

-- how `execute` ends: with a result, or with a throw
pub data Executed : Type 0 where
  result : Result → Executed
  not_sent : Failure → Executed
  unknown : HoldReason → Failure → Executed
  rethrown : Failure → Executed

abbrev is_api_error : Failure → Bool
is_api_error (api_error status retry_after) = true
is_api_error _ = false

abbrev pub is_transport_error : Failure → Bool
is_transport_error (transport cause) = true
is_transport_error _ = false

-- what the caller is told, by a result or by a throw
pub data Reply : Type 0 where
  fresh : Result → Reply
  replayed : Result → Reply
  throws : Thrown → Reply

module _ (says_timeout : Bool) where
  abbrev pub content : Failure → Result
  content f = error_content (error_to_mcp_content says_timeout (failed f))

  -- the `catch` of `execute`
  unfoldable pub execute_catch : Risk → (aborted dispatched : Bool) → Failure → Executed
  execute_catch risk aborted dispatched f =
      if aborted
      then (if not dispatched
          then rethrown f
          else if is_api_error f
          then result (content f)
          else unknown cancelled_after_dispatch f)
      else if is_destructive risk && is_transport_error f
      then (if not dispatched then not_sent f else unknown transport_failure_after_dispatch f)
      else result (content f)

  -- `execute`, after the request; `structured` is what `toStructuredContent` makes of the answer
  unfoldable pub execute :
      Risk → (aborted : Bool) → (structured : Option Json) → State → Outcome → Executed
  execute risk aborted structured s (returned status) = result (answer structured)
  execute risk aborted structured s (thrown f) = execute_catch risk aborted s.dispatched f

  -- what the ledger is told of it
  unfoldable pub ending_of : Executed → Ending Result
  ending_of (result r) = succeeded r
  ending_of (unknown reason f) = outcome_unknown reason
  ending_of _ = released

  abbrev unknown_reply : HoldReason → Reply
  unknown_reply transport_failure_after_dispatch = fresh (
      error_content (
        error_to_mcp_content says_timeout
          (upstream_outcome_unknown transport_failure_after_dispatch)))
  unknown_reply cancelled_after_dispatch =
      throws (upstream_outcome_unknown cancelled_after_dispatch)

  -- the last `try` of the handler, for a call without a key
  unfoldable pub reply_of : Executed → Reply
  reply_of (result r) = fresh r
  reply_of (not_sent f) =
      fresh (error_content (error_to_mcp_content says_timeout (request_not_sent (failed f))))
  reply_of (unknown reason f) = unknown_reply reason
  reply_of (rethrown f) = throws (failed f)

  -- `executePending` throws an unknown outcome on, for whatever reason it is unknown
  abbrev pending_reply : Executed → Reply
  pending_reply (unknown reason f) = throws (upstream_outcome_unknown reason)
  pending_reply e = reply_of e

module _ (says_timeout : Bool) {W : Type 0} (fingerprint : String → String) where
  abbrev stored : Result → Ledger W Result × Option (Entry Result) → Ledger W Result × Reply
  stored r (l, none) = (l, throws refused)
  stored r (l, some e) = (l, fresh r)

  abbrev record_pending :
      Ledger W Result → (sweep_at now : ℕ) → W → Request → Executed → Ledger W Result × Reply
  record_pending l sweep_at now w q (result r) =
      stored r (remember fingerprint sweep_at now w q r none l)
  record_pending l sweep_at now w q (unknown reason f) =
      (hold fingerprint now q (some reason) l, pending_reply says_timeout (unknown reason f))
  record_pending l sweep_at now w q e = (l, pending_reply says_timeout e)

  abbrev end_pending :
      Ledger W Result → (sweep_at now : ℕ) → W → Option Request → Executed → Ledger W Result × Reply
  end_pending l sweep_at now w none e = (l, pending_reply says_timeout e)
  end_pending l sweep_at now w (some q) e = record_pending l sweep_at now w q e

  -- `executePending` over the ledger of one process, after the request: it is given no signal, so that
  -- nobody cancels it. The action may have a key.
  unfoldable pub execute_pending :
      Risk
      → (sweep_at now : ℕ) → W
      → Option Request
      → (structured : Option Json) → State
      → Outcome
      → Ledger W Result
      → Ledger W Result × Reply
  execute_pending risk sweep_at now w q structured s out l =
      end_pending l sweep_at now w q (execute says_timeout risk false structured s out)
