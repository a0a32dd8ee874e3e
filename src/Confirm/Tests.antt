-- ===== src/Confirm/Tests.antt =====
-- An action that is confirmed with a secret.
use avito_mcp.Prelude.{String, ◌≡◌, refl, inl, true, false, none, some, [], ◌∷◌}
use avito_mcp.Json.{obj, no_more}
use avito_mcp.JsMap.{get, put, remove, retain}
use avito_mcp.Policy.{money, full_access, money_public, evaluate_policy}
use avito_mcp.Pending.{
  Store, PendingAction, init, is_active, take_action, cleanup_expired, reset_confirmation_failures,
  record_failed_confirmation,
}
use avito_mcp.Idempotency.{transport_failure_after_dispatch}
use avito_mcp.Errors.{upstream_outcome_unknown}
use avito_mcp.ToolFactory.{throws}
use avito_mcp.Confirm.{Settings, executes, rejected, decide_confirmation, finish_confirmation}
use avito_mcp.Confirm.Decisions.{IsApproved, decide_confirmation_lem}
use avito_mcp.Confirm.Endings.{finish_confirmation-is_active}

abbrev settings : Settings
settings = record {
  policy = record {
    mode = full_access;
    expose_auth_tools = false;
    allow_tools = [];
    deny_tools = [];
    confirmation_mode = money_public;
  };
  secret = some "pass";
  external_approval = true;
}

abbrev action : PendingAction String
action = record {
  id = "c1";
  tool_name = "vas_apply";
  risk = money;
  summary = "POST";
  args = obj no_more;
  created_at = 0;
  expires_at = 900;
  initiator = "oauth:app";
  idempotency_key = none;
  args_hash = none;
  execute = "run";
}

abbrev waiting : Store String
waiting = record (init 900 4) { actions = ("c1", action) ∷ [] }

confirmed :
    (decide_confirmation settings 500 "oauth:app" "c1" (some "pass") action waiting).1
    ≡ executes action
unfolding decide_confirmation evaluate_policy take_action cleanup_expired
    reset_confirmation_failures init retain remove get
confirmed = refl

wrong_secret :
    (decide_confirmation settings 500 "oauth:app" "c1" (some "guess") action waiting).1
    ≡ rejected false
unfolding decide_confirmation record_failed_confirmation cleanup_expired init retain remove get put
wrong_secret = refl

found : get waiting.actions "c1" ≡ some action
unfolding get init
found = refl

decide_confirmation_lem_example :
    IsApproved settings 500 "oauth:app" "c1"
      (some "pass")
      action
      (decide_confirmation settings 500 "oauth:app" "c1" (some "pass") action waiting).0
decide_confirmation_lem_example =
    decide_confirmation_lem settings 500 "oauth:app" "c1" (some "pass") action action waiting
      (inl found) confirmed

abbrev running : Store String
running = record (init 900 4) { in_flight = ("c1", action) ∷ [] }

in_flight_there : get running.in_flight "c1" ≡ some action
unfolding get
in_flight_there = refl

nothing_waits : get running.actions "c1" ≡ none
unfolding get init
nothing_waits = refl

finish_confirmation-is_active_sample :
    (is_active 5000 "c1"
      (finish_confirmation false "c1"
        (throws (upstream_outcome_unknown transport_failure_after_dispatch))
        running).0).1
    ≡ true
finish_confirmation-is_active_sample =
    finish_confirmation-is_active false "c1" 5000 running action
      (throws (upstream_outcome_unknown transport_failure_after_dispatch)) nothing_waits
      in_flight_there
