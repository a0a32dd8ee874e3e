-- ===== src/ToolFactory/Tests.antt =====
-- A tool that spends money, and what becomes of its key.
use avito_mcp.Prelude.{ℕ, String, ◌≡◌, refl, inr, true, false, none, some, [], ◌∷◌, arith}
use avito_mcp.Json.{
  Properties, no_more, has_property, obj, str, num, bool, set_property, find_property,
}
use avito_mcp.Json.Laws.{later_or}
use avito_mcp.JsMap.{get, put, has, retain, remove}
use avito_mcp.Policy.{
  Config, money, read, read_only, full_access, money_public, evaluate_policy, requires_confirmation,
}
use avito_mcp.Pending.{
  Store, init as no_actions, PendingAction, is_active, cleanup_expired as sweep,
}
use avito_mcp.Client.{
  Round, State, thrown, api_error, transport, network, unreachable, default_retry, init, turn,
  do_request,
}
use avito_mcp.Errors.{failed, error_to_mcp_content, upstream_outcome_unknown}
use avito_mcp.Idempotency.{
  Ledger, Request, Entry, init as no_ledger, slot, new_hold, new_entry,
  transport_failure_after_dispatch, lookup, cleanup_expired, compose_key,
}
use avito_mcp.Idempotency.Runs.{arrive, settle, asks}
use avito_mcp.Idempotency.Runs.Holds.{refusal}
use avito_mcp.ToolFactory.{
  ToolSpec, BodySpec, Result, confirmation, replayed, Registration, define_tool, content,
  execute_pending, throws, risk_to_annotations, is_destructive,
}
use avito_mcp.ToolFactory.Args.{
  strip_meta, split_args, to_structured_content, request_options, perform,
}
use avito_mcp.ToolFactory.Handler.{
  Outside, Settings, replies, confirms, runs, handler, clean_args, confirmation_id,
  effective_dry_run, idempotency_key, replay_allowed,
}
use avito_mcp.ToolFactory.Routing.{
  strip_meta-set_property, split_args_lem, to_structured_content_lem, body_field, injected, at_path,
  at_query, at_body, to_body,
}
use avito_mcp.ToolFactory.Outcomes.{
  Unanswered, told, perform-Unanswered, do_request-arrive, unsent_error-arrive,
}
use avito_mcp.ToolFactory.Calls.{Passes}
use avito_mcp.ToolFactory.Registered.{define_tool-read_only}
use avito_mcp.ToolFactory.Gates.{handler-Passes, handler-is_active, execute_pending-arrive}

abbrev body : BodySpec
body = record { fields = none; defaults = no_more; transform = none }

abbrev tool : ToolSpec
tool = record {
  name = "vas_apply";
  is_get = false;
  path_params = "user_id" ∷ [];
  query_params = "slot" ∷ [];
  body = some body;
  auth = none;
  inject_profile_id = some "user_id";
  risk = some money;
  destructive_hint = none;
  accesses_local_files = false;
  environment = none;
  retry = none;
  custom_execute = none;
  build_dry_run_preview = none;
  redact_dry_run_preview = none;
}

abbrev reader : ToolSpec
reader = record tool { risk = some read; is_get = true }

abbrev args : Properties
args =
    has_property "slot" (num 1)
      (has_property "price" (num 70) (has_property "idempotencyKey" (str "key-0001") no_more))

abbrev lost : Round
lost = record {
  prepared = none;
  send_at = 0;
  fetched = unreachable;
  aborted = false;
  deadline_fired = false;
  refreshed = none;
  pause_at = 0;
  random = 500;
}

-- the token endpoint answers 503
abbrev unsent : Round
unsent = record lost { prepared = some (api_error 503 none) }

abbrev sent : State
sent = record {
  allow_refresh = true;
  retries_429 = 0;
  retries_5xx = 0;
  dispatches = 1;
  rejections = 0;
  dispatched = true;
}

lost_post :
    do_request default_retry (request_options tool) 30000 (λ n. lost) 6 0 init
    ≡ some (sent, thrown (transport network))
unfolding do_request turn init request_options
lost_post = refl

lost_call :
    perform default_retry tool 30000 (λ n. lost) 6 args ≡ some (sent, thrown (transport network))
unfolding perform do_request turn init request_options
lost_call = refl

-- an executor that sends an order, and then fails to learn what became of it
abbrev ordering : ToolSpec
ordering = record tool {
  custom_execute = some (λ args rounds. some (sent, thrown (transport network)));
}

own_executor :
    perform default_retry ordering 30000 (λ n. unsent) 6 args
    ≡ some (sent, thrown (transport network))
unfolding perform
own_executor = refl

abbrev q : Request
q = record { key = "key-0001"; tool_name = "vas_apply"; args_hash = "h" }

abbrev same_key : String → String
same_key key = key

abbrev ledger : Ledger ℕ Result
ledger = record {
  ttl_ms = 1000;
  max_entries = 8;
  entries = [];
  reservations = ("vas_apply::key-0001", record { args_hash = "h" }) ∷ [];
  holds = [];
  retain_expired = [];
}

running : has ledger.reservations (slot same_key q) ≡ true
unfolding get compose_key
running = refl

perform-Unanswered_example :
    Unanswered sent (told false money false none sent (thrown (transport network)))
unfolding request_options
perform-Unanswered_example =
    perform-Unanswered false money false default_retry tool 30000 (λ n. lost) 6 args none sent
      (thrown (transport network)) refl refl lost_call

do_request-arrive_example :
    (arrive same_key 999999 0 q (
      settle same_key 5 6 0 q none
        (told false money false none sent (thrown (transport network)))
        ledger)).1
    ≡ refusal (new_hold same_key 6 ledger q (some transport_failure_after_dispatch)) q
unfolding request_options is_destructive
do_request-arrive_example =
    do_request-arrive false money false default_retry (request_options tool) 30000 same_key
      (λ n. lost) 6 none sent (transport network) 5 6 0 q none ledger 999999 0 q refl lost_post refl
      refl refl refl (λ h. ground (arith, h))

unsent_error-arrive_example :
    (do_request default_retry (request_options tool) 30000 (λ n. unsent) 6 0 init
      ≡ some (init, thrown (api_error 503 none)))
    × ((arrive same_key 500 0 q (
          settle same_key 5 6 0 q none
            (told false money false none init (thrown (api_error 503 none)))
            ledger)).1
        ≡ asks (new_entry same_key 6 ledger q (content false (api_error 503 none))))
    × ((error_to_mcp_content false (failed (api_error 503 none))).error.retryable ≡ true)
unsent_error-arrive_example =
    unsent_error-arrive false money false default_retry (request_options tool) 30000 same_key
      (λ n. unsent) 5 none 503 none 5 6 0 q none ledger 500 0 refl refl (inr (omega arith)) running
      (omega arith)

abbrev policy : Config
policy = record {
  mode = full_access;
  expose_auth_tools = false;
  allow_tools = [];
  deny_tools = [];
  confirmation_mode = money_public;
}

abbrev settings : Settings
settings = record { policy = policy; dry_run_default = false; profile_id = some 7 }

abbrev preview_entry : Entry Result
preview_entry = record {
  key = "key-0001";
  tool_name = "vas_apply";
  args_hash = "h";
  created_at = 0;
  expires_at = 1000;
  result = confirmation "c1" "vas_apply" money 900;
}

abbrev waiting : PendingAction String
waiting = record {
  id = "c1";
  tool_name = "vas_apply";
  risk = money;
  summary = "POST";
  args = obj no_more;
  created_at = 0;
  expires_at = 900;
  initiator = "session:1";
  idempotency_key = some "key-0001";
  args_hash = some "h";
  execute = "run";
}

abbrev actions : Store String
actions = record (no_actions 900 4) { actions = put [] "c1" waiting }

abbrev remembered : Ledger (Outside String) Result
remembered = record (no_ledger 1000 8) { entries = put [] "vas_apply::key-0001" preview_entry }

abbrev hash_args : Properties → String
hash_args clean = "h"

offered_again :
    (handler same_key hash_args false tool settings 500 args remembered actions).2
    ≡ replies (replayed (confirmation "c1" "vas_apply" money 900))
unfolding handler effective_dry_run is_destructive idempotency_key lookup compose_key get put
    no_ledger cleanup_expired no_actions retain replay_allowed confirmation_id is_active sweep
    remove
offered_again = refl

named_action : confirmation_id (confirmation "c1" "vas_apply" money 900) ≡ some "c1"
unfolding confirmation_id
named_action = refl

handler-is_active_example : (is_active 500 "c1" actions).1 ≡ true
handler-is_active_example =
    handler-is_active same_key hash_args false tool settings 500 actions
      (confirmation "c1" "vas_apply" money 900) "c1" named_action args remembered offered_again

-- with nothing remembered a human is asked, under the key
asked :
    (handler same_key hash_args false tool settings 500 args (no_ledger 1000 8) actions).2
    ≡ confirms (some q)
unfolding handler effective_dry_run is_destructive idempotency_key lookup compose_key get no_ledger
    cleanup_expired retain requires_confirmation clean_args strip_meta
asked = refl

handler-Passes_example : Passes hash_args tool settings args (confirms (some q))
handler-Passes_example =
    handler-Passes same_key hash_args false tool settings 500 args (no_ledger 1000 8) actions
      (confirms (some q)) asked

-- the tool is run at once where no confirmation is asked for
run_at_once :
    (handler same_key hash_args false reader settings 500 args remembered actions).2 ≡ runs none
unfolding handler effective_dry_run is_destructive idempotency_key requires_confirmation
run_at_once = refl

abbrev read_only_policy : Config
read_only_policy = record policy { mode = read_only }

abbrev registered_reader : Registration
registered_reader = record {
  annotations = risk_to_annotations read;
  environment = "prod";
  accesses_local_files = false;
  registers_executor = false;
  takes_meta_params = false;
}

reader_is_registered : define_tool reader read_only_policy ≡ some registered_reader
unfolding define_tool evaluate_policy is_destructive
reader_is_registered = refl

define_tool-read_only_sample :
    (registered_reader.annotations.read_only_hint ≡ true)
    × (registered_reader.registers_executor ≡ false)
    × (registered_reader.takes_meta_params ≡ false)
define_tool-read_only_sample =
    define_tool-read_only reader read_only_policy registered_reader refl reader_is_registered

execute_pending-arrive_example :
    let (after, reply) =
      execute_pending false same_key money 5 6 0
        (some q)
        none
        sent
        (thrown (transport network))
        ledger in
    (reply ≡ throws (upstream_outcome_unknown transport_failure_after_dispatch))
    × ((arrive same_key 999999 0 q after).1
        ≡ refusal (new_hold same_key 6 ledger q (some transport_failure_after_dispatch)) q)
unfolding is_destructive
execute_pending-arrive_example =
    execute_pending-arrive false same_key money 5 6 0 q none sent (transport network) ledger 999999
      0 q refl refl refl refl

strip_meta-set_property_sample :
    strip_meta (set_property args "dryRun" (bool true)) ≡ strip_meta args
strip_meta-set_property_sample = strip_meta-set_property args "dryRun" (bool true) refl

split_args_lem_example :
    let parts = split_args tool (some 7) args in
    (find_property parts.path_params "price"
      ≡ later_or (at_path to_body (some (num 70))) (injected (some "user_id") (some 7) "price"))
    × (find_property parts.query "price" ≡ at_query to_body (some (num 70)))
    × (body_field parts.body "price" ≡ later_or (at_body to_body (some (num 70))) none)
split_args_lem_example =
    split_args_lem tool (some 7) body args "price" (refl, (refl, (refl, tt))) refl refl

abbrev order : Properties
order = has_property "id" (num 9) (has_property "status" (str "paid") no_more)

to_structured_content_lem_sample :
    body_field (to_structured_content 200 (obj order)) "status"
    ≡ later_or (some (str "paid")) (some (num 200))
to_structured_content_lem_sample =
    to_structured_content_lem 200 order "status" (refl, (refl, tt)) refl
