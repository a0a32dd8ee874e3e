-- ===== src/Pending/Tests.antt =====
-- The store of pending actions at concrete histories.
use avito_mcp.Prelude.{
  ℕ, ◌+◌, ◌≤◌, ◌≡◌, ◌↔◌, refl, true, false, none, some, List, [], ◌∷◌, arith, length, filter,
}
use avito_mcp.Json.{null}
use avito_mcp.Policy.{money}
use avito_mcp.JsMap.{get, put, retain, remove, size, map_values}
use avito_mcp.Pending.{
  Store, PendingAction, Input, init, create, get_action, take_action, is_active, complete,
  cleanup_expired,
}
use avito_mcp.Pending.RateLimit.{in_window, check_confirmation_rate_limit}
use avito_mcp.Pending.RateLimit.Window.{Times, allowed_times, allowed_times-bounded}
use avito_mcp.Pending.RateLimit.Retry.{retry_after-allowed}
use avito_mcp.Pending.Histories.{Call, creates, takes, run, step}
use avito_mcp.Pending.Capacity.{load, run-bounded}
use avito_mcp.Pending.Once.{claimed, issued, claimed-le-issued}
use avito_mcp.Pending.Lockout.{fail_at, fail_at_lem}
use avito_mcp.Pending.Lifecycle.{get_action_iff, take_action-is_active}

abbrev price_change : Input ℕ
price_change = record {
  tool_name = "items_update_price";
  risk = money;
  summary = "POST /price";
  args = null;
  initiator = none;
  idempotency_key = none;
  args_hash = none;
  execute = 7;
}

abbrev fresh : Store ℕ
fresh = init 100 2

abbrev waiting : Store ℕ
waiting = (create 10 "a1" price_change fresh).0

abbrev made : PendingAction ℕ
made = record {
  id = "a1";
  tool_name = "items_update_price";
  risk = money;
  summary = "POST /price";
  args = null;
  created_at = 10;
  expires_at = 110;
  initiator = "session:local-stdio";
  idempotency_key = none;
  args_hash = none;
  execute = 7;
}

abbrev confirmed_twice : List (Call ℕ)
confirmed_twice = creates 10 "a1" price_change ∷ takes 20 "a1" ∷ takes 21 "a1" ∷ []

claimed_once : claimed "a1" fresh confirmed_twice ≡ 1
unfolding claimed step take_action create init cleanup_expired get put retain remove size
claimed_once = refl

taken : (take_action 20 "a1" waiting).1 ≡ some made
unfolding take_action create init cleanup_expired get put retain remove size
taken = refl

run-bounded_sample : load (run fresh confirmed_twice) ≤ 2
run-bounded_sample = run-bounded 100 2 confirmed_twice

claimed-le-issued_example : claimed "a1" fresh confirmed_twice ≤ issued "a1" fresh confirmed_twice
claimed-le-issued_example = claimed-le-issued "a1" 100 2 confirmed_twice

get_action_iff_sample :
    ((get_action 20 "a1" waiting).1 ≡ some made)
    ↔ ((get waiting.actions "a1" ≡ some made) × (20 ≤ 110))
get_action_iff_sample = get_action_iff 20 "a1" waiting made

take_action-is_active_sample :
    ((get_action 500 "a1" (take_action 20 "a1" waiting).0).1 ≡ none)
    × ((take_action 500 "a1" (take_action 20 "a1" waiting).0).1 ≡ none)
    × ((is_active 500 "a1" (take_action 20 "a1" waiting).0).1 ≡ true)
    × ((is_active 500 "a1" (complete "a1" (take_action 20 "a1" waiting).0).0).1 ≡ false)
take_action-is_active_sample = take_action-is_active 20 500 "a1" waiting made taken

fail_at_lem_example : get (fail_at "a1" 2 (20 ∷ 21 ∷ []) waiting).actions "a1" ≡ none
unfolding create init cleanup_expired get put retain remove size
fail_at_lem_example =
    fail_at_lem "a1" 2 (20 ∷ 21 ∷ []) waiting made refl (omega arith) (omega arith)

abbrev calls : Times
calls = ("p", 5) ∷ ("q", 6) ∷ ("p", 7) ∷ []

allowed_times-bounded_example :
    length (filter (in_window 7 60) (allowed_times 1 60 "p" calls fresh)) ≤ 1
unfolding init
allowed_times-bounded_example = allowed_times-bounded 1 60 "p" calls fresh refl (omega arith)

abbrev used_up : Store ℕ
used_up = (check_confirmation_rate_limit "p" 5 1 60 fresh).0

retry_after-allowed_sample :
    (check_confirmation_rate_limit "p"
      (6 + (check_confirmation_rate_limit "p" 6 1 60 used_up).1.retry_after_ms)
      1
      60
      (check_confirmation_rate_limit "p" 6 1 60 used_up).0).1.allowed
    ≡ true
unfolding check_confirmation_rate_limit init get put retain map_values remove
retry_after-allowed_sample = retry_after-allowed "p" 6 1 60 used_up (omega arith) refl
