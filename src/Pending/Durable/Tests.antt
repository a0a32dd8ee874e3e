-- ===== src/Pending/Durable/Tests.antt =====
-- Durable pending actions at concrete schedules.
use avito_mcp.Prelude.{ℕ, String, ◌≤◌, ◌≡◌, refl, true, none, some, List, [], ◌∷◌}
use avito_mcp.Json.{null}
use avito_mcp.Policy.{money}
use avito_mcp.JsMap.{get}
use avito_mcp.Pending.{Input, init}
use avito_mcp.Pending.Durable.{Record, Process, claimed, has_path}
use avito_mcp.Pending.Durable.Methods.{is_active_persistent}
use avito_mcp.Pending.Durable.World.{World, Call, creates, takes, sweeps, restarts, run}
use avito_mcp.Pending.Durable.Once.{claimed_by, issued_by, claimed_by-le-issued_by}
use avito_mcp.Pending.Durable.FailClosed.{run-claimed}

abbrev hex_id : String
hex_id = "0123456789abcdef0123456789abcdef"

hex_id-path : has_path hex_id ≡ true
unfolding has_path
hex_id-path = refl

abbrev started : Process ℕ
started = record { store = init 100 2; executors = ("items_update_price", λ _ _ _. 7) ∷ [] }

abbrev empty_world : World ℕ
empty_world = record { dir = []; processes = λ i. started }

abbrev price_change : Input ℕ
price_change = record {
  tool_name = "items_update_price";
  risk = money;
  summary = "POST /price";
  args = null;
  initiator = none;
  idempotency_key = none;
  args_hash = none;
  execute = 7;
}

abbrev race : List (ℕ × Call ℕ)
race =
    (0, creates 10 hex_id price_change true)
    ∷ (1, takes 20 20 hex_id)
    ∷ (2, takes 20 21 hex_id)
    ∷ []

claimed_by-le-issued_by_example :
    claimed_by hex_id empty_world race ≤ issued_by hex_id empty_world race
unfolding get
claimed_by-le-issued_by_example = claimed_by-le-issued_by hex_id empty_world race hex_id-path refl

abbrev claimed_price : Record
claimed_price = record {
  version = 1;
  id = hex_id;
  tool_name = "items_update_price";
  risk = money;
  summary = "POST /price";
  args = null;
  created_at = 10;
  expires_at = 110;
  initiator = "session:local-stdio";
  idempotency_key = none;
  args_hash = none;
  state = some claimed;
  claimed_at = some 20;
  failed_confirmation_attempts = none;
}

abbrev after_claim : World ℕ
after_claim = record { dir = (hex_id, claimed_price) ∷ []; processes = λ i. started }

abbrev owner_stops : List (ℕ × Call ℕ)
owner_stops = (1, restarts started) ∷ (0, sweeps 900 hex_id) ∷ (0, takes 901 901 hex_id) ∷ []

run-claimed_example :
    (get (run after_claim owner_stops).dir hex_id ≡ some claimed_price)
    × ((is_active_persistent 999 hex_id
          (run after_claim owner_stops).dir
          ((run after_claim owner_stops).processes 0)).2
        ≡ true)
unfolding get
run-claimed_example =
    run-claimed hex_id claimed_price after_claim owner_stops 0 999 hex_id-path refl refl
      (tt, (tt, (tt, tt)))
