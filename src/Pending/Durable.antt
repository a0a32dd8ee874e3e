-- ===== src/Pending/Durable.antt =====
-- core/pending-actions.ts with durable records: several processes share a directory with one record
-- for each action. The body of a `withFileLock` runs as one step, since the lock of a path excludes
-- every other body on that path. Other processes may run between any two steps.
pub mod Methods
pub mod World
pub mod Once
pub mod FailClosed
mod Tests
use Prim.Native.String.{count}
use Prim.Native.Char.{code}
use avito_mcp.Prelude.{
  ℕ, String, ◌+◌, ◌*◌, Bool, true, false, ◌||◌, ◌&&◌, not, Option, none, some, List, [], ◌∷◌, ltb,
  leb, eqb, get_or, is_some, max, filter, map, any, ◌==◌, if◌then◌else◌,
}
use avito_mcp.Json.{Json}
use avito_mcp.Policy.{Risk}
use avito_mcp.JsMap.{JsMap, get, has, put, remove, values}
use avito_mcp.Pending.{
  PendingAction, PendingActionInfo, Input, Store, Change, deleted, ConfirmationFailureResult,
  not_found, emit, create, get_action, delete, take_action, complete, is_active, cleanup_expired,
  record_failed_confirmation,
}

pub data RecordState : Type 0 where
  pending claimed : RecordState

-- `PersistentPendingRecord`
pub record Record : Type 0 where
  pub version : ℕ
  pub id : String
  pub tool_name : String
  pub risk : Risk
  pub summary : String
  pub args : Json
  pub created_at : ℕ
  pub expires_at : ℕ
  pub initiator : String
  pub idempotency_key : Option String
  pub args_hash : Option String
  pub state : Option RecordState
  pub claimed_at : Option ℕ
  pub failed_confirmation_attempts : Option ℕ

-- the directory `pending`, by id
abbrev pub Directory : Type 0
Directory = JsMap Record

-- a missing state means pending
abbrev pub is_pending : Record → Bool
is_pending r = elim (get_or r.state pending) [ pending ↦ true | claimed ↦ false ]

abbrev is_hex_code : ℕ → Bool
is_hex_code c = (leb b'0' c && leb c b'9') || (leb b'a' c && leb c b'f')

all_hex : String → Bool
all_hex String.[] = true
all_hex (String.◌∷◌ c s) = is_hex_code (code c) && all_hex s

-- the test of `actionPath`
unfoldable pub has_path : String → Bool
unfolding all_hex
has_path id = eqb (count id) 32 && all_hex id

abbrev pub max_safe_integer : ℕ
max_safe_integer = 9007199254740991

-- One process: its store and the executors that its tools registered.
pub record Process {ℓ} (E : Type ℓ) : Type ℓ where
  pub store : Store E
  pub executors : JsMap (Json → Option String → Option String → E)

module _ {ℓ} {E : Type ℓ} where
  unfoldable pub register_executor :
      String → (Json → Option String → Option String → E) → Process E → Process E
  register_executor tool_name executor p = record p {
    executors = put p.executors tool_name executor;
  }

  unfoldable pub to_record : PendingAction E → Record
  to_record a = record {
    version = 1;
    id = a.id;
    tool_name = a.tool_name;
    risk = a.risk;
    summary = a.summary;
    args = a.args;
    created_at = a.created_at;
    expires_at = a.expires_at;
    initiator = a.initiator;
    idempotency_key = a.idempotency_key;
    args_hash = a.args_hash;
    state = some pending;
    claimed_at = none;
    failed_confirmation_attempts = none;
  }

  abbrev from_record : Record → E → PendingAction E
  from_record r execute = record {
    id = r.id;
    tool_name = r.tool_name;
    risk = r.risk;
    summary = r.summary;
    args = r.args;
    created_at = r.created_at;
    expires_at = r.expires_at;
    initiator = r.initiator;
    idempotency_key = r.idempotency_key;
    args_hash = r.args_hash;
    execute = execute;
  }

  abbrev with_executor :
      Record → Option (Json → Option String → Option String → E) → Option (PendingAction E)
  with_executor r none = none
  with_executor r (some executor) =
      some (from_record r (executor r.args r.idempotency_key r.args_hash))

  unfoldable pub rehydrate : ℕ → Process E → Record → Option (PendingAction E)
  rehydrate now p r =
      if not (eqb r.version 1) || ltb r.expires_at now || not (is_pending r)
      then none
      else with_executor r (get p.executors r.tool_name)

  abbrev pub in_store : Process E → Store E → Process E
  in_store p s = record p { store = s }

  -- `this.delete(id)`
  abbrev pub drop_local : String → Process E → Process E
  drop_local id p = in_store p (delete id p.store).0

  abbrev pub local_or_record : ℕ → String → Process E → Record → Option (PendingAction E)
  local_or_record now id p r = elim (get p.store.actions id) [
    | none ↦ rehydrate now p r
    | some a ↦ some a
  ]
