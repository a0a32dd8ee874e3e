-- ===== src/Pending.antt =====
-- core/pending-actions.ts: the store of actions that wait for a confirmation, in one process. A
-- method takes what it reads from outside, the time and the random id, as arguments. What the
-- listeners are told is the list `notified`.
pub mod Durable
pub mod Histories
pub mod Capacity
pub mod Once
pub mod Lockout
pub mod RateLimit
pub mod Lifecycle
mod Tests
use avito_mcp.Prelude.{
  ℕ, String, ◌+◌, ◌-◌, Bool, true, false, not, ◌||◌, ◌&&◌, Option, none, some, List, [], ◌∷◌, ◌++◌,
  map, ltb, leb, length, filter, any, get_or, is_some, max, ◌==◌, if◌then◌else◌,
}
use avito_mcp.Json.{Json}
use avito_mcp.Policy.{Risk}
use avito_mcp.JsMap.{JsMap, get, has, put, remove, retain, size, values}

-- `E` is the executor: a closure that the store hands on and never calls.
pub record PendingAction {ℓ} (E : Type ℓ) : Type ℓ where
  pub id : String
  pub tool_name : String
  pub risk : Risk
  pub summary : String
  pub args : Json
  pub created_at : ℕ
  pub expires_at : ℕ
  pub initiator : String
  pub idempotency_key : Option String
  pub args_hash : Option String
  pub execute : E

pub record PendingActionInfo : Type 0 where
  pub id : String
  pub tool_name : String
  pub risk : Risk
  pub summary : String
  pub created_at : ℕ
  pub expires_at : ℕ
  pub initiator : String

-- the argument of `create`
pub record Input {ℓ} (E : Type ℓ) : Type ℓ where
  pub tool_name : String
  pub risk : Risk
  pub summary : String
  pub args : Json
  pub initiator : Option String
  pub idempotency_key : Option String
  pub args_hash : Option String
  pub execute : E

pub data Change : Type 0 where
  created deleted expired : Change

pub record Store {ℓ} (E : Type ℓ) : Type ℓ where
  pub ttl_ms : ℕ
  pub max_actions : ℕ
  pub actions : JsMap (PendingAction E)
  pub in_flight : JsMap (PendingAction E)
  pub failed_confirmation_attempts : JsMap ℕ
  pub confirmation_attempts : JsMap (List ℕ)
  pub notified : List (Change × PendingActionInfo)

pub record ConfirmationFailureResult : Type 0 where
  pub found : Bool
  pub failed_attempts : ℕ
  pub locked : Bool

pub record ConfirmationRateLimitResult : Type 0 where
  pub allowed : Bool
  pub retry_after_ms : ℕ

abbrev pub not_found : ConfirmationFailureResult
not_found = record { found = false; failed_attempts = 0; locked = false }

module _ {ℓ} {E : Type ℓ} where
  unfoldable pub to_info : PendingAction E → PendingActionInfo
  to_info a = record {
    id = a.id;
    tool_name = a.tool_name;
    risk = a.risk;
    summary = a.summary;
    created_at = a.created_at;
    expires_at = a.expires_at;
    initiator = a.initiator;
  }

  unfoldable pub init : ℕ → ℕ → Store E
  init ttl_ms max_actions = record {
    ttl_ms = ttl_ms;
    max_actions = max_actions;
    actions = [];
    in_flight = [];
    failed_confirmation_attempts = [];
    confirmation_attempts = [];
    notified = [];
  }

  abbrev pub emit : Store E → Change → PendingAction E → Store E
  emit s event a = record s { notified = s.notified ++ (event, to_info a) ∷ [] }

  abbrev pub is_live : ℕ → PendingAction E → Bool
  is_live now a = not (ltb a.expires_at now)

  -- the attempts of the actions that a sweep removes go with them
  abbrev pub still_live : ℕ → Option (PendingAction E) → Bool
  still_live now none = true
  still_live now (some a) = is_live now a

  unfoldable pub cleanup_expired : ℕ → Store E → Store E
  unfolding to_info
  cleanup_expired now s = record s {
    actions = retain (λ _ a. is_live now a) s.actions;
    failed_confirmation_attempts =
        retain (λ id _. still_live now (get s.actions id)) s.failed_confirmation_attempts;
    notified =
        s.notified
        ++ map (λ a. (expired, to_info a)) (filter (λ a. ltb a.expires_at now) (values s.actions));
  }

  abbrev pub new_action : Store E → ℕ → String → Input E → PendingAction E
  new_action s now id input = record {
    id = id;
    tool_name = input.tool_name;
    risk = input.risk;
    summary = input.summary;
    args = input.args;
    created_at = now;
    expires_at = now + s.ttl_ms;
    initiator = get_or input.initiator "session:local-stdio";
    idempotency_key = input.idempotency_key;
    args_hash = input.args_hash;
    execute = input.execute;
  }

  -- `none` is a `PendingActionLimitError`
  unfoldable pub create : ℕ → String → Input E → Store E → Store E × Option (PendingAction E)
  create now id input s =
      let swept = cleanup_expired now s in
      if leb swept.max_actions (size swept.actions + size swept.in_flight) then (swept, none) else (
        emit (record swept { actions = put swept.actions id (new_action swept now id input) })
            created (new_action swept now id input),
        some (new_action swept now id input),
      )

  unfoldable pub get_action : ℕ → String → Store E → Store E × Option (PendingAction E)
  get_action now id s = let swept = cleanup_expired now s in (swept, get swept.actions id)

  -- the listeners are told of an action that was there
  abbrev pub forget : Store E → String → Option (PendingAction E) → Store E
  forget s id none = record s {
    failed_confirmation_attempts = remove s.failed_confirmation_attempts id;
  }
  forget s id (some a) =
      emit
        (record s {
          actions = remove s.actions id;
          failed_confirmation_attempts = remove s.failed_confirmation_attempts id;
        })
        deleted a

  unfoldable pub delete : String → Store E → Store E × Bool
  delete id s = (forget s id (get s.actions id), has s.actions id)

  abbrev pub claim :
      Store E → String → Option (PendingAction E) → Store E × Option (PendingAction E)
  claim s id none = (s, none)
  claim s id (some a) = (
    emit
        (record s {
          actions = remove s.actions id;
          in_flight = put s.in_flight id a;
          failed_confirmation_attempts = remove s.failed_confirmation_attempts id;
        })
        deleted a,
    some a,
  )

  unfoldable pub take_action : ℕ → String → Store E → Store E × Option (PendingAction E)
  take_action now id s = let swept = cleanup_expired now s in claim swept id (get swept.actions id)

  unfoldable pub complete : String → Store E → Store E × Bool
  complete id s = (record s { in_flight = remove s.in_flight id }, has s.in_flight id)

  unfoldable pub is_active : ℕ → String → Store E → Store E × Bool
  is_active now id s =
      let swept = cleanup_expired now s in (swept, has swept.actions id || has swept.in_flight id)

  abbrev pub count_failure :
      Store E → String → ℕ → Option (PendingAction E) → Store E × ConfirmationFailureResult
  count_failure s id max_attempts none = (s, not_found)
  count_failure s id max_attempts (some a) =
      let failures = get_or (get s.failed_confirmation_attempts id) 0 + 1 in
      if leb (max 1 max_attempts) failures
      then (
        emit
            (record s {
              actions = remove s.actions id;
              failed_confirmation_attempts = remove s.failed_confirmation_attempts id;
            })
            deleted a,
        record { found = true; failed_attempts = failures; locked = true },
      )
      else (
        record s { failed_confirmation_attempts = put s.failed_confirmation_attempts id failures },
        record { found = true; failed_attempts = failures; locked = false },
      )

  unfoldable pub record_failed_confirmation :
      ℕ → String → ℕ → Store E → Store E × ConfirmationFailureResult
  record_failed_confirmation now id max_attempts s =
      let swept = cleanup_expired now s in
      count_failure swept id max_attempts (get swept.actions id)

  unfoldable pub reset_confirmation_failures : String → Store E → Store E
  reset_confirmation_failures id s = record s {
    failed_confirmation_attempts = remove s.failed_confirmation_attempts id;
  }

  unfoldable pub list_actions : ℕ → Store E → Store E × List PendingActionInfo
  unfolding to_info
  list_actions now s =
      let swept = cleanup_expired now s in (swept, map to_info (values swept.actions))

  -- `size()`, for tests
  unfoldable pub size_of : ℕ → Store E → Store E × ℕ
  size_of now s = let swept = cleanup_expired now s in (swept, size swept.actions)
