-- ===== src/Confirm.antt =====
-- meta_confirm_action and meta_cancel_action of domains/meta.ts over the pending actions of one process. The
-- handler is cut where it waits: the action is looked up, then decided on, and what follows its
-- execution comes later; between these, other calls run. The texts of the answers are left out.
pub mod Decisions
pub mod Endings
mod Tests
use avito_mcp.Prelude.{
  ℕ, String, ◌==◌, Bool, true, false, not, ◌||◌, ◌&&◌, Option, none, some, get_or, is_some,
  if◌then◌else◌,
}
use avito_mcp.Policy.{Config, Decision, allowed, refused, evaluate_policy}
use avito_mcp.Pending.{
  Store, PendingAction, ConfirmationRateLimitResult, ConfirmationFailureResult, get_action, delete,
  take_action, complete, record_failed_confirmation, reset_confirmation_failures,
}
use avito_mcp.Pending.RateLimit.{check_confirmation_rate_limit}
use avito_mcp.Errors.{Thrown, upstream_outcome_unknown, error_to_mcp_content}
use avito_mcp.Idempotency.{transport_failure_after_dispatch}
use avito_mcp.ToolFactory.{Reply, fresh, throws, replayed, Result, error_content}

-- the settings that a confirmation reads; `secret` is none where it is not set
pub record Settings : Type 0 where
  pub policy : Config
  pub secret : Option String
  pub external_approval : Bool

abbrev pub max_failed_confirmation_attempts : ℕ
max_failed_confirmation_attempts = 5

abbrev pub max_rate_attempts : ℕ
max_rate_attempts = 20

abbrev pub rate_window_ms : ℕ
rate_window_ms = 60000

pub data Opened {ℓ} (E : Type ℓ) : Type ℓ where
  rate_limited : (retry_after_ms : ℕ) → Opened E
  not_found : Opened E
  opened : PendingAction E → Opened E

pub data Decided {ℓ} (E : Type ℓ) : Type ℓ where
  unavailable : Decided E
  rejected : (locked : Bool) → Decided E
  approver_must_differ : Decided E
  forbidden : (reason : String) → Decided E
  already_gone : Decided E
  executes : PendingAction E → Decided E

-- `secretsMatch`; a secret that is missing or empty never matches
abbrev pub is_confirmed_by : Option String → Option String → Bool
is_confirmed_by none provided = true
is_confirmed_by (some secret) none = false
is_confirmed_by (some secret) (some provided) = not (provided == "") && provided == secret

-- who confirms
abbrev pub confirmer : Settings → (caller : String) → String
confirmer settings caller = if is_some settings.secret then "external:secret-provider" else caller

module _ {ℓ} {E : Type ℓ} where
  abbrev looked_up : Store E × Option (PendingAction E) → Store E × Opened E
  looked_up (s, none) = (s, not_found)
  looked_up (s, some a) = (s, opened a)

  abbrev within_rate : ℕ → String → Store E × ConfirmationRateLimitResult → Store E × Opened E
  within_rate now id (s, rate) =
      if rate.allowed
      then looked_up (get_action now id s)
      else (s, rate_limited rate.retry_after_ms)

  -- the handler up to the action that it is about; only with a secret are the attempts of a caller counted
  unfoldable pub open_confirmation :
      Settings → (now : ℕ) → (caller id : String) → Store E → Store E × Opened E
  open_confirmation settings now caller id s =
      if is_some settings.secret
      then within_rate now id
          (check_confirmation_rate_limit caller now max_rate_attempts rate_window_ms s)
      else looked_up (get_action now id s)

  abbrev counted : Store E × ConfirmationFailureResult → Store E × Decided E
  counted (s, attempt) = (s, if attempt.found then rejected attempt.locked else unavailable)

  abbrev pub taken : Store E × Option (PendingAction E) → Store E × Decided E
  taken (s, none) = (s, already_gone)
  taken (s, some a) = (s, executes a)

  abbrev pub by_policy : ℕ → String → Decision → Store E → Store E × Decided E
  by_policy now id allowed s = taken (take_action now id s)
  by_policy now id (refused reason) s = ((delete id s).0, forbidden reason)

  abbrev pub by_identity :
      Settings → ℕ → (caller id : String) → PendingAction E → Store E → Store E × Decided E
  by_identity settings now caller id pending s =
      if settings.external_approval && (confirmer settings caller == pending.initiator)
      then (s, approver_must_differ)
      else by_policy now id (evaluate_policy pending.tool_name pending.risk settings.policy) s

  abbrev pub reset_if : Settings → String → Store E → Store E
  reset_if settings id s = if is_some settings.secret then reset_confirmation_failures id s else s

  -- from the action that was found to its execution: the secret, the identity of the confirmer and the
  -- policy as it is now are checked, and the action is claimed
  unfoldable pub decide_confirmation :
      Settings
      → (now : ℕ) → (caller id : String) → (provided : Option String) → PendingAction E
      → Store E
      → Store E × Decided E
  decide_confirmation settings now caller id provided pending s =
      if is_confirmed_by settings.secret provided
      then by_identity settings now caller id pending (reset_if settings id s)
      else counted (record_failed_confirmation now id max_failed_confirmation_attempts s)

  -- after the execution: a result completes the action, an outcome that is unknown because the connection
  -- failed keeps it closed, and every other error leaves it to the ledger
  unfoldable pub finish_confirmation :
      (says_timeout : Bool) → String → Reply → Store E → Store E × Reply
  finish_confirmation says_timeout id
        (throws (upstream_outcome_unknown transport_failure_after_dispatch)) s =
      (
        s,
        fresh (
            error_content (
              error_to_mcp_content says_timeout
                (upstream_outcome_unknown transport_failure_after_dispatch))),
      )
  finish_confirmation says_timeout id reply s = ((complete id s).0, reply)

  -- the handler of meta_cancel_action
  unfoldable pub cancel_action : (id : String) → Store E → Store E × Bool
  cancel_action id s = delete id s
