-- ===== src/ToolFactory/Handler.antt =====
-- The handler of a tool in core/tool-factory.ts over the ledger and the pending actions of one process:
-- what it asks before it runs anything, in its order. A call with a key then goes through `runExclusive`.
use avito_mcp.Prelude.{
  ℕ, String, Bool, true, false, ◌&&◌, Option, none, some, get_or, ◌==◌, if◌then◌else◌,
}
use avito_mcp.Json.{Json, Properties, obj, str, bool, field, find_property}
use avito_mcp.Policy.{Config, requires_confirmation}
use avito_mcp.Pending.{Store, PendingAction, create, is_active}
use avito_mcp.Errors.{refused, reconcile_required, error_to_mcp_content}
use avito_mcp.Idempotency.{
  Entry, Error, recovery_required, held_error, Retain, Ledger, Request, lookup, delete,
}
use avito_mcp.Idempotency.Runs.{Ending, succeeded, failed as released}
use avito_mcp.ToolFactory.{
  ToolSpec, Result, answer, error_content, confirmation, Reply, fresh, replayed, is_destructive,
  risk_of,
}
use avito_mcp.ToolFactory.Args.{strip_meta, dry_run_preview}

-- what the retention callbacks of the ledger look at: the clock and the pending actions
pub record Outside {ℓ} (E : Type ℓ) : Type ℓ where
  pub now : ℕ
  pub pending : Store E

-- what a handler is given with its tool: the settings, and the account that the path may want
pub record Settings : Type 0 where
  pub policy : Config
  pub dry_run_default : Bool
  pub profile_id : Option ℕ

-- what the handler comes to: a reply, a pending action, or a run of the tool. The last two go through the
-- ledger if there is a request for it.
pub data Next : Type 0 where
  replies : Reply → Next
  confirms : Option Request → Next
  runs : Option Request → Next

abbrev pub is_bool : Option Json → Option Bool
is_bool (some (bool b)) = some b
is_bool _ = none

-- `args.dryRun`, where it is a boolean
abbrev pub dry_run_of : Properties → Option Bool
dry_run_of args = is_bool (find_property args "dryRun")

unfoldable pub effective_dry_run : ToolSpec → Settings → Properties → Bool
effective_dry_run spec settings args =
    is_destructive (risk_of spec) && get_or (dry_run_of args) settings.dry_run_default

abbrev pub key_in : Option Json → Option String
key_in (some (str key)) = if key == "" then none else some key
key_in _ = none

-- the key of a call, which only a destructive tool has
unfoldable pub idempotency_key : ToolSpec → Properties → Option String
idempotency_key spec args =
    if is_destructive (risk_of spec) then key_in (find_property args "idempotencyKey") else none

unfoldable pub clean_args : ToolSpec → Properties → Properties
clean_args spec args = if is_destructive (risk_of spec) then strip_meta args else args

abbrev id_in : Option Json → Option String
id_in (some (str id)) = some id
id_in _ = none

abbrev id_if : Option Json → Option String → Option String
id_if (some (bool true)) id = id
id_if _ id = none

abbrev id_in_answer : Option Json → Option String
id_in_answer none = none
id_in_answer (some j) = id_if (field j "requires_confirmation") (id_in (field j "confirmation_id"))

-- the pending action that a remembered result speaks of
unfoldable pub confirmation_id : Result → Option String
confirmation_id (confirmation id tool_name risk expires_at) = some id
confirmation_id (answer structured) = id_in_answer structured
confirmation_id _ = none

module _ {E : Type 0} where
  abbrev pub is_active_id : ℕ → Option String → Store E → Store E × Bool
  is_active_id now none s = (s, true)
  is_active_id now (some id) s = is_active now id s

  -- `replayAllowed`: an entry without a pending action may be replayed
  unfoldable pub replay_allowed : ℕ → Entry Result → Store E → Store E × Bool
  replay_allowed now e s = is_active_id now (confirmation_id e.result) s

  abbrev active_now : Outside E → Option String → Bool
  active_now w none = false
  active_now w (some id) = (is_active w.now id w.pending).1

  -- `retainExpired`
  unfoldable pub retain_expired : Retain (Outside E) Result
  retain_expired w e = some (active_now w (confirmation_id e.result))

-- `hashArgs` binds the key to the clean arguments
abbrev pub request_of : (hash_args : Properties → String) → ToolSpec → String → Properties → Request
request_of hash_args spec key args = record {
  key = key;
  tool_name = spec.name;
  args_hash = hash_args (clean_args spec args);
}

abbrev pub go : ToolSpec → Settings → Option Request → Next
go spec settings q =
    if requires_confirmation (risk_of spec) settings.policy then confirms q else runs q

module _ {E : Type 0} (fingerprint : String → String) (hash_args : Properties → String)
    (says_timeout : Bool) where
  -- a remembered preview whose pending action is gone makes room for a fresh one
  abbrev pub replay_or_evict :
      ToolSpec
      → Settings
      → Request
      → Entry Result
      → Ledger (Outside E) Result
      → Store E × Bool
      → Ledger (Outside E) Result × Store E × Next
  replay_or_evict spec settings q e l (s, true) = (l, s, replies (replayed e.result))
  replay_or_evict spec settings q e l (s, false) =
      ((delete fingerprint q l).0, s, go spec settings (some q))

  abbrev pub looked_up :
      ToolSpec
      → Settings
      → Request
      → ℕ
      → Store E
      → Ledger (Outside E) Result × Option (Entry Result) × Bool
      → Ledger (Outside E) Result × Store E × Next
  looked_up spec settings q now s (l, found, true) =
      (l, s, replies (fresh (error_content (error_to_mcp_content says_timeout refused))))
  looked_up spec settings q now s (l, none, false) = (l, s, go spec settings (some q))
  looked_up spec settings q now s (l, some e, false) =
      replay_or_evict spec settings q e l (replay_allowed now e s)

  abbrev pub with_key :
      ToolSpec
      → Settings
      → ℕ
      → Properties
      → Option String
      → Ledger (Outside E) Result
      → Store E
      → Ledger (Outside E) Result × Store E × Next
  with_key spec settings now args none l s = (l, s, go spec settings none)
  with_key spec settings now args (some key) l s =
      let q = request_of hash_args spec key args in
      looked_up spec settings q now s
        (lookup fingerprint now (record { now = now; pending = s }) q l)

  -- the handler up to the point where the tool is run or an action is put before a human
  unfoldable pub handler :
      ToolSpec
      → Settings
      → ℕ
      → Properties
      → Ledger (Outside E) Result
      → Store E
      → Ledger (Outside E) Result × Store E × Next
  handler spec settings now args l s =
      if effective_dry_run spec settings args
      then (
        l,
        s,
        replies (
            fresh (
              dry_run_preview says_timeout spec settings.profile_id (clean_args spec args)
                (get_or (dry_run_of args) false))),
      )
      else with_key spec settings now args (idempotency_key spec args) l s

module _ (says_timeout : Bool) where
  -- what a refusal of `runExclusive` is told as
  unfoldable pub error_reply : Error → Reply
  error_reply recovery_required =
      fresh (error_content (error_to_mcp_content says_timeout (reconcile_required none)))
  error_reply (held_error held_until reason) =
      fresh (error_content (error_to_mcp_content says_timeout (reconcile_required reason)))
  error_reply _ = fresh (error_content (error_to_mcp_content says_timeout refused))

abbrev key_of : Option Request → Option String
key_of none = none
key_of (some q) = some q.key

abbrev hash_of : Option Request → Option String
hash_of none = none
hash_of (some q) = some q.args_hash

-- `createPending`
module _ {E : Type 0} where
  abbrev confirmation_of : Option (PendingAction E) → Ending Result
  confirmation_of none = released
  confirmation_of (some a) = succeeded (confirmation a.id a.tool_name a.risk a.expires_at)

  unfoldable pub create_pending :
      ToolSpec
      → (now : ℕ) (id summary initiator : String) → Properties
      → Option Request
      → E
      → Store E
      → Store E × Ending Result
  create_pending spec now id summary initiator args q executor s =
      let (t, a) =
        create now id
          (record {
            tool_name = spec.name;
            risk = risk_of spec;
            summary = summary;
            args = obj (clean_args spec args);
            initiator = some initiator;
            idempotency_key = key_of q;
            args_hash = hash_of q;
            execute = executor;
          })
          s in
      (t, confirmation_of a)
