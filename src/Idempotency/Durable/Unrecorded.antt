-- ===== src/Idempotency/Durable/Unrecorded.antt =====
-- `runExclusive` of core/idempotency.ts with a state directory, where the operation succeeds and its result
-- cannot be stored.
use avito_mcp.Prelude.{String, ◌≡◌, refl, eq_refl, ap, Option, none, some, arith}
use avito_mcp.JsMap.{get}
use avito_mcp.Idempotency.{Request}
use avito_mcp.Idempotency.Durable.{
  Directory, Attempt, succeeded, Outcome, unrecorded, outcome_of, Context, adjudicate, carried_out,
  run_persistent,
}
use avito_mcp.Idempotency.Durable.Recovery.{executions_of, ran-get, adjudicate-executions}

module _ {R : Type 0} (fingerprint : String → String) (path : String) where
  unrecorded-vacant :
      (c : Context) (q : Request) (result : R) (dir : Directory R) (o : Option (Outcome R))
      → ((out : Outcome R) → o ≡ some out → executions_of out ≡ 0)
      → (carried_out fingerprint c q path (succeeded result) o dir).1 ≡ unrecorded result
      → get (carried_out fingerprint c q path (succeeded result) o dir).0 path ≡ none
  unrecorded-vacant c q result dir none no_run h =
      ground (arith, ran-get fingerprint path c q path (succeeded result) dir, eq_refl path)
  unrecorded-vacant c q result dir (some out) no_run h = ground (arith, no_run out refl)

  -- A result that cannot be recorded, because the process's ledger is full or the file cannot be
  -- written, frees the key although the operation took effect: the next run of the same request at that
  -- path executes the operation once more.
  pub run-unrecorded :
      (c later : Context) (q : Request) (result : R) (attempt : Attempt R) (dir : Directory R)
      → (run_persistent fingerprint c q path (succeeded result) dir).1 ≡ unrecorded result
      → (run_persistent fingerprint later q path attempt
          (run_persistent fingerprint c q path (succeeded result) dir).0).1
        ≡ outcome_of fingerprint later attempt
  unfolding run_persistent adjudicate
  run-unrecorded c later q result attempt dir h =
      let after_run = (run_persistent fingerprint c q path (succeeded result) dir).0 in
      ap (λ o. (carried_out fingerprint later q path attempt (adjudicate later q o) after_run).1)
        (unrecorded-vacant c q result dir (adjudicate c q (get dir path))
          (adjudicate-executions c q (get dir path)) h)
