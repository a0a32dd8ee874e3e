-- ===== src/Pending/Capacity.antt =====
-- The store of core/pending-actions.ts never holds more than `maxActions` actions, those that are
-- being executed included.
use avito_mcp.Prelude.{ℕ, String, ◌+◌, ◌≤◌, ◌≡◌, refl, Option, none, some, List, [], ◌∷◌, arith}
use avito_mcp.JsMap.{get, size}
use avito_mcp.JsMap.Sizes.{size-put-le, size-remove-le, size-remove-has, size-retain-le}
use avito_mcp.Pending.{
  Store, PendingAction, Input, init, is_live, new_action, claim, cleanup_expired, create,
  get_action, delete, take_action, complete, is_active, record_failed_confirmation,
  reset_confirmation_failures, list_actions,
}
use avito_mcp.Pending.RateLimit.{check_confirmation_rate_limit}
use avito_mcp.Pending.Histories.{
  Call, creates, reads, deletes, takes, completes, asks, fails, resets, limits, lists, step, run,
}

module _ {ℓ} {E : Type ℓ} where
  abbrev pub load : Store E → ℕ
  load s = size s.actions + size s.in_flight

  pub record Fits (n : ℕ) (s : Store E) : Type 0 where
    pub limit : s.max_actions ≡ n
    pub within : load s ≤ n

  cleanup_expired-Fits : (n now : ℕ) (s : Store E) → Fits n s → Fits n (cleanup_expired now s)
  unfolding cleanup_expired
  cleanup_expired-Fits n now s f = ground (arith, size-retain-le (λ _ a. is_live now a) s.actions)

  create-Fits :
      (n now : ℕ) (id : String) (input : Input E) (s : Store E)
      → Fits n s
      → Fits n (create now id input s).0
  unfolding create
  create-Fits n now id input s f =
      let swept = cleanup_expired now s in
      ground (
        arith,
        cleanup_expired-Fits n now s f,
        size-put-le swept.actions id (new_action swept now id input),
      )

  delete-Fits : (n : ℕ) (id : String) (s : Store E) → Fits n s → Fits n (delete id s).0
  unfolding delete
  delete-Fits n id s f = ground (arith, size-remove-le s.actions id)

  claim-Fits :
      (n : ℕ) (id : String) (o : Option (PendingAction E)) (s : Store E)
      → get s.actions id ≡ o
      → Fits n s
      → Fits n (claim s id o).0
  claim-Fits n id none s e f = f
  claim-Fits n id (some a) s e f =
      ground (arith, size-remove-has s.actions id, size-put-le s.in_flight id a)

  take_action-Fits :
      (n now : ℕ) (id : String) (s : Store E) → Fits n s → Fits n (take_action now id s).0
  unfolding take_action
  take_action-Fits n now id s f =
      claim-Fits n id (get (cleanup_expired now s).actions id) (cleanup_expired now s) refl
        (cleanup_expired-Fits n now s f)

  complete-Fits : (n : ℕ) (id : String) (s : Store E) → Fits n s → Fits n (complete id s).0
  unfolding complete
  complete-Fits n id s f = ground (arith, size-remove-le s.in_flight id)

  record_failed_confirmation-Fits :
      (n now : ℕ) (id : String) (max_attempts : ℕ) (s : Store E)
      → Fits n s
      → Fits n (record_failed_confirmation now id max_attempts s).0
  unfolding record_failed_confirmation
  record_failed_confirmation-Fits n now id max_attempts s f =
      let swept = cleanup_expired now s in
      ground (arith, cleanup_expired-Fits n now s f, size-remove-le swept.actions id)

  check_confirmation_rate_limit-Fits :
      (n : ℕ) (principal : String) (now max_attempts window_ms : ℕ) (s : Store E)
      → Fits n s
      → Fits n (check_confirmation_rate_limit principal now max_attempts window_ms s).0
  unfolding check_confirmation_rate_limit
  check_confirmation_rate_limit-Fits n principal now max_attempts window_ms s f = ground arith

  Step-Fits : (n : ℕ) (s : Store E) (c : Call E) → Fits n s → Fits n (step s c)
  unfolding step get_action is_active reset_confirmation_failures list_actions
  Step-Fits n s (creates now id input) f = create-Fits n now id input s f
  Step-Fits n s (reads now id) f = cleanup_expired-Fits n now s f
  Step-Fits n s (deletes id) f = delete-Fits n id s f
  Step-Fits n s (takes now id) f = take_action-Fits n now id s f
  Step-Fits n s (completes id) f = complete-Fits n id s f
  Step-Fits n s (asks now id) f = cleanup_expired-Fits n now s f
  Step-Fits n s (fails now id m) f = record_failed_confirmation-Fits n now id m s f
  Step-Fits n s (resets id) f = record { limit = f.limit; within = f.within }
  Step-Fits n s (limits p now m w) f = check_confirmation_rate_limit-Fits n p now m w s f
  Step-Fits n s (lists now) f = cleanup_expired-Fits n now s f

  run-Fits : (n : ℕ) (s : Store E) (cs : List (Call E)) → Fits n s → Fits n (run s cs)
  unfolding run
  run-Fits n s [] f = f
  run-Fits n s (c ∷ cs) f = run-Fits n (step s c) cs (Step-Fits n s c f)

  -- After any calls on a new store, the actions that wait and those that are being executed are
  -- together at most `maxActions`.
  pub run-bounded :
      (ttl_ms max_actions : ℕ) (cs : List (Call E))
      → load (run (init ttl_ms max_actions) cs) ≤ max_actions
  unfolding init size
  run-bounded ttl_ms max_actions cs =
      (run-Fits max_actions (init ttl_ms max_actions) cs
        (record { limit = refl; within = omega arith })).within
