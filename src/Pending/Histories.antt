-- ===== src/Pending/Histories.antt =====
-- Histories of calls on the store of core/pending-actions.ts: one constructor for each method that
-- changes the store.
use avito_mcp.Prelude.{ℕ, String, List, [], ◌∷◌}
use avito_mcp.Pending.{
  Store, Input, create, get_action, delete, take_action, complete, is_active,
  record_failed_confirmation, reset_confirmation_failures, list_actions,
}
use avito_mcp.Pending.RateLimit.{check_confirmation_rate_limit}

pub data Call {ℓ} (E : Type ℓ) : Type ℓ where
  creates : (now : ℕ) → (id : String) → Input E → Call E
  reads : (now : ℕ) → (id : String) → Call E
  deletes : (id : String) → Call E
  takes : (now : ℕ) → (id : String) → Call E
  completes : (id : String) → Call E
  asks : (now : ℕ) → (id : String) → Call E
  fails : (now : ℕ) → (id : String) → (max_attempts : ℕ) → Call E
  resets : (id : String) → Call E
  limits : (principal : String) → (now max_attempts window_ms : ℕ) → Call E
  lists : (now : ℕ) → Call E

module _ {ℓ} {E : Type ℓ} where
  unfoldable pub step : Store E → Call E → Store E
  step s (creates now id input) = (create now id input s).0
  step s (reads now id) = (get_action now id s).0
  step s (deletes id) = (delete id s).0
  step s (takes now id) = (take_action now id s).0
  step s (completes id) = (complete id s).0
  step s (asks now id) = (is_active now id s).0
  step s (fails now id max_attempts) = (record_failed_confirmation now id max_attempts s).0
  step s (resets id) = reset_confirmation_failures id s
  step s (limits principal now max_attempts window_ms) =
      (check_confirmation_rate_limit principal now max_attempts window_ms s).0
  step s (lists now) = (list_actions now s).0

  unfoldable pub run : Store E → List (Call E) → Store E
  run s [] = s
  run s (c ∷ cs) = run (step s c) cs
