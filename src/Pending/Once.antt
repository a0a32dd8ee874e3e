-- ===== src/Pending/Once.antt =====
-- An action of core/pending-actions.ts is handed to its executor at most once.
use avito_mcp.Prelude.{
  ℕ, String, ◌+◌, ◌≤◌, ◌≡◌, refl, ◌&&◌, Option, none, some, List, [], ◌∷◌, arith, is_some, bit,
  eq_iff, ◌==◌,
}
use avito_mcp.JsMap.{get, has}
use avito_mcp.JsMap.Laws.{get-put, get-remove, get-retain}
use avito_mcp.Pending.{
  Store, PendingAction, Input, init, is_live, cleanup_expired, create, get_action, delete,
  new_action, claim, take_action, complete, is_active, record_failed_confirmation,
  reset_confirmation_failures, list_actions,
}
use avito_mcp.Pending.RateLimit.{check_confirmation_rate_limit}
use avito_mcp.Pending.Histories.{
  Call, creates, reads, deletes, takes, completes, asks, fails, resets, limits, lists, step, run,
}

module _ {ℓ} {E : Type ℓ} (id : String) where
  abbrev waits : Store E → ℕ
  waits s = bit (has s.actions id)

  -- 1 for a call that hands the action out
  abbrev claims : Store E → Call E → ℕ
  claims s (takes now j) = bit (j == id && is_some (take_action now j s).1)
  claims s _ = 0

  -- 1 for a call that creates an action under this id
  abbrev issues : Store E → Call E → ℕ
  issues s (creates now j input) = bit (j == id && is_some (create now j input s).1)
  issues s _ = 0

  unfoldable pub claimed : Store E → List (Call E) → ℕ
  claimed s [] = 0
  claimed s (c ∷ cs) = claims s c + claimed (step s c) cs

  unfoldable pub issued : Store E → List (Call E) → ℕ
  issued s [] = 0
  issued s (c ∷ cs) = issues s c + issued (step s c) cs

  waits-cleanup_expired : (now : ℕ) (s : Store E) → waits (cleanup_expired now s) ≤ waits s
  unfolding cleanup_expired
  waits-cleanup_expired now s = ground (arith, get-retain (λ _ a. is_live now a) s.actions id)

  waits-create :
      (now : ℕ) (j : String) (input : Input E) (s : Store E)
      → waits (create now j input s).0 ≤ bit (j == id && is_some (create now j input s).1) + waits s
  unfolding create
  waits-create now j input s =
      let swept = cleanup_expired now s in
      ground (
        arith,
        waits-cleanup_expired now s,
        get-put swept.actions j (new_action swept now j input) id,
      )

  waits-delete : (j : String) (s : Store E) → waits (delete j s).0 ≤ waits s
  unfolding delete
  waits-delete j s = ground (arith, get-remove s.actions j id)

  waits-claim :
      (j : String) (o : Option (PendingAction E)) (s : Store E)
      → get s.actions j ≡ o
      → bit (j == id && is_some (claim s j o).1) + waits (claim s j o).0 ≤ waits s
  waits-claim j none s e = ground arith
  waits-claim j (some a) s e = ground (arith, get-remove s.actions j id, eq_iff j id)

  waits-take_action :
      (now : ℕ) (j : String) (s : Store E)
      → bit (j == id && is_some (take_action now j s).1) + waits (take_action now j s).0 ≤ waits s
  unfolding take_action
  waits-take_action now j s =
      let swept = cleanup_expired now s in
      omega (arith, waits-claim j (get swept.actions j) swept refl, waits-cleanup_expired now s)

  waits-record_failed_confirmation :
      (now : ℕ) (j : String) (m : ℕ) (s : Store E)
      → waits (record_failed_confirmation now j m s).0 ≤ waits s
  unfolding record_failed_confirmation
  waits-record_failed_confirmation now j m s =
      let swept = cleanup_expired now s in
      ground (arith, waits-cleanup_expired now s, get-remove swept.actions j id)

  waits-step : (s : Store E) (c : Call E) → claims s c + waits (step s c) ≤ issues s c + waits s
  unfolding step get_action is_active reset_confirmation_failures list_actions complete
      check_confirmation_rate_limit
  waits-step s (creates now j input) = omega (arith, waits-create now j input s)
  waits-step s (reads now j) = omega (arith, waits-cleanup_expired now s)
  waits-step s (deletes j) = omega (arith, waits-delete j s)
  waits-step s (takes now j) = omega (arith, waits-take_action now j s)
  waits-step s (completes j) = omega arith
  waits-step s (asks now j) = omega (arith, waits-cleanup_expired now s)
  waits-step s (fails now j m) = omega (arith, waits-record_failed_confirmation now j m s)
  waits-step s (resets j) = omega arith
  waits-step s (limits p now m w) = ground arith
  waits-step s (lists now) = omega (arith, waits-cleanup_expired now s)

  waits-run :
      (s : Store E) (cs : List (Call E)) → claimed s cs + waits (run s cs) ≤ issued s cs + waits s
  unfolding run claimed issued
  waits-run s [] = omega arith
  waits-run s (c ∷ cs) = omega (arith, waits-step s c, waits-run (step s c) cs)

waits-init {ℓ} :
    (E : Type ℓ) (id : String) (ttl_ms max_actions : ℕ)
    → waits {E = E} id (init ttl_ms max_actions) ≡ 0
unfolding init get
waits-init E id ttl_ms max_actions = refl

-- In any history of calls on a new store, an id is handed out for execution at most as often as an
-- action was created under it, however confirmations, cancellations, failures and expiry interleave.
pub claimed-le-issued {ℓ} :
    {E : Type ℓ} (id : String) (ttl_ms max_actions : ℕ) (cs : List (Call E))
    → claimed id (init ttl_ms max_actions) cs ≤ issued id (init ttl_ms max_actions) cs
claimed-le-issued {E} id ttl_ms max_actions cs =
    omega (arith, waits-run id (init ttl_ms max_actions) cs, waits-init E id ttl_ms max_actions)
