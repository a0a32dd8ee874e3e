-- ===== src/Pending/Lockout.antt =====
-- Failed confirmations of core/pending-actions.ts: after how many an action is gone.
use avito_mcp.Prelude.{
  ℕ, String, ◌+◌, ◌≤◌, ◌<◌, ◌≡◌, none, some, List, [], ◌∷◌, arith, ltb, length, max, get_or,
  eq_refl, Bool-cases, inl, inr, ltb→lt, if◌then◌else◌,
}
use avito_mcp.JsMap.{get}
use avito_mcp.JsMap.Laws.{get-put, get-remove, get-retain}
use avito_mcp.Pending.{
  Store, PendingAction, is_live, still_live, cleanup_expired, record_failed_confirmation,
}

abbrev pub AllBefore : ℕ → List ℕ → Type 0
AllBefore t [] = Unit
AllBefore t (now ∷ times) = (now ≤ t) × AllBefore t times

module _ {E : Type 0} (id : String) (max_attempts : ℕ) where
  -- a wrong secret at each of the times
  pub fail_at : List ℕ → Store E → Store E
  fail_at [] s = s
  fail_at (now ∷ times) s = fail_at times (record_failed_confirmation now id max_attempts s).0

  abbrev failures : Store E → ℕ
  failures s = get_or (get s.failed_confirmation_attempts id) 0

  cleanup_keeps :
      (now : ℕ) (s : Store E) (a : PendingAction E)
      → get s.actions id ≡ some a
      → now ≤ a.expires_at
      → (get (cleanup_expired now s).actions id ≡ some a)
        × (get (cleanup_expired now s).failed_confirmation_attempts id
            ≡ get s.failed_confirmation_attempts id)
  unfolding cleanup_expired
  cleanup_keeps now s a h k = ground (
    arith,
    get-retain (λ _ b. is_live now b) s.actions id,
    get-retain (λ j _. still_live now (get s.actions j)) s.failed_confirmation_attempts id,
  )

  fail_once :
      (now : ℕ) (s : Store E) (a : PendingAction E)
      → get s.actions id ≡ some a
      → now ≤ a.expires_at
      → let s' = (record_failed_confirmation now id max_attempts s).0 in
        (get s'.actions id ≡ (if ltb (failures s + 1) (max 1 max_attempts) then some a else none))
        × (failures s + 1 < max 1 max_attempts → failures s' ≡ failures s + 1)
  unfolding record_failed_confirmation
  fail_once now s a h k =
      let swept = cleanup_expired now s in
      let keeps = cleanup_keeps now s a h k in
      ground (
        arith,
        keeps,
        get-remove swept.actions id id,
        get-put swept.failed_confirmation_attempts id (failures s + 1) id,
        eq_refl id,
      )

  fail_gone :
      (now : ℕ) (s : Store E)
      → get s.actions id ≡ none
      → get (record_failed_confirmation now id max_attempts s).0.actions id ≡ none
  unfolding record_failed_confirmation cleanup_expired
  fail_gone now s h = ground (arith, get-retain (λ _ b. is_live now b) s.actions id)

  fail_at_gone :
      (times : List ℕ) (s : Store E)
      → get s.actions id ≡ none
      → get (fail_at times s).actions id ≡ none
  unfolding fail_at
  fail_at_gone [] s h = h
  fail_at_gone (now ∷ times) s h = fail_at_gone times _ (fail_gone now s h)

  -- While its time is not over, an action survives exactly the failed confirmations that keep its
  -- counter below `max(1, maxAttempts)`; the failure that reaches it removes the action for good.
  pub fail_at_lem :
      (times : List ℕ) (s : Store E) (a : PendingAction E)
      → get s.actions id ≡ some a
      → AllBefore a.expires_at times
      → failures s < max 1 max_attempts
      → get (fail_at times s).actions id
        ≡ (if ltb (failures s + length times) (max 1 max_attempts) then some a else none)
  unfolding fail_at
  fail_at_lem [] s a h b c = ground arith
  fail_at_lem (now ∷ times) s a h b c =
      let s' = (record_failed_confirmation now id max_attempts s).0 in
      let once = fail_once now s a h b.0 in
      elim (Bool-cases (ltb (failures s + 1) (max 1 max_attempts))) [
        | inl more ↦
            let counted : failures s' ≡ failures s + 1 = once.1 (ltb→lt _ _ more) in
            let waits : get s'.actions id ≡ some a = ground (arith, once.0) in
            ground (arith, fail_at_lem times s' a waits b.1 (ground arith), counted)
        | inr last ↦
            let gone : get s'.actions id ≡ none = ground (arith, once.0) in
            ground (arith, fail_at_gone times s' gone)
      ]
