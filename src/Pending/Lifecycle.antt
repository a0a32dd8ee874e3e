-- ===== src/Pending/Lifecycle.antt =====
-- What one call on the store of core/pending-actions.ts returns, and what it leaves.
use avito_mcp.Prelude.{
  ℕ, String, ◌≤◌, ◌≡◌, ◌↔◌, refl, true, false, Option, none, some, arith, eq_refl, ap, ◌∙◌,
}
use avito_mcp.JsMap.{get, has}
use avito_mcp.JsMap.Laws.{get-put, get-remove, get-retain}
use avito_mcp.Pending.{
  Store, PendingAction, is_live, cleanup_expired, get_action, claim, take_action, complete,
  is_active,
}

module _ {ℓ} {E : Type ℓ} where
  pub actions-cleanup_expired :
      (now : ℕ) (id : String) (s : Store E) (a : PendingAction E)
      → (get (cleanup_expired now s).actions id ≡ some a)
        ↔ ((get s.actions id ≡ some a) × (now ≤ a.expires_at))
  unfolding cleanup_expired
  actions-cleanup_expired now id s a =
      ground (arith, get-retain (λ _ b. is_live now b) s.actions id)

  -- `get` returns an action exactly when it waits under the id and its time is not over.
  pub get_action_iff :
      (now : ℕ) (id : String) (s : Store E) (a : PendingAction E)
      → ((get_action now id s).1 ≡ some a) ↔ ((get s.actions id ≡ some a) × (now ≤ a.expires_at))
  unfolding get_action
  get_action_iff now id s a = actions-cleanup_expired now id s a

  pub in_flight-cleanup_expired :
      (now : ℕ) (s : Store E) → (cleanup_expired now s).in_flight ≡ s.in_flight
  unfolding cleanup_expired
  in_flight-cleanup_expired now s = refl

  waits_no_more :
      (now : ℕ) (id : String) (s : Store E)
      → get s.actions id ≡ none
      → get (cleanup_expired now s).actions id ≡ none
  unfolding cleanup_expired
  waits_no_more now id s h = ground (arith, get-retain (λ _ b. is_live now b) s.actions id)

  claim_lem :
      (id : String) (o : Option (PendingAction E)) (s : Store E) (a : PendingAction E)
      → (claim s id o).1 ≡ some a
      → (get (claim s id o).0.actions id ≡ none) × (get (claim s id o).0.in_flight id ≡ some a)
  claim_lem id none s a h = ground arith
  claim_lem id (some b) s a h =
      ground (arith, get-remove s.actions id id, get-put s.in_flight id b id, eq_refl id)

  claimed_lem :
      (id : String) (o : Option (PendingAction E)) (s : Store E) (a : PendingAction E)
      → (claim s id o).1 ≡ some a
      → o ≡ some a
  claimed_lem id none s a h = ground (arith, h)
  claimed_lem id (some b) s a h = h

  -- an action that is taken was waiting under the id, and its time was not over
  pub taken_waited :
      (now : ℕ) (id : String) (s : Store E) (a : PendingAction E)
      → (take_action now id s).1 ≡ some a
      → (get s.actions id ≡ some a) × (now ≤ a.expires_at)
  unfolding take_action
  taken_waited now id s a h =
      (actions-cleanup_expired now id s a).0
        (claimed_lem id (get (cleanup_expired now s).actions id) (cleanup_expired now s) a h)

  pub taken_apart :
      (now : ℕ) (id : String) (s : Store E) (a : PendingAction E)
      → (take_action now id s).1 ≡ some a
      → (get (take_action now id s).0.actions id ≡ none)
        × (get (take_action now id s).0.in_flight id ≡ some a)
  unfolding take_action
  taken_apart now id s a h =
      claim_lem id (get (cleanup_expired now s).actions id) (cleanup_expired now s) a h

  pub active_lem :
      (later : ℕ) (id : String) (s : Store E)
      → get s.actions id ≡ none
      → (is_active later id s).1 ≡ has s.in_flight id
  unfolding is_active
  active_lem later id s h =
      ground (arith, waits_no_more later id s h, in_flight-cleanup_expired later s)

  not_taken :
      (later : ℕ) (id : String) (s : Store E)
      → get s.actions id ≡ none
      → (take_action later id s).1 ≡ none
  unfolding take_action
  not_taken later id s h =
      ap (λ o. (claim (cleanup_expired later s) id o).1) (waits_no_more later id s h)

  completed :
      (id : String) (s : Store E)
      → ((complete id s).0.actions ≡ s.actions) × (get (complete id s).0.in_flight id ≡ none)
  unfolding complete
  completed id s = (refl, ground (arith, get-remove s.in_flight id id, eq_refl id))

  not_active :
      (later : ℕ) (id : String) (s : Store E)
      → get s.actions id ≡ none
      → (is_active later id (complete id s).0).1 ≡ false
  not_active later id s h =
      let done = completed id s in
      ground (arith, active_lem later id (complete id s).0 (ap (λ m. get m id) done.0 ∙ h), done.1)

  -- Once an action is claimed, and until it is completed, it can be neither read nor claimed again,
  -- at any later time, and yet counts as active; completing it ends that.
  pub take_action-is_active :
      (now later : ℕ) (id : String) (s : Store E) (a : PendingAction E)
      → (take_action now id s).1 ≡ some a
      → ((get_action later id (take_action now id s).0).1 ≡ none)
        × ((take_action later id (take_action now id s).0).1 ≡ none)
        × ((is_active later id (take_action now id s).0).1 ≡ true)
        × ((is_active later id (complete id (take_action now id s).0).0).1 ≡ false)
  take_action-is_active now later id s a h =
      let s' = (take_action now id s).0 in
      let apart = taken_apart now id s a h in
      (
        unfold get_action in waits_no_more later id s' apart.0,
        not_taken later id s' apart.0,
        ground (arith, active_lem later id s' apart.0),
        not_active later id s' apart.0,
      )
