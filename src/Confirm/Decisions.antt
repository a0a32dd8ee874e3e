-- ===== src/Confirm/Decisions.antt =====
-- What it takes for a confirmation of domains/meta.ts to run an action.
use avito_mcp.Prelude.{
  ℕ, String, ◌≤◌, ◌≡◌, ◌≢◌, ◌⊎◌, inl, refl, true, false, ◌&&◌, Option, none, some, arith, ◌==◌,
  eq_iff, if_cases, sym,
}
use mathlib.Core.Path.{subst}
use avito_mcp.JsMap.{get}
use avito_mcp.Policy.{Decision, allowed, refused, evaluate_policy}
use avito_mcp.Policy.Levels.{IsPermitted, evaluate_policy_iff}
use avito_mcp.Pending.{Store, PendingAction, take_action, reset_confirmation_failures}
use avito_mcp.Pending.Lifecycle.{taken_apart, taken_waited}
use avito_mcp.Confirm.{
  Settings, Decided, executes, is_confirmed_by, confirmer, decide_confirmation, by_policy, taken,
  reset_if,
}

is_confirmed_by_lem :
    (secret provided : Option String)
    → is_confirmed_by secret provided ≡ true
    → (secret ≡ none) ⊎ ((secret ≡ provided) × (provided ≢ some ""))
is_confirmed_by_lem none provided h = inl refl
is_confirmed_by_lem (some secret) none h = ground (arith, h)
is_confirmed_by_lem (some secret) (some provided) h =
    ground (arith, h, eq_iff provided secret, eq_iff provided "")

module _ {E : Type 0} (settings : Settings) (now : ℕ) (caller id : String)
    (provided : Option String) where
  -- what holds of an action, and of the store, when it is handed over to be executed
  abbrev pub IsApproved : PendingAction E → Store E → Type 0
  IsApproved a t =
      ((settings.secret ≡ none) ⊎ ((settings.secret ≡ provided) × (provided ≢ some "")))
      × ((settings.external_approval ≡ false) ⊎ (confirmer settings caller ≢ a.initiator))
      × IsPermitted a.tool_name a.risk settings.policy
      × (now ≤ a.expires_at)
      × (get t.actions id ≡ none)
      × (get t.in_flight id ≡ some a)

  other_lem :
      (a : PendingAction E)
      → (settings.external_approval && confirmer settings caller == a.initiator) ≡ false
      → (settings.external_approval ≡ false) ⊎ (confirmer settings caller ≢ a.initiator)
  other_lem a h = ground (arith, h, eq_iff (confirmer settings caller) a.initiator)

  module _ (pending a : PendingAction E) where
    abbrev Holds : Store E × Decided E → Type 0
    Holds r = r.1 ≡ executes a → IsApproved a r.0

    -- what the checks of the action that was found say of the one that is taken
    taken-Holds :
        (s : Store E)
        → (get s.actions id ≡ some pending) ⊎ (get s.actions id ≡ none)
        → is_confirmed_by settings.secret provided ≡ true
        → (settings.external_approval && confirmer settings caller == pending.initiator) ≡ false
        → evaluate_policy pending.tool_name pending.risk settings.policy ≡ allowed
        → Holds (taken (take_action now id s))
    taken-Holds s kept right other permitted =
        claimed (take_action now id s) (taken_waited now id s a) (taken_apart now id s a)
      where
        approved :
            (t : Store E)
            → pending ≡ a
            → now ≤ a.expires_at
            → (get t.actions id ≡ none) × (get t.in_flight id ≡ some a)
            → IsApproved a t
        approved t same live (gone, running) = (
          is_confirmed_by_lem settings.secret provided right,
          subst
              (λ b.
                (settings.external_approval ≡ false) ⊎ (confirmer settings caller ≢ b.initiator))
              same (other_lem pending other),
          subst (λ b. IsPermitted b.tool_name b.risk settings.policy) same
              ((evaluate_policy_iff pending.tool_name pending.risk settings.policy).0 permitted),
          live,
          gone,
          running,
        )

        claimed :
            (r : Store E × Option (PendingAction E))
            → (r.1 ≡ some a → (get s.actions id ≡ some a) × (now ≤ a.expires_at))
            → (r.1 ≡ some a → (get r.0.actions id ≡ none) × (get r.0.in_flight id ≡ some a))
            → Holds (taken r)
        claimed (t, none) waited apart h = ground (arith, h)
        claimed (t, some b) waited apart h =
            let same : some b ≡ some a = ground (arith, h) in
            let (there, live) = waited same in
            approved t (ground (arith, kept, there)) live (apart same)

    by_policy-Holds :
        (d : Decision) (s : Store E)
        → evaluate_policy pending.tool_name pending.risk settings.policy ≡ d
        → (get s.actions id ≡ some pending) ⊎ (get s.actions id ≡ none)
        → is_confirmed_by settings.secret provided ≡ true
        → (settings.external_approval && confirmer settings caller == pending.initiator) ≡ false
        → Holds (by_policy now id d s)
    by_policy-Holds allowed s e kept right other = taken-Holds s kept right other e
    by_policy-Holds (refused reason) s e kept right other = λ h. ground (arith, h)

    actions-reset_if : (s : Store E) → (reset_if settings id s).actions ≡ s.actions
    unfolding reset_confirmation_failures
    actions-reset_if s = ground arith

    -- A confirmation runs an action only if the secret was given, where one is set, and was not empty; if the
    -- confirmer is not the initiator of that very action, where approval must come from outside; if the
    -- policy as it is now permits its tool and risk, and its time is not over. By then the action no longer
    -- waits, so that no other confirmation can claim it. It is assumed that what waits under the id,
    -- if anything does, is still the action that was looked up.
    pub decide_confirmation_lem :
        (s : Store E)
        → (get s.actions id ≡ some pending) ⊎ (get s.actions id ≡ none)
        → (decide_confirmation settings now caller id provided pending s).1 ≡ executes a
        → IsApproved a (decide_confirmation settings now caller id provided pending s).0
    unfolding decide_confirmation
    decide_confirmation_lem s kept =
        let kept' =
          subst (λ m. (get m id ≡ some pending) ⊎ (get m id ≡ none)) (sym (actions-reset_if s))
            kept in
        if_cases Holds (is_confirmed_by settings.secret provided) _ _
          (λ right.
            if_cases Holds
              (settings.external_approval && confirmer settings caller == pending.initiator) _ _
              (λ _ h. ground (arith, h))
              (λ other.
                by_policy-Holds (evaluate_policy pending.tool_name pending.risk settings.policy)
                  (reset_if settings id s) refl kept' right other))
          (λ _ h. ground (arith, h))
