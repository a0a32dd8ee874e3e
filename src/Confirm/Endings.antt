-- ===== src/Confirm/Endings.antt =====
-- What a confirmed action of domains/meta.ts leaves behind.
use avito_mcp.Prelude.{ℕ, String, ◌≡◌, Bool, true, false, none, some, ap, ◌∙◌, is_some}
use avito_mcp.JsMap.{get, remove}
use avito_mcp.JsMap.Laws.{get-remove_self}
use avito_mcp.Pending.{Store, PendingAction, complete, is_active}
use avito_mcp.Pending.Lifecycle.{active_lem}
use avito_mcp.Errors.{
  failed, request_not_sent, upstream_outcome_unknown, reconcile_required, refused,
}
use avito_mcp.Idempotency.{cancelled_after_dispatch, transport_failure_after_dispatch}
use avito_mcp.ToolFactory.{Reply, fresh, replayed, throws}
use avito_mcp.Confirm.{finish_confirmation}

-- the connection failed after the request was sent
abbrev pub is_lost : Reply → Bool
is_lost (throws (upstream_outcome_unknown transport_failure_after_dispatch)) = true
is_lost _ = false

module _ {E : Type 0} (says_timeout : Bool) (id : String) (later : ℕ) where
  completed_lem :
      (s : Store E) → get s.actions id ≡ none → (is_active later id (complete id s).0).1 ≡ false
  unfolding complete
  completed_lem s gone =
      active_lem later id (record s { in_flight = remove s.in_flight id }) gone
      ∙ ap is_some (get-remove_self s.in_flight id)

  -- After a claimed action was carried out its id counts as active exactly if its outcome is unknown because
  -- the connection failed: then a remembered preview of it is still offered in place of a new one, and
  -- else a new one may be asked for.
  pub finish_confirmation-is_active :
      (s : Store E) (a : PendingAction E) (reply : Reply)
      → get s.actions id ≡ none
      → get s.in_flight id ≡ some a
      → (is_active later id (finish_confirmation says_timeout id reply s).0).1 ≡ is_lost reply
  unfolding finish_confirmation
  finish_confirmation-is_active s a (fresh r) gone running = completed_lem s gone
  finish_confirmation-is_active s a (replayed r) gone running = completed_lem s gone
  finish_confirmation-is_active s a
        (throws (upstream_outcome_unknown transport_failure_after_dispatch)) gone running =
      active_lem later id s gone ∙ ap is_some running
  finish_confirmation-is_active s a (throws (upstream_outcome_unknown cancelled_after_dispatch))
        gone running =
      completed_lem s gone
  finish_confirmation-is_active s a (throws (failed f)) gone running = completed_lem s gone
  finish_confirmation-is_active s a (throws (request_not_sent e)) gone running =
      completed_lem s gone
  finish_confirmation-is_active s a (throws (reconcile_required e)) gone running =
      completed_lem s gone
  finish_confirmation-is_active s a (throws refused) gone running = completed_lem s gone
