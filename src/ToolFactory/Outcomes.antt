-- ===== src/ToolFactory/Outcomes.antt =====
-- A request of core/client.ts, run by core/tool-factory.ts under a key of core/idempotency.ts: what the end
-- of the request means for the key.
use avito_mcp.Prelude.{
  ℕ, String, ◌+◌, ◌≤◌, ◌≡◌, ◌⊎◌, refl, Bool, true, false, Option, some, arith, suc, if◌then◌else◌,
  ap, sym, none, ◌∙◌, eq_refl,
}
use avito_mcp.Json.{Json, Properties}
use avito_mcp.JsMap.{has}
use avito_mcp.Policy.{Risk}
use avito_mcp.Client.{
  RetryConfig, Options, Round, State, Outcome, returned, thrown, init, do_request, retryable,
  Failure, api_error, transport, response_limit, missing_credentials, unexpected,
}
use avito_mcp.Client.Turns.{do_request-prepared}
use avito_mcp.Client.Dispatch.{do_request-Settled, Settled}
use avito_mcp.Errors.Kinds.{error_to_mcp_content_iff}
use avito_mcp.Errors.{error_to_mcp_content, failed}
use avito_mcp.Idempotency.{
  HoldReason, cancelled_after_dispatch, transport_failure_after_dispatch, Retain, Ledger, Request,
  slot, new_hold, new_entry, conflict,
}
use avito_mcp.Idempotency.Runs.{
  Ending, succeeded, outcome_unknown, failed as released, arrive, settle, asks, refused,
}
use avito_mcp.Idempotency.Runs.Holds.{refusal}
use avito_mcp.Idempotency.Runs.Replay.{settle_unknown-arrive, settle_succeeded-arrive}
use avito_mcp.ToolFactory.{
  ToolSpec, is_destructive, Result, execute, execute_catch, ending_of, content, is_transport_error,
}
use avito_mcp.ToolFactory.Args.{request_options, perform, perform_by}

-- how many times the request was sent without being answered with 401, by what the ledger is told
abbrev pub Unanswered : State → Ending Result → Type 0
Unanswered s released = s.dispatches ≡ s.rejections
Unanswered s (outcome_unknown reason) = s.dispatches ≡ suc s.rejections
Unanswered s (succeeded r) = s.dispatches ≤ suc s.rejections

module _ (says_timeout : Bool) (risk : Risk) (aborted : Bool) where
  abbrev pub told : Option Json → State → Outcome → Ending Result
  told structured s out =
      ending_of says_timeout (execute says_timeout risk aborted structured s out)

  told-Unanswered :
      (structured : Option Json) (s : State) (out : Outcome)
      → Settled s out
      → Unanswered s (told structured s out)
  unfolding execute ending_of execute_catch
  told-Unanswered structured s (returned status) (sent, all, once) = ground (arith, all)
  told-Unanswered structured s (thrown f) (all, once) = ground (arith, all)

  -- A call of a tool that has no executor of its own and is not retryable frees its key only if everything
  -- it sent was answered with 401, so that nothing can have been done; it reports an unknown outcome only
  -- if one sending had no such answer; and it never sends more than once beside what was answered with 401.
  pub perform-Unanswered :
      (c : RetryConfig) (spec : ToolSpec) (deadline : ℕ) (rounds : ℕ → Round) (fuel : ℕ)
      (args : Properties) (structured : Option Json) (t : State) (out : Outcome)
      → spec.custom_execute ≡ none
      → retryable (request_options spec) ≡ false
      → perform c spec deadline rounds fuel args ≡ some (t, out)
      → Unanswered t (told structured t out)
  unfolding perform
  perform-Unanswered c spec deadline rounds fuel args structured t out plain once e =
      let o = request_options spec in
      told-Unanswered structured t out (
        do_request-Settled c o deadline rounds fuel t out once
          (sym (ap (λ x. perform_by x c o deadline rounds fuel args) plain) ∙ e))

  -- why a key is held
  abbrev pub reason_of : HoldReason
  reason_of = if aborted then cancelled_after_dispatch else transport_failure_after_dispatch

  told_unknown :
      (structured : Option Json) (s : State) (f : Failure)
      → Settled s (thrown f)
      → s.dispatches ≡ suc s.rejections
      → is_destructive risk ≡ true
      → is_transport_error f ≡ true
      → told structured s (thrown f) ≡ outcome_unknown reason_of
  unfolding execute ending_of execute_catch
  told_unknown structured s (transport cause) (all, once) lost destructive failure =
      ground (arith, all, lost, destructive)
  told_unknown structured s (api_error status retry_after) settled lost destructive failure =
      ground (arith, failure)
  told_unknown structured s response_limit settled lost destructive failure =
      ground (arith, failure)
  told_unknown structured s missing_credentials settled lost destructive failure =
      ground (arith, failure)
  told_unknown structured s unexpected settled lost destructive failure = ground (arith, failure)

  told_error :
      (structured : Option Json) (s : State) (status : ℕ) (retry_after : Option ℕ)
      → aborted ≡ false
      → told structured s (thrown (api_error status retry_after))
        ≡ succeeded (content says_timeout (api_error status retry_after))
  unfolding execute ending_of execute_catch
  told_error structured s status retry_after present = ground (arith, present)

  module _ (c : RetryConfig) (o : Options) (deadline : ℕ) {W : Type 0}
      (fingerprint : String → String) where
    -- A destructive call that is not retryable, whose request was sent once without an answer and then failed
    -- in transport, is not run again under its key: every later call for the key is refused, without end if
    -- the connection failed, and for the time to live if the caller had cancelled.
    pub do_request-arrive :
        (rounds : ℕ → Round) (fuel : ℕ) (structured : Option Json) (t : State) (f : Failure)
        (sweep_at now : ℕ) (w : W) (q : Request) (keep : Option (Retain W Result))
        (l : Ledger W Result) (later : ℕ) (w' : W) (again : Request)
        → retryable o ≡ false
        → do_request c o deadline rounds fuel 0 init ≡ some (t, thrown f)
        → t.dispatches ≡ suc t.rejections
        → is_destructive risk ≡ true
        → is_transport_error f ≡ true
        → slot fingerprint again ≡ slot fingerprint q
        → (aborted ≡ true → later ≤ now + l.ttl_ms)
        → (arrive fingerprint later w' again
            (settle fingerprint sweep_at now w q keep (told structured t (thrown f)) l)).1
          ≡ refusal (new_hold fingerprint now l q (some reason_of)) again
    do_request-arrive rounds fuel structured t f sweep_at now w q keep l later w' again once e lost
          destructive failure same live =
        ap
          (λ ending.
            (arrive fingerprint later w' again
              (settle fingerprint sweep_at now w q keep ending l)).1)
          (told_unknown structured t f
            (do_request-Settled c o deadline rounds fuel t (thrown f) once e) lost destructive
            failure)
        ∙ settle_unknown-arrive fingerprint sweep_at now w q keep reason_of l later w' again same
            (λ h. live (ground (arith, h)))

    -- When the token endpoint answers 429 or 5xx before anything is sent, a call that was not cancelled ends
    -- with that error, and the error is remembered under its key: within the time to live a call under
    -- the same key with the same arguments is offered the stored error and not run, although the payload
    -- says that the call may be tried again.
    pub unsent_error-arrive :
        (rounds : ℕ → Round) (fuel : ℕ) (structured : Option Json) (status : ℕ)
        (retry_after : Option ℕ) (sweep_at now : ℕ) (w : W) (q : Request)
        (keep : Option (Retain W Result)) (l : Ledger W Result) (later : ℕ) (w' : W)
        → (rounds 0).prepared ≡ some (api_error status retry_after)
        → aborted ≡ false
        → (status ≡ 429) ⊎ ((500 ≤ status) × (suc status ≤ 600))
        → has l.reservations (slot fingerprint q) ≡ true
        → later ≤ now + l.ttl_ms
        → let f = api_error status retry_after in
          (do_request c o deadline rounds (suc fuel) 0 init ≡ some (init, thrown f))
          × ((arrive fingerprint later w' q
                (settle fingerprint sweep_at now w q keep (told structured init (thrown f)) l)).1
              ≡ asks (new_entry fingerprint now l q (content says_timeout f)))
          × ((error_to_mcp_content says_timeout (failed f)).error.retryable ≡ true)
    unsent_error-arrive rounds fuel structured status retry_after sweep_at now w q keep l later w' e
          present transient running live =
        let f = api_error status retry_after in
        let stored = content says_timeout f in
        (
          do_request-prepared c o deadline rounds fuel f e,
          ap
                (λ ending.
                  (arrive fingerprint later w' q
                    (settle fingerprint sweep_at now w q keep ending l)).1)
                (told_error structured init status retry_after present)
              ∙ settle_succeeded-arrive fingerprint sweep_at now w q stored keep l later w' q
                  running refl live
              ∙ ap
                  (λ b. if b then asks (new_entry fingerprint now l q stored) else refused conflict)
                  (eq_refl q.args_hash),
          (error_to_mcp_content_iff says_timeout (failed f)).1 transient,
        )
