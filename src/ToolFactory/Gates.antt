-- ===== src/ToolFactory/Gates.antt =====
-- What stands before a run of a tool in core/tool-factory.ts.
use avito_mcp.Prelude.{
  ℕ, String, ◌≡◌, refl, Bool, true, false, Option, none, some, arith, if_cases, ap, sym, ◌∙◌,
}
use mathlib.Core.Path.{subst}
use avito_mcp.Json.{Json, Properties}
use avito_mcp.JsMap.Laws.{get-put_self}
use avito_mcp.Policy.{requires_confirmation, Risk}
use avito_mcp.Policy.Levels.{requires_confirmation_iff}
use avito_mcp.Pending.{Store, is_active}
use avito_mcp.Client.{Failure, State, thrown}
use avito_mcp.Errors.{upstream_outcome_unknown}
use avito_mcp.Idempotency.{
  Entry, transport_failure_after_dispatch, Ledger, Request, lookup, slot, new_hold, hold,
}
use avito_mcp.Idempotency.Runs.{arrive}
use avito_mcp.Idempotency.Runs.Holds.{refusal, refused-arrive, keeps_hold-new_hold}
use avito_mcp.ToolFactory.{
  ToolSpec, Result, risk_of, is_destructive, replayed, execute_pending, unknown, execute,
  execute_catch, end_pending, is_transport_error, throws,
}
use avito_mcp.ToolFactory.Handler.{
  Outside, Settings, Next, replies, effective_dry_run, idempotency_key, request_of, confirmation_id,
  handler, replay_allowed, is_active_id, with_key, looked_up, replay_or_evict, go,
}
use avito_mcp.ToolFactory.Calls.{
  IsKeyed, Passes, request_if, effective_dry_run-IsReal, unconfirmed, idempotency_key-IsKeyed,
}

go-Passes :
    (hash_args : Properties → String) (spec : ToolSpec) (settings : Settings) (args : Properties)
    (q : Option Request)
    → effective_dry_run spec settings args ≡ false
    → q ≡ request_if hash_args spec args (idempotency_key spec args)
    → Passes hash_args spec settings args (go spec settings q)
go-Passes hash_args spec settings args q real at =
    let meant = effective_dry_run-IsReal spec settings args real in
    let keyed =
      subst (IsKeyed hash_args spec args) (sym at) (idempotency_key-IsKeyed hash_args spec args) in
    if_cases (Passes hash_args spec settings args)
      (requires_confirmation (risk_of spec) settings.policy) _ _
      (λ needed.
        (meant, (requires_confirmation_iff (risk_of spec) settings.policy).0 needed, keyed))
      (λ free. (meant, unconfirmed (risk_of spec) settings.policy free, keyed))

module _ {E : Type 0} (fingerprint : String → String) (hash_args : Properties → String)
    (says_timeout : Bool) (spec : ToolSpec) (settings : Settings) (now : ℕ)
    (args : Properties) where
  replay_or_evict-Passes :
      (q : Request) (e : Entry Result) (l : Ledger (Outside E) Result) (answer : Store E × Bool)
      → effective_dry_run spec settings args ≡ false
      → some q ≡ request_if hash_args spec args (idempotency_key spec args)
      → Passes hash_args spec settings args
          (replay_or_evict fingerprint hash_args says_timeout spec settings q e l answer).2
  replay_or_evict-Passes q e l (s, true) real at = tt
  replay_or_evict-Passes q e l (s, false) real at =
      go-Passes hash_args spec settings args (some q) real at

  looked_up-Passes :
      (q : Request) (s : Store E) (found : Ledger (Outside E) Result × Option (Entry Result) × Bool)
      → effective_dry_run spec settings args ≡ false
      → some q ≡ request_if hash_args spec args (idempotency_key spec args)
      → Passes hash_args spec settings args
          (looked_up fingerprint hash_args says_timeout spec settings q now s found).2
  looked_up-Passes q s (l, found, true) real at = tt
  looked_up-Passes q s (l, none, false) real at =
      go-Passes hash_args spec settings args (some q) real at
  looked_up-Passes q s (l, some e, false) real at =
      replay_or_evict-Passes q e l (replay_allowed now e s) real at

  with_key-Passes :
      (key : Option String) (l : Ledger (Outside E) Result) (s : Store E)
      → effective_dry_run spec settings args ≡ false
      → key ≡ idempotency_key spec args
      → Passes hash_args spec settings args
          (with_key fingerprint hash_args says_timeout spec settings now args key l s).2
  with_key-Passes none l s real at =
      go-Passes hash_args spec settings args none real (ap (request_if hash_args spec args) at)
  with_key-Passes (some key) l s real at =
      let q = request_of hash_args spec key args in
      looked_up-Passes q s (lookup fingerprint now (record { now = now; pending = s }) q l) real
        (ap (request_if hash_args spec args) at)

  handled :
      (l : Ledger (Outside E) Result) (s : Store E)
      → Passes hash_args spec settings args
          (handler fingerprint hash_args says_timeout spec settings now args l s).2
  unfolding handler
  handled l s =
      if_cases {A = Ledger (Outside E) Result × Store E × Next}
        (λ r. Passes hash_args spec settings args r.2) (effective_dry_run spec settings args) _ _
        (λ dry. tt) (λ real. with_key-Passes (idempotency_key spec args) l s real refl)

  -- A call comes to run its tool, or to ask for a confirmation, only if the tool changes nothing or the call is
  -- no dry run: it says so itself, or it does not ask for one and the settings do not either. It asks
  -- for a confirmation only if the risk is not `sensitive` and reaches the floor of the confirmation mode,
  -- and it runs at once only if not. It goes through the ledger only if the tool changes something and the
  -- call has a key, which is not empty; it does so under that key, the name of the tool, and the hash of the
  -- arguments without the two internal ones; and it goes past the ledger only if there is no such key.
  pub handler-Passes :
      (l : Ledger (Outside E) Result) (s : Store E) (next : Next)
      → (handler fingerprint hash_args says_timeout spec settings now args l s).2 ≡ next
      → Passes hash_args spec settings args next
  handler-Passes l s next e = subst (Passes hash_args spec settings args) e (handled l s)

module _ {E : Type 0} (fingerprint : String → String) (hash_args : Properties → String)
    (says_timeout : Bool) (spec : ToolSpec) (settings : Settings) (now : ℕ) (s : Store E)
    (r : Result) (id : String) (pending : confirmation_id r ≡ some id) where
  replay_or_evict-replayed :
      (q : Request) (e : Entry Result) (l : Ledger (Outside E) Result) (answer : Store E × Bool)
      → replay_allowed now e s ≡ answer
      → (replay_or_evict fingerprint hash_args says_timeout spec settings q e l answer).2
        ≡ replies (replayed r)
      → (is_active now id s).1 ≡ true
  unfolding replay_allowed
  replay_or_evict-replayed q e l (t, true) a h =
      let same : e.result ≡ r = ground (arith, h) in
      ap (λ (x : Store E × Bool). x.1)
        (ap (λ o. is_active_id now o s) (sym pending ∙ ap confirmation_id (sym same)) ∙ a)
  replay_or_evict-replayed q e l (t, false) a h = ground (arith, h)

  looked_up-replayed :
      (q : Request) (found : Ledger (Outside E) Result × Option (Entry Result) × Bool)
      → (looked_up fingerprint hash_args says_timeout spec settings q now s found).2
        ≡ replies (replayed r)
      → (is_active now id s).1 ≡ true
  looked_up-replayed q (l, found, true) h = ground (arith, h)
  looked_up-replayed q (l, none, false) h = ground (arith, h)
  looked_up-replayed q (l, some e, false) h =
      replay_or_evict-replayed q e l (replay_allowed now e s) refl h

  with_key-replayed :
      (args : Properties) (key : Option String) (l : Ledger (Outside E) Result)
      → (with_key fingerprint hash_args says_timeout spec settings now args key l s).2
        ≡ replies (replayed r)
      → (is_active now id s).1 ≡ true
  with_key-replayed args none l h = ground (arith, h)
  with_key-replayed args (some key) l h =
      let q = request_of hash_args spec key args in
      looked_up-replayed q (lookup fingerprint now (record { now = now; pending = s }) q l) h

  -- A remembered request for a confirmation is offered again only while its pending action can still be
  -- confirmed or is being carried out.
  pub handler-is_active :
      (args : Properties) (l : Ledger (Outside E) Result)
      → (handler fingerprint hash_args says_timeout spec settings now args l s).2
        ≡ replies (replayed r)
      → (is_active now id s).1 ≡ true
  unfolding handler
  handler-is_active args l =
      if_cases {A = Ledger (Outside E) Result × Store E × Next}
        (λ x. x.2 ≡ replies (replayed r) → (is_active now id s).1 ≡ true)
        (effective_dry_run spec settings args) _ _ (λ dry h. ground (arith, h))
        (λ real h. with_key-replayed args (idempotency_key spec args) l h)

executed_lem :
    (says_timeout : Bool) (risk : Risk) (structured : Option Json) (s : State) (f : Failure)
    → is_destructive risk ≡ true
    → is_transport_error f ≡ true
    → s.dispatched ≡ true
    → execute says_timeout risk false structured s (thrown f)
      ≡ unknown transport_failure_after_dispatch f
unfolding execute execute_catch
executed_lem says_timeout risk structured s f destructive failure sent =
    ground (arith, destructive, failure, sent)

-- A confirmed action whose request was handed to the network and then failed in transport takes its key with
-- it: the confirmation is told that the outcome is unknown, and every later call for the key, at any
-- time, is refused.
pub execute_pending-arrive :
    {W : Type 0} (says_timeout : Bool) (fingerprint : String → String) (risk : Risk)
    (sweep_at now : ℕ) (w : W) (q : Request) (structured : Option Json) (s : State) (f : Failure)
    (l : Ledger W Result) (later : ℕ) (w' : W) (again : Request)
    → is_destructive risk ≡ true
    → is_transport_error f ≡ true
    → s.dispatched ≡ true
    → slot fingerprint again ≡ slot fingerprint q
    → let (after, reply) =
        execute_pending says_timeout fingerprint risk sweep_at now w
          (some q)
          structured
          s
          (thrown f)
          l in
      (reply ≡ throws (upstream_outcome_unknown transport_failure_after_dispatch))
      × ((arrive fingerprint later w' again after).1
          ≡ refusal (new_hold fingerprint now l q (some transport_failure_after_dispatch)) again)
unfolding execute_pending hold
execute_pending-arrive says_timeout fingerprint risk sweep_at now w q structured s f l later w'
      again destructive failure sent same =
    let executed = executed_lem says_timeout risk structured s f destructive failure sent in
    let held = new_hold fingerprint now l q (some transport_failure_after_dispatch) in
    (
      ap (λ e. (end_pending says_timeout fingerprint l sweep_at now w (some q) e).1) executed,
      ap
            (λ e.
              (arrive fingerprint later w' again
                (end_pending says_timeout fingerprint l sweep_at now w (some q) e).0).1)
            executed
          ∙ refused-arrive fingerprint (slot fingerprint q) held later w' again _ same
              (get-put_self l.holds (slot fingerprint q) held)
              (keeps_hold-new_hold fingerprint now l q transport_failure_after_dispatch later
                (λ h. ground (arith, h))),
    )
