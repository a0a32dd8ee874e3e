-- ===== src/Idempotency/Runs/Replay.antt =====
-- What a later call of core/idempotency.ts meets after each ending of an operation.
use avito_mcp.Prelude.{
  ℕ, String, ◌+◌, ◌≤◌, ◌≡◌, true, false, Option, none, some, arith, ◌==◌, if◌then◌else◌, ap, ◌∙◌,
}
use avito_mcp.JsMap.{get, has, put, retain}
use avito_mcp.JsMap.Laws.{get-put_self, get-remove_self, get-retain}
use avito_mcp.Idempotency.{
  Entry, HoldReason, cancelled_after_dispatch, conflict, limit_reached, Retain, Ledger, Request,
  keeps_hold, keeps_entry, cleanup_expired, has_capacity, slot, remember, hold, new_entry, new_hold,
}
use avito_mcp.Idempotency.Runs.{
  refused, asks, starts, succeeded, outcome_unknown, failed, arrive, resume, reserve, settle,
}
use avito_mcp.Idempotency.Runs.Holds.{refusal, refused-arrive, keeps_hold-new_hold}

module _ {W R : Type 0} (fingerprint : String → String) where
  -- what a call meets where no hold and one entry stand under its slot
  arrive_cached :
      (now : ℕ) (w : W) (q : Request) (l : Ledger W R) (e : Entry R)
      → get l.holds (slot fingerprint q) ≡ none
      → get l.entries (slot fingerprint q) ≡ some e
      → now ≤ e.expires_at
      → (arrive fingerprint now w q l).1
        ≡ (if e.args_hash == q.args_hash then asks e else refused conflict)
  unfolding arrive cleanup_expired
  arrive_cached now w q l e no_hold cached live = ground (
    arith,
    get-retain (λ _ h. keeps_hold now h) l.holds (slot fingerprint q),
    get-retain (keeps_entry now w l) l.entries (slot fingerprint q),
  )

  -- ... and where neither stands there
  arrive_free :
      (now : ℕ) (w : W) (q : Request) (l : Ledger W R)
      → get l.holds (slot fingerprint q) ≡ none
      → get l.entries (slot fingerprint q) ≡ none
      → get l.reservations (slot fingerprint q) ≡ none
      → (arrive fingerprint now w q l).1 ≡ (
          if has_capacity (slot fingerprint q) (cleanup_expired now w l)
          then starts
          else refused limit_reached)
  unfolding arrive cleanup_expired reserve
  arrive_free now w q l no_hold no_entry no_run = ground (
    arith,
    get-retain (λ _ h. keeps_hold now h) l.holds (slot fingerprint q),
    get-retain (keeps_entry now w l) l.entries (slot fingerprint q),
  )

  remember_lem :
      (sweep_at now : ℕ) (w : W) (q : Request) (result : R) (keep : Option (Retain W R))
      (l : Ledger W R)
      → has l.reservations (slot fingerprint q) ≡ true
      → (settle fingerprint sweep_at now w q keep (succeeded result) l).entries
        ≡ put
            (cleanup_expired sweep_at w l).entries
            (slot fingerprint q)
            (new_entry fingerprint now l q result)
  unfolding settle remember has_capacity cleanup_expired
  remember_lem sweep_at now w q result keep l running = ground arith

  settled_holds :
      (sweep_at now : ℕ) (w : W) (q : Request) (result : R) (keep : Option (Retain W R))
      (l : Ledger W R)
      → has l.reservations (slot fingerprint q) ≡ true
      → get
          (settle fingerprint sweep_at now w q keep (succeeded result) l).holds
          (slot fingerprint q)
        ≡ none
  unfolding settle remember has_capacity cleanup_expired
  settled_holds sweep_at now w q result keep l running =
      ground (
        arith,
        get-remove_self (retain (λ _ h. keeps_hold sweep_at h) l.holds) (slot fingerprint q),
      )

  -- After an operation that ran under a reservation succeeds, a call for its slot within the time to
  -- live is offered the very result, if its arguments are the same, and is refused as a conflict if
  -- they are not: the operation is not run again.
  pub settle_succeeded-arrive :
      (sweep_at now : ℕ) (w : W) (q : Request) (result : R) (keep : Option (Retain W R))
      (l : Ledger W R)
      → (later : ℕ) (w' : W) (again : Request) → has l.reservations (slot fingerprint q) ≡ true
      → slot fingerprint again ≡ slot fingerprint q
      → later ≤ now + l.ttl_ms
      → (arrive fingerprint later w' again
          (settle fingerprint sweep_at now w q keep (succeeded result) l)).1
        ≡ (if q.args_hash == again.args_hash
            then asks (new_entry fingerprint now l q result)
            else refused conflict)
  settle_succeeded-arrive sweep_at now w q result keep l later w' again running same live =
      let settled = settle fingerprint sweep_at now w q keep (succeeded result) l in
      let e = new_entry fingerprint now l q result in
      arrive_cached later w' again settled e
        (ap (get settled.holds) same ∙ settled_holds sweep_at now w q result keep l running)
        (ap (get settled.entries) same
          ∙ ap (λ m. get m (slot fingerprint q))
              (remember_lem sweep_at now w q result keep l running)
          ∙ get-put_self (cleanup_expired sweep_at w l).entries (slot fingerprint q) e)
        live

  -- After an operation fails in a way that rules out an effect, the slot is free: the next call starts
  -- the operation anew, or is refused for lack of room.
  pub settle_failed-arrive :
      (sweep_at now : ℕ) (w : W) (q : Request) (keep : Option (Retain W R)) (l : Ledger W R)
      → (later : ℕ) (w' : W) → get l.holds (slot fingerprint q) ≡ none
      → get l.entries (slot fingerprint q) ≡ none
      → let settled = settle fingerprint sweep_at now w q keep failed l in
        (arrive fingerprint later w' q settled).1 ≡ (
          if has_capacity (slot fingerprint q) (cleanup_expired later w' settled)
          then starts
          else refused limit_reached)
  unfolding settle
  settle_failed-arrive sweep_at now w q keep l later w' no_hold no_entry =
      arrive_free later w' q _ no_hold no_entry
        (get-remove_self l.reservations (slot fingerprint q))

  -- After an operation ends with an unknown outcome every later call for its slot is refused: without
  -- end if the transport failed, and until the time to live is over if the call was cancelled.
  pub settle_unknown-arrive :
      (sweep_at now : ℕ) (w : W) (q : Request) (keep : Option (Retain W R)) (reason : HoldReason)
      (l : Ledger W R)
      → (later : ℕ) (w' : W) (again : Request) → slot fingerprint again ≡ slot fingerprint q
      → (reason ≡ cancelled_after_dispatch → later ≤ now + l.ttl_ms)
      → (arrive fingerprint later w' again
          (settle fingerprint sweep_at now w q keep (outcome_unknown reason) l)).1
        ≡ refusal (new_hold fingerprint now l q (some reason)) again
  unfolding settle hold
  settle_unknown-arrive sweep_at now w q keep reason l later w' again same live =
      refused-arrive fingerprint (slot fingerprint q) (new_hold fingerprint now l q (some reason))
        later w' again _ same
        (get-put_self l.holds (slot fingerprint q) (new_hold fingerprint now l q (some reason)))
        (keeps_hold-new_hold fingerprint now l q reason later live)

  resume_settled :
      (sweep_at now : ℕ) (w : W) (q : Request) (keep : Option (Retain W R)) (reason : HoldReason)
      (l : Ledger W R) (cached : Entry R)
      → (resume fingerprint q cached false
          (settle fingerprint sweep_at now w q keep (outcome_unknown reason) l)).1
        ≡ starts
  unfolding settle hold resume reserve has_capacity
  resume_settled sweep_at now w q keep reason l cached = ground (
    arith,
    get-remove_self l.reservations (slot fingerprint q),
    get-put_self l.holds (slot fingerprint q) (new_hold fingerprint now l q (some reason)),
  )

  -- While one call waits for the answer whether a cached result may be replayed, an operation under the
  -- same slot may end with an unknown outcome. If the answer is then no, the waiting call starts the
  -- operation, although a call that arrives for the slot is refused then (without end if the connection
  -- failed, and for the time to live if the operation was cancelled).
  pub settle_unknown-resume :
      (sweep_at now : ℕ) (w : W) (q : Request) (keep : Option (Retain W R)) (reason : HoldReason)
      (l : Ledger W R)
      → (cached : Entry R) (later : ℕ) (w' : W) (again : Request)
      → slot fingerprint again ≡ slot fingerprint q
      → (reason ≡ cancelled_after_dispatch → later ≤ now + l.ttl_ms)
      → let settled = settle fingerprint sweep_at now w q keep (outcome_unknown reason) l in
        ((resume fingerprint q cached false settled).1 ≡ starts)
        × ((arrive fingerprint later w' again settled).1
            ≡ refusal (new_hold fingerprint now l q (some reason)) again)
  settle_unknown-resume sweep_at now w q keep reason l cached later w' again same live = (
    resume_settled sweep_at now w q keep reason l cached,
    settle_unknown-arrive sweep_at now w q keep reason l later w' again same live,
  )
