-- ===== src/Idempotency/Runs/Exclusion.antt =====
-- When a second operation can start under one idempotency key of core/idempotency.ts.
use avito_mcp.Prelude.{
  ℕ, String, ◌+◌, ◌≤◌, ◌≡◌, refl, Bool, true, false, ◌&&◌, Option, List, [], ◌∷◌, arith, bit,
  eq_iff, ◌==◌,
}
use avito_mcp.JsMap.{has}
use avito_mcp.JsMap.Laws.{get-put, get-remove}
use avito_mcp.Idempotency.{
  Entry, Retain, Ledger, Request, cleanup_expired, slot, remember, hold, lookup, release_hold,
  delete,
}
use avito_mcp.Idempotency.Runs.{Progress, starts, Ending, arrive, resume, reserve, settle}
use avito_mcp.Idempotency.Runs.Calls.{
  Call, arrives, resumes, settles, looks, remembers, holds, releases, deletes, sweeps, step, run,
}

abbrev pub is_start {ℓ} : {R : Type ℓ} → Progress R → Bool
is_start starts = true
is_start _ = false

module _ {W R : Type 0} (fingerprint : String → String) (k : String) where
  abbrev pub busy : Ledger W R → ℕ
  busy l = bit (has l.reservations k)

  -- 1 for a call that starts the operation under the slot
  abbrev pub started : Ledger W R → Call W R → ℕ
  started l (arrives now w q) =
      bit (slot fingerprint q == k && is_start (arrive fingerprint now w q l).1)
  started l (resumes q e b) =
      bit (slot fingerprint q == k && is_start (resume fingerprint q e b l).1)
  started l _ = 0

  -- 1 for the end of an operation under the slot
  abbrev pub ended : Call W R → ℕ
  ended (settles sweep_at now w q keep ending) = bit (slot fingerprint q == k)
  ended _ = 0

  -- 1 for a result that is recorded for the slot by other means than the end of its operation
  abbrev pub recorded : Call W R → ℕ
  recorded (remembers sweep_at now w q result keep) = bit (slot fingerprint q == k)
  recorded _ = 0

  reserve-busy :
      (q : Request) (l : Ledger W R)
      → bit (slot fingerprint q == k && is_start (reserve fingerprint q l).1) + busy l
        ≤ busy (reserve fingerprint q l).0
  unfolding reserve
  reserve-busy q l = ground (
    arith,
    get-put l.reservations (slot fingerprint q) (record { args_hash = q.args_hash }) k,
    eq_iff (slot fingerprint q) k,
  )

  reservations-cleanup_expired :
      (now : ℕ) (w : W) (l : Ledger W R) → (cleanup_expired now w l).reservations ≡ l.reservations
  unfolding cleanup_expired
  reservations-cleanup_expired now w l = refl

  arrive-busy :
      (now : ℕ) (w : W) (q : Request) (l : Ledger W R)
      → bit (slot fingerprint q == k && is_start (arrive fingerprint now w q l).1) + busy l
        ≤ busy (arrive fingerprint now w q l).0
  unfolding arrive
  arrive-busy now w q l =
      let swept = cleanup_expired now w l in
      ground (arith, reserve-busy q swept, reservations-cleanup_expired now w l)

  resume-busy :
      (q : Request) (e : Entry R) (b : Bool) (l : Ledger W R)
      → bit (slot fingerprint q == k && is_start (resume fingerprint q e b l).1) + busy l
        ≤ busy (resume fingerprint q e b l).0
  unfolding resume
  resume-busy q e true l = ground arith
  resume-busy q e false l = reserve-busy q _

  remember-busy :
      (sweep_at now : ℕ) (w : W) (q : Request) (result : R) (keep : Option (Retain W R))
      (l : Ledger W R)
      → busy l
        ≤ bit (slot fingerprint q == k)
          + busy (remember fingerprint sweep_at now w q result keep l).0
  unfolding remember
  remember-busy sweep_at now w q result keep l = ground (
    arith,
    get-remove l.reservations (slot fingerprint q) k,
    reservations-cleanup_expired sweep_at w l,
  )

  settle-busy :
      (sweep_at now : ℕ) (w : W) (q : Request) (keep : Option (Retain W R)) (ending : Ending R)
      (l : Ledger W R)
      → busy l
        ≤ bit (slot fingerprint q == k) + busy (settle fingerprint sweep_at now w q keep ending l)
  unfolding settle hold remember
  settle-busy sweep_at now w q keep ending l = ground (
    arith,
    get-remove l.reservations (slot fingerprint q) k,
    reservations-cleanup_expired sweep_at w l,
  )

  step-busy :
      (l : Ledger W R) (c : Call W R)
      → started l c + busy l ≤ ended c + recorded c + busy (step fingerprint l c)
  unfolding step hold lookup release_hold delete cleanup_expired
  step-busy l (arrives now w q) = omega (arith, arrive-busy now w q l)
  step-busy l (resumes q e b) = omega (arith, resume-busy q e b l)
  step-busy l (settles sweep_at now w q keep ending) =
      omega (arith, settle-busy sweep_at now w q keep ending l)
  step-busy l (looks now w q) = omega arith
  step-busy l (remembers sweep_at now w q result keep) =
      omega (arith, remember-busy sweep_at now w q result keep l)
  step-busy l (holds now q reason) = omega arith
  step-busy l (releases q) = omega arith
  step-busy l (deletes q) = omega arith
  step-busy l (sweeps now w) = omega arith

  unfoldable pub all_started : Ledger W R → List (Call W R) → ℕ
  all_started l [] = 0
  all_started l (c ∷ cs) = started l c + all_started (step fingerprint l c) cs

  unfoldable pub all_ended : List (Call W R) → ℕ
  all_ended [] = 0
  all_ended (c ∷ cs) = ended c + all_ended cs

  unfoldable pub all_recorded : List (Call W R) → ℕ
  all_recorded [] = 0
  all_recorded (c ∷ cs) = recorded c + all_recorded cs

  run-busy :
      (l : Ledger W R) (cs : List (Call W R))
      → all_started l cs + busy l ≤ all_ended cs + all_recorded cs + busy (run fingerprint l cs)
  unfolding run all_started all_ended all_recorded
  run-busy l [] = omega arith
  run-busy l (c ∷ cs) = omega (arith, step-busy l c, run-busy (step fingerprint l c) cs)

  -- In any history the operation under a slot has been started at most once more than such operations have
  -- ended and than results were recorded for the slot by other means, as by a confirmed action: as long as
  -- nothing is recorded so, no second operation starts while the first is still running.
  pub all_started-bounded :
      (l : Ledger W R) (cs : List (Call W R))
      → all_started l cs ≤ all_ended cs + all_recorded cs + 1
  all_started-bounded l cs = ground (arith, run-busy l cs)
