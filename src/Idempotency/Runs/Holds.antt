-- ===== src/Idempotency/Runs/Holds.antt =====
-- Keys of core/idempotency.ts that are refused because the outcome of an operation is unknown.
use avito_mcp.Prelude.{
  ℕ, String, ◌+◌, ◌≤◌, ◌≡◌, refl, Bool, true, false, some, List, [], ◌∷◌, arith, ◌==◌,
  if◌then◌else◌, ap, ◌∙◌,
}
use avito_mcp.JsMap.{get}
use avito_mcp.JsMap.Laws.{get-put, get-remove, get-retain}
use avito_mcp.Idempotency.{
  Entry, Hold, HoldReason, cancelled_after_dispatch, transport_failure_after_dispatch, conflict,
  held_error, Ledger, Request, is_transport, keeps_hold, cleanup_expired, slot, remember, hold,
  new_hold, lookup, release_hold, delete,
}
use avito_mcp.Idempotency.Runs.{
  Progress, refused, succeeded, outcome_unknown, failed, arrive, resume, reserve, settle,
  check_held,
}
use avito_mcp.Idempotency.Runs.Calls.{
  Call, arrives, resumes, settles, looks, remembers, holds, releases, deletes, sweeps, step, run,
}

abbrev pub refusal {ℓ} : {R : Type ℓ} → Hold → Request → Progress R
refusal h q =
    if h.args_hash == q.args_hash
    then refused (held_error h.expires_at h.reason)
    else refused conflict

-- a new hold stays: for good after a failure of the transport, and else for the time to live
pub keeps_hold-new_hold :
    {W R : Type 0} (fingerprint : String → String) (now : ℕ) (l : Ledger W R) (q : Request)
    (reason : HoldReason) (later : ℕ)
    → (reason ≡ cancelled_after_dispatch → later ≤ now + l.ttl_ms)
    → keeps_hold later (new_hold fingerprint now l q (some reason)) ≡ true
keeps_hold-new_hold fingerprint now l q cancelled_after_dispatch later live =
    ground (arith, live refl)
keeps_hold-new_hold fingerprint now l q transport_failure_after_dispatch later live = refl

module _ {W R : Type 0} (fingerprint : String → String) (k : String) where
  -- the call brings no result for the slot, and nobody lifts its hold or puts another in its place
  abbrev pub Spares : Call W R → Type 0
  Spares (settles sweep_at now w q keep ending) = (slot fingerprint q == k) ≡ false
  Spares (remembers sweep_at now w q result keep) = (slot fingerprint q == k) ≡ false
  Spares (holds now q reason) = (slot fingerprint q == k) ≡ false
  Spares (releases q) = (slot fingerprint q == k) ≡ false
  Spares (deletes q) = (slot fingerprint q == k) ≡ false
  Spares _ = Unit

  abbrev pub AllSpare : List (Call W R) → Type 0
  AllSpare [] = Unit
  AllSpare (c ∷ cs) = Spares c × AllSpare cs

  pub holds-cleanup_expired :
      (now : ℕ) (w : W) (l : Ledger W R) (h : Hold)
      → get l.holds k ≡ some h
      → keeps_hold now h ≡ true
      → get (cleanup_expired now w l).holds k ≡ some h
  unfolding cleanup_expired
  holds-cleanup_expired now w l h e keeps =
      ground (arith, get-retain (λ _ g. keeps_hold now g) l.holds k)

  holds-arrive :
      (now : ℕ) (w : W) (q : Request) (l : Ledger W R)
      → (arrive fingerprint now w q l).0.holds ≡ (cleanup_expired now w l).holds
  unfolding arrive reserve
  holds-arrive now w q l = ground arith

  holds-resume :
      (q : Request) (e : Entry R) (b : Bool) (l : Ledger W R)
      → (resume fingerprint q e b l).0.holds ≡ l.holds
  unfolding resume reserve
  holds-resume q e true l = refl
  holds-resume q e false l = ground arith

  module _ (h : Hold) (transport : is_transport h.reason ≡ true) where
    step-held :
        (l : Ledger W R) (c : Call W R)
        → Spares c
        → get l.holds k ≡ some h
        → get (step fingerprint l c).holds k ≡ some h
    unfolding step lookup release_hold delete remember settle hold
    step-held l (arrives now w q) n e =
        ap (λ m. get m k) (holds-arrive now w q l)
        ∙ holds-cleanup_expired now w l h e (ground arith)
    step-held l (resumes q entry b) n e = ap (λ m. get m k) (holds-resume q entry b l) ∙ e
    step-held l (settles sweep_at now w q keep (succeeded result)) n e =
        let swept = cleanup_expired sweep_at w l in
        ground (
          arith,
          holds-cleanup_expired sweep_at w l h e,
          get-remove swept.holds (slot fingerprint q) k,
        )
    step-held l (settles sweep_at now w q keep (outcome_unknown reason)) n e =
        ground (
          arith,
          get-put l.holds (slot fingerprint q) (new_hold fingerprint now l q (some reason)) k,
        )
    step-held l (settles sweep_at now w q keep failed) n e = e
    step-held l (looks now w q) n e = holds-cleanup_expired now w l h e (ground arith)
    step-held l (remembers sweep_at now w q result keep) n e =
        let swept = cleanup_expired sweep_at w l in
        ground (
          arith,
          holds-cleanup_expired sweep_at w l h e,
          get-remove swept.holds (slot fingerprint q) k,
        )
    step-held l (holds now q reason) n e =
        ground (arith, get-put l.holds (slot fingerprint q) (new_hold fingerprint now l q reason) k)
    step-held l (releases q) n e = ground (arith, get-remove l.holds (slot fingerprint q) k)
    step-held l (deletes q) n e = ground (arith, get-remove l.holds (slot fingerprint q) k)
    step-held l (sweeps now w) n e = holds-cleanup_expired now w l h e (ground arith)

    run-held :
        (l : Ledger W R) (cs : List (Call W R))
        → AllSpare cs
        → get l.holds k ≡ some h
        → get (run fingerprint l cs).holds k ≡ some h
    unfolding run
    run-held l [] n e = e
    run-held l (c ∷ cs) n e = run-held (step fingerprint l c) cs n.1 (step-held l c n.0 e)

  pub refused-arrive :
      (h : Hold) (now : ℕ) (w : W) (q : Request) (l : Ledger W R)
      → slot fingerprint q ≡ k
      → get l.holds k ≡ some h
      → keeps_hold now h ≡ true
      → (arrive fingerprint now w q l).1 ≡ refusal h q
  unfolding arrive
  refused-arrive h now w q l at e keeps =
      ap (λ o. (check_held fingerprint q o (cleanup_expired now w l)).1)
        (ap (get (cleanup_expired now w l).holds) at ∙ holds-cleanup_expired now w l h e keeps)
      ∙ ground arith

  -- A hold after a transport failure never lifts by itself: through any calls that bring no result for
  -- its slot and neither lift nor replace it, whatever time passes, it stays, and every later call for the slot is
  -- refused, with a conflict if the arguments differ.
  pub run-refuses :
      (h : Hold) (l : Ledger W R) (cs : List (Call W R)) (now : ℕ) (w : W) (q : Request)
      → is_transport h.reason ≡ true
      → get l.holds k ≡ some h
      → AllSpare cs
      → slot fingerprint q ≡ k
      → (get (run fingerprint l cs).holds k ≡ some h)
        × ((arrive fingerprint now w q (run fingerprint l cs)).1 ≡ refusal h q)
  run-refuses h l cs now w q transport e n at =
      let kept = run-held h transport l cs n e in
      (kept, refused-arrive h now w q (run fingerprint l cs) at kept (ground arith))
