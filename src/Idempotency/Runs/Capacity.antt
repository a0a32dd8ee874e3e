-- ===== src/Idempotency/Runs/Capacity.antt =====
-- How full the ledger of core/idempotency.ts can get.
use avito_mcp.Prelude.{
  ℕ, String, ◌+◌, ◌≤◌, ◌≡◌, refl, true, false, not, ◌||◌, Option, none, some, List, [], ◌∷◌, arith,
  bit,
}
use avito_mcp.JsMap.{get, has, size}
use avito_mcp.JsMap.Laws.{get-remove_self}
use avito_mcp.JsMap.Sizes.{
  size-put-has, size-put-le, size-remove-le, size-remove-has, size-retain-le,
}
use avito_mcp.Idempotency.{
  Entry, Reservation, Retain, Ledger, Request, init, keeps_hold, keeps_entry, cleanup_expired,
  has_capacity, slot, remember, hold, new_entry, new_hold, release_hold, HoldReason, lookup, delete,
}
use avito_mcp.Idempotency.Runs.{
  Ending, succeeded, outcome_unknown, failed, arrive, resume, reserve, settle,
}
use avito_mcp.Idempotency.Runs.Calls.{
  Call, arrives, resumes, settles, looks, remembers, holds, releases, deletes, sweeps, step, run,
}

module _ {W R : Type 0} where
  abbrev pub total : Ledger W R → ℕ
  total l = size l.entries + size l.reservations + size l.holds

  -- the limit is `n`, which at most `m` records exceed
  record Fits (n m : ℕ) (l : Ledger W R) : Type 0 where
    limit : l.max_entries ≡ n
    within : total l ≤ n + m

  cleanup_expired-Fits :
      (n m now : ℕ) (w : W) (l : Ledger W R) → Fits n m l → Fits n m (cleanup_expired now w l)
  unfolding cleanup_expired
  cleanup_expired-Fits n m now w l f = ground (
    arith,
    size-retain-le (keeps_entry now w l) l.entries,
    size-retain-le (λ _ h. keeps_hold now h) l.holds,
  )

  reservations-cleanup_expired :
      (now : ℕ) (w : W) (l : Ledger W R) → (cleanup_expired now w l).reservations ≡ l.reservations
  unfolding cleanup_expired
  reservations-cleanup_expired now w l = refl

  module _ (fingerprint : String → String) where
    -- 1 for a call that enters something without asking for room: a hold under a slot that has neither a
    -- result nor a hold, an operation whose outcome is unknown and whose reservation is gone, and an
    -- operation that goes on under a held slot
    abbrev pub unchecked : Ledger W R → Call W R → ℕ
    unchecked l (resumes q e false) = bit (has l.holds (slot fingerprint q))
    unchecked l (settles sweep_at now w q keep (outcome_unknown reason)) =
        bit (not (has l.reservations (slot fingerprint q)))
    unchecked l (holds now q reason) =
        bit (not (has l.entries (slot fingerprint q) || has l.holds (slot fingerprint q)))
    unchecked l _ = 0

    unfoldable pub all_unchecked : Ledger W R → List (Call W R) → ℕ
    all_unchecked l [] = 0
    all_unchecked l (c ∷ cs) = unchecked l c + all_unchecked (step fingerprint l c) cs

  module _ (fingerprint : String → String) (n m : ℕ) where
    reserve-Fits :
        (q : Request) (l : Ledger W R)
        → get l.entries (slot fingerprint q) ≡ none
        → Fits n m l
        → Fits n (m + bit (has l.holds (slot fingerprint q))) (reserve fingerprint q l).0
    unfolding reserve has_capacity
    reserve-Fits q l no_entry f =
        let r : Reservation = record { args_hash = q.args_hash } in
        ground (
          arith,
          size-put-has l.reservations (slot fingerprint q) r,
          size-put-le l.reservations (slot fingerprint q) r,
        )

    arrive-Fits :
        (now : ℕ) (w : W) (q : Request) (l : Ledger W R)
        → Fits n m l
        → Fits n m (arrive fingerprint now w q l).0
    unfolding arrive
    arrive-Fits now w q l f =
        let swept = cleanup_expired now w l in
        ground (arith, cleanup_expired-Fits n m now w l f, reserve-Fits q swept)

    resume-Fits :
        (q : Request) (e : Entry R) (l : Ledger W R)
        → Fits n m l
        → Fits n
            (m + unchecked fingerprint l (resumes q e false))
            (resume fingerprint q e false l).0
    unfolding resume
    resume-Fits q e l f =
        reserve-Fits q _ (get-remove_self l.entries (slot fingerprint q)) (record {
          limit = f.limit;
          within = omega (arith, size-remove-le l.entries (slot fingerprint q), f.within);
        })

    remember-Fits :
        (sweep_at now : ℕ) (w : W) (q : Request) (result : R) (keep : Option (Retain W R))
        (l : Ledger W R)
        → Fits n m l
        → Fits n m (remember fingerprint sweep_at now w q result keep l).0
    unfolding remember has_capacity
    remember-Fits sweep_at now w q result keep l f =
        let swept = cleanup_expired sweep_at w l in
        let e = new_entry fingerprint now swept q result in
        ground (
          arith,
          cleanup_expired-Fits n m sweep_at w l f,
          size-remove-has swept.reservations (slot fingerprint q),
          size-remove-le swept.reservations (slot fingerprint q),
          size-remove-has swept.holds (slot fingerprint q),
          size-remove-le swept.holds (slot fingerprint q),
          size-put-has swept.entries (slot fingerprint q) e,
          size-put-le swept.entries (slot fingerprint q) e,
        )

    hold-Fits :
        (now : ℕ) (q : Request) (reason : Option HoldReason) (l : Ledger W R)
        → Fits n m l
        → Fits n
            (m + unchecked fingerprint l (holds now q reason))
            (hold fingerprint now q reason l)
    unfolding hold
    hold-Fits now q reason l f = ground (
      arith,
      f.limit,
      f.within,
      size-remove-has l.entries (slot fingerprint q),
      size-remove-le l.entries (slot fingerprint q),
      size-put-has l.holds (slot fingerprint q) (new_hold fingerprint now l q reason),
      size-put-le l.holds (slot fingerprint q) (new_hold fingerprint now l q reason),
    )

    settle-Fits :
        (sweep_at now : ℕ) (w : W) (q : Request) (keep : Option (Retain W R)) (ending : Ending R)
        (l : Ledger W R)
        → Fits n m l
        → Fits n
            (m + unchecked fingerprint l (settles sweep_at now w q keep ending))
            (settle fingerprint sweep_at now w q keep ending l)
    unfolding settle hold
    settle-Fits sweep_at now w q keep (succeeded result) l f =
        let after = remember fingerprint sweep_at now w q result keep l in
        ground (
          arith,
          remember-Fits sweep_at now w q result keep l f,
          size-remove-le after.0.reservations (slot fingerprint q),
        )
    settle-Fits sweep_at now w q keep (outcome_unknown reason) l f = ground (
      arith,
      f.limit,
      f.within,
      size-remove-has l.reservations (slot fingerprint q),
      size-remove-le l.reservations (slot fingerprint q),
      size-remove-le l.entries (slot fingerprint q),
      size-put-le l.holds (slot fingerprint q) (new_hold fingerprint now l q (some reason)),
    )
    settle-Fits sweep_at now w q keep failed l f =
        ground (arith, f.limit, f.within, size-remove-le l.reservations (slot fingerprint q))

    step-Fits :
        (l : Ledger W R) (c : Call W R)
        → Fits n m l
        → Fits n (m + unchecked fingerprint l c) (step fingerprint l c)
    unfolding step release_hold delete lookup resume
    step-Fits l (arrives now w q) f = ground (arith, arrive-Fits now w q l f)
    step-Fits l (resumes q e true) f = ground (arith, f.limit, f.within)
    step-Fits l (resumes q e false) f = resume-Fits q e l f
    step-Fits l (settles sweep_at now w q keep ending) f =
        settle-Fits sweep_at now w q keep ending l f
    step-Fits l (looks now w q) f = ground (arith, cleanup_expired-Fits n m now w l f)
    step-Fits l (remembers sweep_at now w q result keep) f =
        ground (arith, remember-Fits sweep_at now w q result keep l f)
    step-Fits l (holds now q reason) f = hold-Fits now q reason l f
    step-Fits l (releases q) f = record {
      limit = f.limit;
      within = omega (arith, size-remove-le l.holds (slot fingerprint q), f.within);
    }
    step-Fits l (deletes q) f = record {
      limit = f.limit;
      within = omega (
        arith,
        size-remove-le l.holds (slot fingerprint q),
        size-remove-le l.entries (slot fingerprint q),
        f.within,
      );
    }
    step-Fits l (sweeps now w) f = ground (arith, cleanup_expired-Fits n m now w l f)

  run-Fits :
      (fingerprint : String → String) (n m : ℕ) (l : Ledger W R) (cs : List (Call W R))
      → Fits n m l
      → Fits n (m + all_unchecked fingerprint l cs) (run fingerprint l cs)
  unfolding run all_unchecked
  run-Fits fingerprint n m l [] f = ground (arith, f.limit, f.within)
  run-Fits fingerprint n m l (c ∷ cs) f =
      let next =
        run-Fits fingerprint n (m + unchecked fingerprint l c) (step fingerprint l c) cs
          (step-Fits fingerprint n m l c f) in
      record { limit = next.limit; within = omega (arith, next.within) }

-- After any history of calls on a new ledger, the results, the running operations and the holds together are
-- at most `maxEntries`, and as many more as there were calls that enter something without asking for room: a
-- hold under a slot with neither a result nor a hold, the unknown outcome of an operation whose reservation
-- is gone, and an operation that goes on, past a result that may not be replayed, under a held slot.
pub run-bounded :
    {W R : Type 0} (fingerprint : String → String) (ttl_ms max_entries : ℕ) (cs : List (Call W R))
    → let l : Ledger W R = init ttl_ms max_entries in
      total (run fingerprint l cs) ≤ max_entries + all_unchecked fingerprint l cs
unfolding init size
run-bounded fingerprint ttl_ms max_entries cs =
    let f =
      run-Fits fingerprint max_entries 0 (init ttl_ms max_entries) cs
        (record { limit = refl; within = omega arith }) in
    omega (arith, f.within)
