-- ===== src/Idempotency/Durable/Holds.antt =====
-- The records of core/idempotency.ts that time does not clear: the reservation of a process that stopped,
-- and the hold after a transport failure.
use avito_mcp.Prelude.{
  String, ◌≡◌, refl, Bool, true, false, Option, none, some, List, [], ◌∷◌, arith, eq_iff, eq_refl,
  ◌==◌,
}
use avito_mcp.JsMap.{get}
use avito_mcp.JsMap.Laws.{get-remove}
use avito_mcp.Idempotency.{transport_failure_after_dispatch, Request, is_transport}
use avito_mcp.Idempotency.Durable.{
  RecordState, in_flight, completed, indeterminate, Record, Directory, Attempt, outcome_unknown,
  stopped, Outcome, executed, Context, adjudicate, carried_out, run_persistent, release_persistent,
  reservation, held,
}
use avito_mcp.Idempotency.Durable.Recovery.{
  Op, runs, releases, executions_of, at, after, executes, executions, ended, ran-get,
  adjudicate-executions,
}

module _ {R : Type 0} where
  abbrev pub lasts : RecordState → Record R → Bool
  lasts in_flight r = true
  lasts completed r = false
  lasts indeterminate r = is_transport r.hold_reason

  adjudicate-lasts :
      (c : Context) (q : Request) (r : Record R)
      → lasts r.state r ≡ true
      → ¬ (adjudicate c q (some r) ≡ none)
  unfolding adjudicate
  adjudicate-lasts c q r h = ground arith

module _ {R : Type 0} (path : String) where
  -- nobody lifts a hold at the path by hand
  abbrev pub SparesHold : RecordState → Op R → Type 0
  SparesHold indeterminate (releases p) = (p == path) ≡ false
  SparesHold _ _ = Unit

  abbrev pub AllSpareHold : RecordState → List (Op R) → Type 0
  AllSpareHold s [] = Unit
  AllSpareHold s (op ∷ ops) = SparesHold s op × AllSpareHold s ops

  all_spare_reservation : (ops : List (Op R)) → AllSpareHold in_flight ops
  all_spare_reservation [] = tt
  all_spare_reservation (op ∷ ops) = (tt, all_spare_reservation ops)

module _ {R : Type 0} (fingerprint : String → String) (path : String) where
  carried_out-lasts :
      (c : Context) (q : Request) (p : String) (attempt : Attempt R) (dir : Directory R)
      → (r : Record R) (o : Option (Outcome R)) → get dir path ≡ some r
      → ((p == path) ≡ true → ¬ (o ≡ none))
      → ((out : Outcome R) → o ≡ some out → executions_of out ≡ 0)
      → (get (carried_out fingerprint c q p attempt o dir).0 path ≡ some r)
        × (at (p == path) (executions_of (carried_out fingerprint c q p attempt o dir).1) ≡ 0)
  carried_out-lasts c q p attempt dir r none h answered no_run =
      ground (arith, ran-get fingerprint path c q p attempt dir)
  carried_out-lasts c q p attempt dir r (some out) h answered no_run =
      ground (arith, no_run out refl)

  adjudicate-lasts_at :
      (c : Context) (q : Request) (p : String) (dir : Directory R) (r : Record R)
      → get dir path ≡ some r
      → lasts r.state r ≡ true
      → (p == path) ≡ true
      → ¬ (adjudicate c q (get dir p) ≡ none)
  adjudicate-lasts_at c q p dir r h l e = ground (arith, eq_iff p path, adjudicate-lasts c q r l)

  run-lasts :
      (c : Context) (q : Request) (p : String) (attempt : Attempt R) (dir : Directory R)
      (r : Record R)
      → get dir path ≡ some r
      → lasts r.state r ≡ true
      → (get (after fingerprint path (runs c q p attempt) dir) path ≡ some r)
        × (executes fingerprint path (runs c q p attempt) dir ≡ 0)
  unfolding run_persistent
  run-lasts c q p attempt dir r h l =
      carried_out-lasts c q p attempt dir r (adjudicate c q (get dir p)) h
        (adjudicate-lasts_at c q p dir r h l) (adjudicate-executions c q (get dir p))

  release-lasts :
      (p : String) (dir : Directory R) (r : Record R)
      → get dir path ≡ some r
      → SparesHold {R = R} path r.state (releases p)
      → lasts r.state r ≡ true
      → get (after fingerprint path (releases p) dir) path ≡ some r
  unfolding release_persistent
  release-lasts p dir r h s l = ground (arith, get-remove dir p path, eq_iff p path)

  executions-lasts :
      (r : Record R) (ops : List (Op R)) (dir : Directory R)
      → get dir path ≡ some r
      → lasts r.state r ≡ true
      → AllSpareHold path r.state ops
      → executions fingerprint path ops dir ≡ 0
  unfolding executions
  executions-lasts r [] dir h l s = refl
  executions-lasts r (runs c q p attempt ∷ ops) dir h l (s, ss) = ground (
    arith,
    run-lasts c q p attempt dir r h l,
    executions-lasts r ops (after fingerprint path (runs c q p attempt) dir)
        (run-lasts c q p attempt dir r h l).0 l ss,
  )
  executions-lasts r (releases p ∷ ops) dir h l (s, ss) = ground (
    arith,
    executions-lasts r ops (after fingerprint path (releases p) dir) (release-lasts p dir r h s l) l
        ss,
  )

  carried_out-ended :
      (c : Context) (q : Request) (attempt : Attempt R) (dir : Directory R) (o : Option (Outcome R))
      → ((out : Outcome R) → o ≡ some out → executions_of out ≡ 0)
      → (carried_out fingerprint c q path attempt o dir).1 ≡ executed attempt
      → get (carried_out fingerprint c q path attempt o dir).0 path ≡ ended fingerprint c q attempt
  carried_out-ended c q attempt dir none no_run h =
      ground (arith, ran-get fingerprint path c q path attempt dir, eq_refl path)
  carried_out-ended c q attempt dir (some out) no_run h = ground (arith, no_run out refl)

  run_persistent-ended :
      (c : Context) (q : Request) (attempt : Attempt R) (dir : Directory R)
      → (run_persistent fingerprint c q path attempt dir).1 ≡ executed attempt
      → get (run_persistent fingerprint c q path attempt dir).0 path ≡ ended fingerprint c q attempt
  unfolding run_persistent
  run_persistent-ended c q attempt dir h =
      carried_out-ended c q attempt dir (adjudicate c q (get dir path))
        (adjudicate-executions c q (get dir path)) h

  -- A process that stops during the operation leaves the key closed: whatever runs and releases follow,
  -- of any arguments and at any time, the operation under that key is not executed again.
  pub run-stopped :
      (c : Context) (q : Request) (dir : Directory R) (ops : List (Op R))
      → (run_persistent fingerprint c q path stopped dir).1 ≡ executed stopped
      → executions fingerprint path ops (run_persistent fingerprint c q path stopped dir).0 ≡ 0
  run-stopped c q dir ops h =
      executions-lasts (reservation fingerprint c q) ops
        (run_persistent fingerprint c q path stopped dir).0 (run_persistent-ended c q stopped dir h)
        refl (all_spare_reservation path ops)

  -- After a transport failure whose outcome is unknown the operation under the key is not executed again
  -- by any later run, of any arguments and at any time, as long as no operator releases the hold.
  pub run-outcome_unknown :
      (c : Context) (q : Request) (message : String) (dir : Directory R) (ops : List (Op R))
      → (run_persistent fingerprint c q path
          (outcome_unknown transport_failure_after_dispatch message)
          dir).1
        ≡ executed (outcome_unknown transport_failure_after_dispatch message)
      → AllSpareHold path indeterminate ops
      → executions fingerprint path ops
          (run_persistent fingerprint c q path
            (outcome_unknown transport_failure_after_dispatch message)
            dir).0
        ≡ 0
  run-outcome_unknown c q message dir ops h s =
      executions-lasts
        (held c.done_at (reservation fingerprint c q) transport_failure_after_dispatch message) ops
        (run_persistent fingerprint c q path
          (outcome_unknown transport_failure_after_dispatch message) dir).0
        (run_persistent-ended c q (outcome_unknown transport_failure_after_dispatch message) dir h)
        refl s
