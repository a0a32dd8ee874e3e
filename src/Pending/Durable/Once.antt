-- ===== src/Pending/Durable/Once.antt =====
-- Across processes, an action with a durable record of core/pending-actions.ts is claimed at most
-- once, whatever the schedule.
use avito_mcp.Prelude.{
  ℕ, String, ◌+◌, ◌≤◌, ◌≡◌, refl, Bool, true, ◌&&◌, Option, none, some, List, [], ◌∷◌, arith,
  is_some, bit, eq_iff, ap, get_or, ◌==◌,
}
use avito_mcp.JsMap.{get}
use avito_mcp.JsMap.Laws.{get-put, get-remove}
use avito_mcp.Pending.{PendingAction, Input, create, cleanup_expired}
use avito_mcp.Pending.Durable.{
  Record, Directory, Process, is_pending, has_path, to_record, in_store,
}
use avito_mcp.Pending.Durable.World.{
  World, Call, creates, reads, deletes, takes, completes, asks, fails, sweeps, restarts, step_of,
  step, run, id-create,
}
use avito_mcp.Pending.Durable.Methods.{
  create_persistent, get_persistent, delete_persistent, take_persistent, complete_persistent,
  is_active_persistent, record_failed_persistent, remove_expired, publish, take_record,
  claimed_record, failed_record,
}

abbrev pend : Option Record → ℕ
pend none = 0
pend (some r) = bit (is_pending r)

module _ {E : Type 0} (id : String) where
  abbrev pub hit : String → Option (PendingAction E) → ℕ
  hit j o = bit (j == id && is_some o)

  -- 1 if the call hands the action out
  abbrev pub claims : Directory → Process E → Call E → ℕ
  claims dir p (takes now claim_at j) = hit j (take_persistent now claim_at j dir p).2
  claims dir p _ = 0

  -- 1 if the call publishes a record under this id
  abbrev pub issues : Directory → Process E → Call E → ℕ
  issues dir p (creates now j input ok) = hit j (create_persistent now j input ok dir p).2
  issues dir p _ = 0

module _ {E : Type 0} (id : String) (path : has_path id ≡ true) where
  publish-pend :
      (j : String) (ok : Bool) (dir : Directory) (p : Process E) (a : PendingAction E)
      → a.id ≡ j
      → pend (get (publish ok dir p (some a)).0 id)
        ≤ hit id j (publish ok dir p (some a)).2 + pend (get dir id)
  unfolding to_record
  publish-pend j ok dir p a e =
      ground (arith, get-put dir a.id (to_record a) id, eq_iff j id, eq_iff a.id id)

  remove_expired-pend :
      (now : ℕ) (j : String) (o : Option Record) (dir : Directory) (p : Process E)
      → pend (get (remove_expired now j o dir p).0 id) ≤ pend (get dir id)
  unfolding remove_expired
  remove_expired-pend now j none dir p = ground arith
  remove_expired-pend now j (some r) dir p = ground (arith, get-remove dir j id)

  take_record-pend :
      (now claim_at : ℕ) (j : String) (o : Option Record) (dir : Directory) (p : Process E)
      → get dir j ≡ o
      → hit id j (take_record now claim_at j o dir p).2
          + pend (get (take_record now claim_at j o dir p).0 id)
        ≤ pend (get dir id)
  take_record-pend now claim_at j none dir p e = ground arith
  take_record-pend now claim_at j (some r) dir p e =
      ground (arith, get-remove dir j id, get-put dir j (claimed_record claim_at r) id, eq_iff j id)

  published-pend :
      (j : String) (ok : Bool) (dir : Directory) (p : Process E) (o : Option (PendingAction E))
      → ((a : PendingAction E) → o ≡ some a → a.id ≡ j)
      → pend (get (publish ok dir p o).0 id) ≤ hit id j (publish ok dir p o).2 + pend (get dir id)
  published-pend j ok dir p none e = ground arith
  published-pend j ok dir p (some a) e = publish-pend j ok dir p a (e a refl)

  create-pend :
      (now : ℕ) (j : String) (input : Input E) (ok : Bool) (dir : Directory) (p : Process E)
      → pend (get (create_persistent now j input ok dir p).0 id)
        ≤ hit id j (create_persistent now j input ok dir p).2 + pend (get dir id)
  unfolding create_persistent
  create-pend now j input ok dir p =
      published-pend j ok dir (in_store p (create now j input p.store).0)
        (create now j input p.store).1 (id-create now j input p.store)

  take-pend :
      (now claim_at : ℕ) (j : String) (dir : Directory) (p : Process E)
      → hit id j (take_persistent now claim_at j dir p).2
          + pend (get (take_persistent now claim_at j dir p).0 id)
        ≤ pend (get dir id)
  unfolding take_persistent
  take-pend now claim_at j dir p =
      ground (arith, take_record-pend now claim_at j (get dir j) dir p refl, eq_iff j id, path)

  get-pend :
      (now : ℕ) (j : String) (dir : Directory) (p : Process E)
      → pend (get (get_persistent now j dir p).0 id) ≤ pend (get dir id)
  unfolding get_persistent
  get-pend now j dir p = ground (arith, get-remove dir j id)

  delete-pend :
      (now : ℕ) (j : String) (dir : Directory) (p : Process E)
      → pend (get (delete_persistent now j dir p).0 id) ≤ pend (get dir id)
  unfolding delete_persistent
  delete-pend now j dir p = ground (arith, get-remove dir j id)

  complete-pend :
      (j : String) (dir : Directory) (p : Process E)
      → pend (get (complete_persistent j dir p).0 id) ≤ pend (get dir id)
  unfolding complete_persistent
  complete-pend j dir p = ground (arith, get-remove dir j id)

  active-pend :
      (now : ℕ) (j : String) (dir : Directory) (p : Process E)
      → pend (get (is_active_persistent now j dir p).0 id) ≤ pend (get dir id)
  unfolding is_active_persistent
  active-pend now j dir p = ground (arith, get-remove dir j id)

  fail_record-pend :
      (now : ℕ) (j : String) (m : ℕ) (o : Option Record) (dir : Directory) (p : Process E)
      → get dir j ≡ o
      → pend (get (failed_record now j m o dir p).0 id) ≤ pend (get dir id)
  fail_record-pend now j m none dir p e = ground arith
  fail_record-pend now j m (some r) dir p e = ground (
    arith,
    get-remove dir j id,
    get-put dir j
        (record r {
          failed_confirmation_attempts = some (get_or r.failed_confirmation_attempts 0 + 1);
        })
        id,
    eq_iff j id,
  )

  fail-pend :
      (sweep_at now : ℕ) (j : String) (m : ℕ) (dir : Directory) (p : Process E)
      → pend (get (record_failed_persistent sweep_at now j m dir p).0 id) ≤ pend (get dir id)
  unfolding record_failed_persistent
  fail-pend sweep_at now j m dir p = ground (
    arith,
    fail_record-pend now j m (get dir j) dir (in_store p (cleanup_expired sweep_at p.store)) refl,
  )

  step_of-pend :
      (c : Call E) (dir : Directory) (p : Process E)
      → claims id dir p c + pend (get (step_of c dir p).0 id)
        ≤ issues id dir p c + pend (get dir id)
  unfolding step_of
  step_of-pend (creates now j input ok) dir p = omega (arith, create-pend now j input ok dir p)
  step_of-pend (reads now j) dir p = omega (arith, get-pend now j dir p)
  step_of-pend (deletes now j) dir p = omega (arith, delete-pend now j dir p)
  step_of-pend (takes now claim_at j) dir p = omega (arith, take-pend now claim_at j dir p)
  step_of-pend (completes j) dir p = omega (arith, complete-pend j dir p)
  step_of-pend (asks now j) dir p = omega (arith, active-pend now j dir p)
  step_of-pend (fails sweep_at now j m) dir p = omega (arith, fail-pend sweep_at now j m dir p)
  step_of-pend (sweeps now j) dir p = omega (arith, remove_expired-pend now j (get dir j) dir p)
  step_of-pend (restarts fresh) dir p = omega arith

module _ {E : Type 0} (id : String) where
  pub claimed_by : World E → List (ℕ × Call E) → ℕ
  claimed_by w [] = 0
  claimed_by w ((i, c) ∷ cs) = claims id w.dir (w.processes i) c + claimed_by (step w (i, c)) cs

  pub issued_by : World E → List (ℕ × Call E) → ℕ
  issued_by w [] = 0
  issued_by w ((i, c) ∷ cs) = issues id w.dir (w.processes i) c + issued_by (step w (i, c)) cs

  run-pend :
      (w : World E) (cs : List (ℕ × Call E))
      → has_path id ≡ true
      → claimed_by w cs + pend (get (run w cs).dir id) ≤ issued_by w cs + pend (get w.dir id)
  unfolding run claimed_by issued_by step
  run-pend w [] path = omega arith
  run-pend w ((i, c) ∷ cs) path =
      omega (arith, step_of-pend id path c w.dir (w.processes i), run-pend (step w (i, c)) cs path)

  -- In any schedule of any number of processes over one directory, with processes that stop and start
  -- again at any time, an id of 32 hexadecimal digits without a record at first is claimed for
  -- execution at most as often as a record was published under it.
  pub claimed_by-le-issued_by :
      (w : World E) (cs : List (ℕ × Call E))
      → has_path id ≡ true
      → get w.dir id ≡ none
      → claimed_by w cs ≤ issued_by w cs
  claimed_by-le-issued_by w cs path absent = omega (arith, run-pend w cs path, ap pend absent)
