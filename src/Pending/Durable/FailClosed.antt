-- ===== src/Pending/Durable/FailClosed.antt =====
-- A claim of core/pending-actions.ts that nobody completes stays on disk, also when the process that
-- made it has stopped: the action is never run a second time and never taken for cancelled.
use avito_mcp.Prelude.{
  ℕ, String, ◌+◌, ◌≡◌, refl, Bool, true, false, Option, none, some, List, [], ◌∷◌, arith, eq_iff,
  get_or, ◌==◌,
}
use avito_mcp.JsMap.{get}
use avito_mcp.JsMap.Laws.{get-put, get-remove}
use avito_mcp.Pending.{PendingAction, Input, create, cleanup_expired}
use avito_mcp.Pending.Durable.{
  Record, Directory, Process, is_pending, has_path, to_record, in_store,
}
use avito_mcp.Pending.Durable.World.{
  World, Call, creates, reads, deletes, takes, completes, asks, fails, sweeps, restarts, step_of,
  step, run, id-create,
}
use avito_mcp.Pending.Durable.Methods.{
  create_persistent, get_persistent, delete_persistent, take_persistent, complete_persistent,
  is_active_persistent, record_failed_persistent, remove_expired, publish, failed_record,
  take_record, claimed_record,
}

module _ {E : Type 0} (id : String) where
  -- the call neither completes the action nor creates another one under its id
  abbrev pub Spares : Call E → Type 0
  Spares (creates now j input ok) = (j == id) ≡ false
  Spares (completes j) = (j == id) ≡ false
  Spares _ = Unit

  abbrev pub AllSpare : List (ℕ × Call E) → Type 0
  AllSpare [] = Unit
  AllSpare ((i, c) ∷ cs) = Spares c × AllSpare cs

module _ {E : Type 0} (id : String) (r : Record) (stuck : is_pending r ≡ false) where
  published_other :
      (j : String) (ok : Bool) (dir : Directory) (p : Process E) (o : Option (PendingAction E))
      → ((a : PendingAction E) → o ≡ some a → a.id ≡ j)
      → (j == id) ≡ false
      → get dir id ≡ some r
      → get (publish ok dir p o).0 id ≡ some r
  published_other j ok dir p none e n h = h
  published_other j ok dir p (some a) e n h =
      ground (arith, e a refl, get-put dir a.id (to_record a) id, eq_iff a.id id, eq_iff j id)

  create_other :
      (now : ℕ) (j : String) (input : Input E) (ok : Bool) (dir : Directory) (p : Process E)
      → (j == id) ≡ false
      → get dir id ≡ some r
      → get (create_persistent now j input ok dir p).0 id ≡ some r
  unfolding create_persistent
  create_other now j input ok dir p n h =
      published_other j ok dir (in_store p (create now j input p.store).0)
        (create now j input p.store).1 (id-create now j input p.store) n h

  fail_keeps :
      (now : ℕ) (j : String) (m : ℕ) (o : Option Record) (dir : Directory) (p : Process E)
      → get dir j ≡ o
      → get dir id ≡ some r
      → get (failed_record now j m o dir p).0 id ≡ some r
  fail_keeps now j m none dir p e h = h
  fail_keeps now j m (some q) dir p e h = ground (
    arith,
    get-remove dir j id,
    get-put dir j
        (record q {
          failed_confirmation_attempts = some (get_or q.failed_confirmation_attempts 0 + 1);
        })
        id,
    eq_iff j id,
  )

  take_keeps :
      (now claim_at : ℕ) (j : String) (o : Option Record) (dir : Directory) (p : Process E)
      → get dir j ≡ o
      → get dir id ≡ some r
      → get (take_record now claim_at j o dir p).0 id ≡ some r
  take_keeps now claim_at j none dir p e h = h
  take_keeps now claim_at j (some q) dir p e h =
      ground (arith, get-remove dir j id, get-put dir j (claimed_record claim_at q) id, eq_iff j id)

  step_of-keeps :
      (c : Call E) (dir : Directory) (p : Process E)
      → Spares id c
      → get dir id ≡ some r
      → get (step_of c dir p).0 id ≡ some r
  unfolding step_of get_persistent delete_persistent take_persistent complete_persistent
      is_active_persistent record_failed_persistent remove_expired
  step_of-keeps (creates now j input ok) dir p n h = create_other now j input ok dir p n h
  step_of-keeps (reads now j) dir p n h = ground (arith, get-remove dir j id, eq_iff j id)
  step_of-keeps (deletes now j) dir p n h = ground (arith, get-remove dir j id, eq_iff j id)
  step_of-keeps (takes now claim_at j) dir p n h =
      ground (arith, take_keeps now claim_at j (get dir j) dir p refl h)
  step_of-keeps (completes j) dir p n h = ground (arith, get-remove dir j id, eq_iff j id)
  step_of-keeps (asks now j) dir p n h = ground (arith, get-remove dir j id, eq_iff j id)
  step_of-keeps (fails sweep_at now j m) dir p n h = ground (
    arith,
    fail_keeps now j m (get dir j) dir (in_store p (cleanup_expired sweep_at p.store)) refl h,
  )
  step_of-keeps (sweeps now j) dir p n h = ground (arith, get-remove dir j id, eq_iff j id)
  step_of-keeps (restarts fresh) dir p n h = h

  run-keeps :
      (w : World E) (cs : List (ℕ × Call E))
      → AllSpare id cs
      → get w.dir id ≡ some r
      → get (run w cs).dir id ≡ some r
  unfolding run step
  run-keeps w [] n h = h
  run-keeps w ((i, c) ∷ cs) n h =
      run-keeps (step w (i, c)) cs n.1 (step_of-keeps c w.dir (w.processes i) n.0 h)

  active_record_lem :
      (now : ℕ) (dir : Directory) (p : Process E)
      → has_path id ≡ true
      → get dir id ≡ some r
      → (is_active_persistent now id dir p).2 ≡ true
  unfolding is_active_persistent
  active_record_lem now dir p path h = ground arith

-- A claimed record stays claimed through any schedule of any processes, restarts of its owner
-- included, in which no call completes it or creates another action under its id; and every process
-- is told at any time that the action is active.
pub run-claimed :
    {E : Type 0} (id : String) (r : Record) (w : World E) (cs : List (ℕ × Call E)) (i now : ℕ)
    → has_path id ≡ true
    → is_pending r ≡ false
    → get w.dir id ≡ some r
    → AllSpare id cs
    → (get (run w cs).dir id ≡ some r)
      × ((is_active_persistent now id (run w cs).dir ((run w cs).processes i)).2 ≡ true)
run-claimed id r w cs i now path stuck h n =
    let kept = run-keeps id r stuck w cs n h in
    (kept, active_record_lem id r stuck now (run w cs).dir ((run w cs).processes i) path kept)
