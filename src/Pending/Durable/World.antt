-- ===== src/Pending/Durable/World.antt =====
-- Several processes over one directory: the schedules of the `…Persistent` methods of
-- core/pending-actions.ts. A process may stop at any time and start again with nothing in memory.
use avito_mcp.Prelude.{ℕ, String, ◌≡◌, Bool, some, arith, List, [], ◌∷◌, eqb, if◌then◌else◌}
use avito_mcp.JsMap.{get}
use avito_mcp.Pending.{Input, Store, PendingAction, create}
use avito_mcp.Pending.Durable.{Directory, Process}
use avito_mcp.Pending.Durable.Methods.{
  create_persistent, get_persistent, delete_persistent, take_persistent, complete_persistent,
  is_active_persistent, record_failed_persistent, remove_expired,
}

pub record World {ℓ} (E : Type ℓ) : Type ℓ where
  pub dir : Directory
  pub processes : ℕ → Process E

pub data Call {ℓ} (E : Type ℓ) : Type ℓ where
  creates : (now : ℕ) → (id : String) → Input E → (write_ok : Bool) → Call E
  reads : (now : ℕ) → (id : String) → Call E
  deletes : (now : ℕ) → (id : String) → Call E
  takes : (now claim_at : ℕ) → (id : String) → Call E
  completes : (id : String) → Call E
  asks : (now : ℕ) → (id : String) → Call E
  fails : (sweep_at now : ℕ) → (id : String) → (max_attempts : ℕ) → Call E
  sweeps : (now : ℕ) → (id : String) → Call E
  restarts : Process E → Call E

module _ {ℓ} {E : Type ℓ} where
  unfoldable pub step_of : Call E → Directory → Process E → Directory × Process E
  step_of (creates now id input ok) dir p =
      let (d, q, _) = create_persistent now id input ok dir p in (d, q)
  step_of (reads now id) dir p = let (d, q, _) = get_persistent now id dir p in (d, q)
  step_of (deletes now id) dir p = let (d, q, _) = delete_persistent now id dir p in (d, q)
  step_of (takes now claim_at id) dir p =
      let (d, q, _) = take_persistent now claim_at id dir p in (d, q)
  step_of (completes id) dir p = let (d, q, _) = complete_persistent id dir p in (d, q)
  step_of (asks now id) dir p = let (d, q, _) = is_active_persistent now id dir p in (d, q)
  step_of (fails sweep_at now id m) dir p =
      let (d, q, _) = record_failed_persistent sweep_at now id m dir p in (d, q)
  step_of (sweeps now id) dir p = let (d, q, _) = remove_expired now id (get dir id) dir p in (d, q)
  step_of (restarts fresh) dir p = (dir, fresh)

  -- process `i` makes the call
  unfoldable pub step : World E → ℕ × Call E → World E
  step w (i, c) =
      let (d, q) = step_of c w.dir (w.processes i) in
      record { dir = d; processes = λ j. if eqb i j then q else w.processes j }

  unfoldable pub run : World E → List (ℕ × Call E) → World E
  run w [] = w
  run w (c ∷ cs) = run (step w c) cs

module _ {E : Type 0} where
  -- the id of a created action is the one that was drawn for it
  pub id-create :
      (now : ℕ) (j : String) (input : Input E) (s : Store E) (a : PendingAction E)
      → (create now j input s).1 ≡ some a
      → a.id ≡ j
  unfolding create
  id-create now j input s a h = ground arith
