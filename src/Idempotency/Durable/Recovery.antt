-- ===== src/Idempotency/Durable/Recovery.antt =====
-- What the record on disk guarantees over any sequence of runs and releases in core/idempotency.ts, of any
-- number of processes: how often the operation under a key is executed.
use avito_mcp.Prelude.{
  ℕ, String, ◌+◌, ◌-◌, ◌≤◌, ◌≡◌, refl, Bool, true, false, ◌&&◌, ◌||◌, Option, none, some, List, [],
  ◌∷◌, arith, eq_iff, leb, ◌==◌, if◌then◌else◌,
}
use avito_mcp.JsMap.{get, put, remove}
use avito_mcp.JsMap.Laws.{get-put, get-remove}
use avito_mcp.Idempotency.{Request, is_transport}
use avito_mcp.Idempotency.Durable.{
  RecordState, in_flight, completed, indeterminate, Record, Directory, Attempt, succeeded,
  outcome_unknown, failed, stopped, Outcome, executed, unrecorded, outcome_of, Context, adjudicate,
  ran, carried_out, run_persistent, release_persistent, reservation, remembered, held,
}

pub data Op {ℓ} (R : Type ℓ) : Type ℓ where
  runs : Context → Request → (path : String) → Attempt R → Op R
  releases : (path : String) → Op R

-- one more execution of the operation
abbrev pub executions_of {ℓ} : {R : Type ℓ} → Outcome R → ℕ
executions_of (executed a) = 1
executions_of (unrecorded result) = 1
executions_of _ = 0

-- an execution that ended with a definite failure, or with a result that could not be recorded
abbrev pub failures_of {ℓ} : {R : Type ℓ} → Outcome R → ℕ
failures_of (executed failed) = 1
failures_of (unrecorded result) = 1
failures_of _ = 0

abbrev pub at : Bool → ℕ → ℕ
at true n = n
at false n = 0

module _ {R : Type 0} (fingerprint : String → String) (path : String) where
  abbrev pub after : Op R → Directory R → Directory R
  after (runs c q p attempt) dir = (run_persistent fingerprint c q p attempt dir).0
  after (releases p) dir = (release_persistent p dir).0

  abbrev pub executes : Op R → Directory R → ℕ
  executes (runs c q p attempt) dir =
      at (p == path) (executions_of (run_persistent fingerprint c q p attempt dir).1)
  executes (releases p) dir = 0

  -- the key is given back: by a definite failure, by a result that could not be recorded, or by an operator
  abbrev pub frees : Op R → Directory R → ℕ
  frees (runs c q p attempt) dir =
      at (p == path) (failures_of (run_persistent fingerprint c q p attempt dir).1)
  frees (releases p) dir = at ((p == path) && (release_persistent p dir).1) 1

  unfoldable pub executions : List (Op R) → Directory R → ℕ
  executions [] dir = 0
  executions (op ∷ ops) dir = executes op dir + executions ops (after op dir)

  unfoldable pub freed : List (Op R) → Directory R → ℕ
  freed [] dir = 0
  freed (op ∷ ops) dir = frees op dir + freed ops (after op dir)

module _ {R : Type 0} where
  -- whether the record still answers for the key at every time up to `deadline`
  abbrev pub stands : ℕ → RecordState → Record R → Option R → Bool
  stands deadline in_flight r _ = true
  stands deadline completed r none = false
  stands deadline completed r (some result) = leb deadline r.expires_at
  stands deadline indeterminate r _ = is_transport r.hold_reason || leb deadline r.expires_at

  abbrev pub occupied : ℕ → Option (Record R) → ℕ
  occupied deadline none = 0
  occupied deadline (some r) = if stands deadline r.state r r.result then 1 else 0

  -- the run happens in the window of `ttl` after `start`, and its entries may be replayed
  abbrev pub InWindow : (start ttl : ℕ) → Op R → Type 0
  InWindow start ttl (runs c q p attempt) =
      (c.now ≤ start + ttl)
      × (start ≤ c.now)
      × (start ≤ c.done_at)
      × (c.ttl_ms ≡ ttl)
      × (c.replay_allowed ≡ true)
  InWindow start ttl (releases p) = Unit

  abbrev pub AllInWindow : (start ttl : ℕ) → List (Op R) → Type 0
  AllInWindow start ttl [] = Unit
  AllInWindow start ttl (op ∷ ops) = InWindow start ttl op × AllInWindow start ttl ops

  adjudicate-stands :
      (deadline : ℕ) (c : Context) (q : Request) (r : Record R)
      → c.now ≤ deadline
      → c.replay_allowed ≡ true
      → stands deadline r.state r r.result ≡ true
      → ¬ (adjudicate c q (some r) ≡ none)
  unfolding adjudicate
  adjudicate-stands deadline c q r t a h = ground arith

  abbrev pub vacancy : ℕ → Option (Record R) → ℕ
  vacancy deadline o = 1 - occupied deadline o

  adjudicate-free :
      (deadline : ℕ) (c : Context) (q : Request) (o : Option (Record R))
      → c.now ≤ deadline
      → c.replay_allowed ≡ true
      → adjudicate c q o ≡ none
      → vacancy deadline o ≡ 1
  unfolding adjudicate
  adjudicate-free deadline c q none t a h = refl
  adjudicate-free deadline c q (some r) t a h = ground (arith, adjudicate-stands deadline c q r t a)

  pub adjudicate-executions :
      (c : Context) (q : Request) (o : Option (Record R)) (out : Outcome R)
      → adjudicate c q o ≡ some out
      → executions_of out ≡ 0
  unfolding adjudicate
  adjudicate-executions c q none out h = ground arith
  adjudicate-executions c q (some r) out h = ground arith

-- the record that a run leaves under its own path
abbrev pub ended :
    {R : Type 0} → (String → String) → Context → Request → Attempt R → Option (Record R)
ended fingerprint c q (succeeded result) =
    if c.recorded then some (remembered fingerprint c q result) else none
ended fingerprint c q (outcome_unknown reason message) =
    some (held c.done_at (reservation fingerprint c q) reason message)
ended fingerprint c q failed = none
ended fingerprint c q stopped = some (reservation fingerprint c q)

module _ {R : Type 0} (fingerprint : String → String) (path : String) where
  pub ran-get :
      (c : Context) (q : Request) (p : String) (attempt : Attempt R) (dir : Directory R)
      → get (ran fingerprint c q p attempt (remove dir p)).0 path
        ≡ (if p == path then ended fingerprint c q attempt else get dir path)
  ran-get c q p (succeeded result) dir = ground (
    arith,
    get-remove (put (remove dir p) p (reservation fingerprint c q)) p path,
    get-put (put (remove dir p) p (reservation fingerprint c q)) p
        (remembered fingerprint c q result) path,
    get-put (remove dir p) p (reservation fingerprint c q) path,
    get-remove dir p path,
  )
  ran-get c q p (outcome_unknown reason message) dir = ground (
    arith,
    get-put (put (remove dir p) p (reservation fingerprint c q)) p
        (held c.done_at (reservation fingerprint c q) reason message) path,
    get-put (remove dir p) p (reservation fingerprint c q) path,
    get-remove dir p path,
  )
  ran-get c q p failed dir = ground (
    arith,
    get-remove (put (remove dir p) p (reservation fingerprint c q)) p path,
    get-put (remove dir p) p (reservation fingerprint c q) path,
    get-remove dir p path,
  )
  ran-get c q p stopped dir =
      ground
        (arith, get-put (remove dir p) p (reservation fingerprint c q) path, get-remove dir p path)

  ended-vacancy :
      (start ttl : ℕ) (c : Context) (q : Request) (attempt : Attempt R)
      → InWindow start ttl (runs c q path attempt)
      → vacancy (start + ttl) (ended fingerprint c q attempt)
        ≡ failures_of (outcome_of fingerprint c attempt)
  ended-vacancy start ttl c q (succeeded result) w = ground arith
  ended-vacancy start ttl c q (outcome_unknown reason message) w = ground arith
  ended-vacancy start ttl c q failed w = ground arith
  ended-vacancy start ttl c q stopped w = ground arith

  carried_out-vacancy :
      (start ttl : ℕ) (c : Context) (q : Request) (p : String) (attempt : Attempt R)
      → (dir : Directory R) (o : Option (Outcome R)) → InWindow start ttl (runs c q p attempt)
      → (o ≡ none → vacancy (start + ttl) (get dir p) ≡ 1)
      → ((out : Outcome R) → o ≡ some out → executions_of out ≡ 0)
      → at (p == path) (executions_of (carried_out fingerprint c q p attempt o dir).1)
          + vacancy (start + ttl) (get (carried_out fingerprint c q p attempt o dir).0 path)
        ≤ vacancy (start + ttl) (get dir path)
          + at (p == path) (failures_of (carried_out fingerprint c q p attempt o dir).1)
  carried_out-vacancy start ttl c q p attempt dir none w free none_left = ground (
    arith,
    ran-get c q p attempt dir,
    ended-vacancy start ttl c q attempt w,
    eq_iff p path,
    free refl,
  )
  carried_out-vacancy start ttl c q p attempt dir (some out) w free none_left =
      ground (arith, none_left out refl)

  run-vacancy :
      (start ttl : ℕ) (c : Context) (q : Request) (p : String) (attempt : Attempt R)
      → (dir : Directory R) → InWindow start ttl (runs c q p attempt)
      → executes fingerprint path (runs c q p attempt) dir
          + vacancy (start + ttl) (get (after fingerprint path (runs c q p attempt) dir) path)
        ≤ vacancy (start + ttl) (get dir path) + frees fingerprint path (runs c q p attempt) dir
  unfolding run_persistent
  run-vacancy start ttl c q p attempt dir w =
      carried_out-vacancy start ttl c q p attempt dir (adjudicate c q (get dir p)) w
        (adjudicate-free (start + ttl) c q (get dir p) w.0 w.4)
        (adjudicate-executions c q (get dir p))

  release-vacancy :
      (deadline : ℕ) (p : String) (dir : Directory R)
      → vacancy deadline (get (after fingerprint path (releases p) dir) path)
        ≤ vacancy deadline (get dir path) + frees fingerprint path (releases p) dir
  unfolding release_persistent
  release-vacancy deadline p dir = ground (arith, get-remove dir p path, eq_iff p path)

  -- The operation under a key is executed at most once more than the key was given back: over any
  -- sequence of runs and releases within one time to live, where entries may be replayed, the
  -- executions at a path are at most the definite failures, the results that could not be recorded and
  -- the releases of a hold there, plus one if the path was vacant.
  pub executions-le-freed :
      (start ttl : ℕ) (ops : List (Op R)) (dir : Directory R)
      → AllInWindow start ttl ops
      → executions fingerprint path ops dir
        ≤ vacancy (start + ttl) (get dir path) + freed fingerprint path ops dir
  unfolding executions freed
  executions-le-freed start ttl [] dir w = ground arith
  executions-le-freed start ttl (runs c q p attempt ∷ ops) dir (w, ws) = omega (
    arith,
    run-vacancy start ttl c q p attempt dir w,
    executions-le-freed start ttl ops (after fingerprint path (runs c q p attempt) dir) ws,
  )
  executions-le-freed start ttl (releases p ∷ ops) dir (w, ws) = omega (
    arith,
    release-vacancy (start + ttl) p dir,
    executions-le-freed start ttl ops (after fingerprint path (releases p) dir) ws,
  )
