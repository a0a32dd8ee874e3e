-- ===== src/HttpSessions/Limits.antt =====
-- How many sessions of http/mcp-http.ts there can be.
use avito_mcp.Prelude.{
  ℕ, zero, suc, String, ◌+◌, ◌-◌, ◌≤◌, ◌≡◌, refl, Bool, true, false, not, is_some, ◌||◌, Option,
  none, some, List, [], ◌∷◌, arith, leb, if_cases, ap, eqb, ◌==◌,
}
use avito_mcp.JsMap.{get, remove, retain, size}
use avito_mcp.JsMap.Sizes.{size-put-has, size-put-le, size-remove-le, size-retain-le}
use avito_mcp.HttpSessions.{
  Session, State, busier, less_busy, Answer, init, initializing_sessions, routed, routed_to,
  reserved_if, handle_request, finish_request, with_session_of, drop_session, session_initialized,
  finish_initialization, abandon_initialization, fail_initialization, is_kept, reap, begin_close,
  finish_close,
}

pub data Event : Type 0 where
  requests :
      (now : ℕ)
      → (session_id : Option String) → (principal : String) → (is_initialize : Bool) → Event
  request_ends : (now : ℕ) → (sid : String) → Event
  session_opens : (now : ℕ) → (sid principal : String) → Event
  initialization_ends : (now : ℕ) → (sid : String) → Event
  initialization_stops : Event
  initialization_fails : (sid : String) → Event
  session_closes : (sid : String) → Event
  reaps : (now : ℕ) → Event
  begins_close finishes_close : Event

-- a session opens only while an initialization runs that has none yet
abbrev opens : ℕ → (sid principal : String) → ℕ → State → State
opens now sid principal zero s = s
opens now sid principal (suc n) s = session_initialized now sid principal s

unfoldable pub step : State → Event → State
step s (requests now session_id principal is_initialize) =
    (handle_request now session_id principal is_initialize s).0
step s (request_ends now sid) = finish_request now sid s
step s (session_opens now sid principal) = opens now sid principal s.without_session s
step s (initialization_ends now sid) = finish_initialization now sid s
step s initialization_stops = abandon_initialization s
step s (initialization_fails sid) = fail_initialization sid s
step s (session_closes sid) = drop_session sid s
step s (reaps now) = reap now s
step s begins_close = begin_close s
step s finishes_close = finish_close s

unfoldable pub run : State → List Event → State
run s [] = s
run s (e ∷ es) = run (step s e) es

-- the sessions that are there or may still open fit within the limit, which is `m`
abbrev IsWithin : ℕ → State → Type 0
IsWithin m s = (s.max_sessions ≡ m) × (size s.sessions + s.without_session ≤ m)

size-empty : size {V = Session} [] ≡ 0
unfolding size
size-empty = refl

module _ (m : ℕ) where
  with_session_of-IsWithin :
      (f : Session → Session) (sid : String) (o : Option Session) (s : State)
      → get s.sessions sid ≡ o
      → IsWithin m s
      → IsWithin m (with_session_of f sid o s)
  with_session_of-IsWithin f sid none s e w = w
  with_session_of-IsWithin f sid (some x) s e (limit, room) =
      (limit, omega (arith, room, size-put-has s.sessions sid (f x) (ap is_some e)))

  routed-IsWithin :
      (now : ℕ) (sid principal : String) (o : Option Session) (s : State)
      → get s.sessions sid ≡ o
      → IsWithin m s
      → IsWithin m (routed now sid principal o s).0
  routed-IsWithin now sid principal none s e w = w
  routed-IsWithin now sid principal (some x) s e w =
      if_cases {A = State × Answer} (λ r. IsWithin m r.0) (not (x.principal == principal)) _ _
        (λ _. w) (λ _. with_session_of-IsWithin (busier now) sid (some x) s e w)

  reserved_if-IsWithin : (b : Bool) (s : State) → IsWithin m s → IsWithin m (reserved_if b s).0
  reserved_if-IsWithin false s w = w
  reserved_if-IsWithin true s (limit, room) =
      if_cases {A = State × Answer} (λ r. IsWithin m r.0)
        (s.closing || leb s.max_sessions (size s.sessions + initializing_sessions s)) _ _
        (λ _. (limit, room)) (λ free. (limit, ground (arith, free, limit)))

  routed_to-IsWithin :
      (now : ℕ) (sid : Option String) (principal : String) (b : Bool) (s : State)
      → IsWithin m s
      → IsWithin m (routed_to now sid principal b s).0
  routed_to-IsWithin now none principal b s w = reserved_if-IsWithin b s w
  routed_to-IsWithin now (some sid) principal b s w =
      if_cases {A = State × Answer} (λ r. IsWithin m r.0) (sid == "") _ _
        (λ _. reserved_if-IsWithin b s w)
        (λ _. routed-IsWithin now sid principal (get s.sessions sid) s refl w)

  opens-IsWithin :
      (now : ℕ) (sid principal : String) (n : ℕ) (s : State)
      → s.without_session ≡ n
      → IsWithin m s
      → IsWithin m (opens now sid principal n s)
  unfolding session_initialized
  opens-IsWithin now sid principal zero s e w = w
  opens-IsWithin now sid principal (suc n) s e (limit, room) = (
    limit,
    omega (
      arith,
      room,
      e,
      size-put-le s.sessions sid
          (record { last_seen_at = now; active_requests = 1; principal = principal }),
    ),
  )

  step-IsWithin : (s : State) (e : Event) → IsWithin m s → IsWithin m (step s e)
  unfolding step handle_request finish_request finish_initialization abandon_initialization
      fail_initialization drop_session reap begin_close finish_close
  step-IsWithin s (requests now sid principal b) w = routed_to-IsWithin now sid principal b s w
  step-IsWithin s (request_ends now sid) w =
      with_session_of-IsWithin (less_busy now) sid (get s.sessions sid) s refl w
  step-IsWithin s (session_opens now sid principal) w =
      opens-IsWithin now sid principal s.without_session s refl w
  step-IsWithin s (initialization_ends now sid) w =
      with_session_of-IsWithin (less_busy now) sid (get s.sessions sid)
        (record s { with_session = s.with_session - 1 }) refl w
  step-IsWithin s initialization_stops (limit, room) = (limit, omega (arith, room))
  step-IsWithin s (initialization_fails sid) (limit, room) =
      (limit, omega (arith, room, size-remove-le s.sessions sid))
  step-IsWithin s (session_closes sid) (limit, room) =
      (limit, omega (arith, room, size-remove-le s.sessions sid))
  step-IsWithin s (reaps now) (limit, room) =
      (limit, omega (arith, room, size-retain-le (λ sid x. is_kept now s.idle_ms x) s.sessions))
  step-IsWithin s begins_close w = w
  step-IsWithin s finishes_close (limit, room) =
      if_cases (IsWithin m) (eqb (initializing_sessions s) 0) _ _
        (λ idle. (limit, ground (arith, idle, size-empty))) (λ _. (limit, room))

  run-IsWithin : (s : State) (es : List Event) → IsWithin m s → IsWithin m (run s es)
  unfolding run
  run-IsWithin s [] w = w
  run-IsWithin s (e ∷ es) w = run-IsWithin (step s e) es (step-IsWithin s e w)

  -- There are never more sessions than the configured limit, whatever requests come, and however the
  -- initializations that run at the same time interleave with them.
  pub sessions-run-le :
      (idle_ms : ℕ) (es : List Event) → size (run (init m idle_ms) es).sessions ≤ m
  unfolding init size
  sessions-run-le idle_ms es =
      let (limit, room) = run-IsWithin (init m idle_ms) es (refl, ground arith) in
      omega (arith, room)

-- nothing is open, and nothing will be opened
abbrev IsClosed : State → Type 0
IsClosed s = (s.closing ≡ true) × (s.without_session ≡ 0) × (s.sessions ≡ [])

with_session_of-IsClosed :
    (f : Session → Session) (sid : String) (o : Option Session) (s : State)
    → get s.sessions sid ≡ o
    → IsClosed s
    → IsClosed (with_session_of f sid o s)
unfolding get
with_session_of-IsClosed f sid none s e c = c
with_session_of-IsClosed f sid (some x) s e (closing, idle, empty) =
    ground (arith, e, ap (λ m. get m sid) empty)

reserved_if-IsClosed : (b : Bool) (s : State) → IsClosed s → IsClosed (reserved_if b s).0
reserved_if-IsClosed false s c = c
reserved_if-IsClosed true s (closing, idle, empty) =
    if_cases {A = State × Answer} (λ r. IsClosed r.0)
      (s.closing || leb s.max_sessions (size s.sessions + initializing_sessions s)) _ _
      (λ _. (closing, idle, empty)) (λ free. absurd (ground (arith, free, closing)))

routed-IsClosed :
    (now : ℕ) (sid principal : String) (o : Option Session) (s : State)
    → get s.sessions sid ≡ o
    → IsClosed s
    → IsClosed (routed now sid principal o s).0
unfolding get
routed-IsClosed now sid principal none s e c = c
routed-IsClosed now sid principal (some x) s e (closing, idle, empty) =
    ground (arith, e, ap (λ m. get m sid) empty)

routed_to-IsClosed :
    (now : ℕ) (sid : Option String) (principal : String) (b : Bool) (s : State)
    → IsClosed s
    → IsClosed (routed_to now sid principal b s).0
routed_to-IsClosed now none principal b s c = reserved_if-IsClosed b s c
routed_to-IsClosed now (some sid) principal b s c =
    if_cases {A = State × Answer} (λ r. IsClosed r.0) (sid == "") _ _
      (λ _. reserved_if-IsClosed b s c)
      (λ _. routed-IsClosed now sid principal (get s.sessions sid) s refl c)

opens-IsClosed :
    (now : ℕ) (sid principal : String) (n : ℕ) (s : State)
    → s.without_session ≡ n
    → IsClosed s
    → IsClosed (opens now sid principal n s)
opens-IsClosed now sid principal zero s e c = c
opens-IsClosed now sid principal (suc n) s e (closing, idle, empty) = ground (arith, e, idle)

step-IsClosed : (s : State) (e : Event) → IsClosed s → IsClosed (step s e)
unfolding step handle_request finish_request finish_initialization abandon_initialization
    fail_initialization drop_session reap begin_close finish_close retain remove
step-IsClosed s (requests now sid principal b) c = routed_to-IsClosed now sid principal b s c
step-IsClosed s (request_ends now sid) c =
    with_session_of-IsClosed (less_busy now) sid (get s.sessions sid) s refl c
step-IsClosed s (session_opens now sid principal) c =
    opens-IsClosed now sid principal s.without_session s refl c
step-IsClosed s (initialization_ends now sid) c =
    with_session_of-IsClosed (less_busy now) sid (get s.sessions sid)
      (record s { with_session = s.with_session - 1 }) refl c
step-IsClosed s initialization_stops (closing, idle, empty) = (closing, ground (arith, idle), empty)
step-IsClosed s (initialization_fails sid) (closing, idle, empty) =
    (closing, idle, ap (λ m. remove m sid) empty)
step-IsClosed s (session_closes sid) (closing, idle, empty) =
    (closing, idle, ap (λ m. remove m sid) empty)
step-IsClosed s (reaps now) (closing, idle, empty) =
    (closing, idle, ap (retain (λ sid x. is_kept now s.idle_ms x)) empty)
step-IsClosed s begins_close (closing, idle, empty) = (refl, idle, empty)
step-IsClosed s finishes_close (closing, idle, empty) =
    if_cases IsClosed (eqb (initializing_sessions s) 0) _ _ (λ _. (closing, idle, refl))
      (λ _. (closing, idle, empty))

-- Once the endpoint has closed, with no initialization without a session running, no session is ever opened
-- again.
pub run-closed :
    (s : State) (es : List Event)
    → s.closing ≡ true
    → s.without_session ≡ 0
    → s.sessions ≡ []
    → (run s es).sessions ≡ []
unfolding run
run-closed s [] closing idle empty = empty
run-closed s (e ∷ es) closing idle empty =
    let (closing', idle', empty') = step-IsClosed s e (closing, idle, empty) in
    run-closed (step s e) es closing' idle' empty'
