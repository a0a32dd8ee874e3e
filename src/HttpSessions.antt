-- ===== src/HttpSessions.antt =====
-- The sessions of the legacy endpoint in http/mcp-http.ts. An event is what runs between two waits; the
-- transport and the server of a session are the SDK's, and are left out. The running initializations
-- are two counts: of those that have no session yet, and of those that have one.
pub mod Limits
pub mod Routes
mod Tests
use avito_mcp.Prelude.{
  ℕ, zero, suc, String, ◌+◌, ◌-◌, ◌==◌, Bool, true, false, not, ◌&&◌, ◌||◌, Option, none, some,
  List, [], ◌∷◌, leb, ltb, eqb, if◌then◌else◌,
}
use avito_mcp.JsMap.{JsMap, get, put, remove, retain, size}

pub record Session : Type 0 where
  pub last_seen_at : ℕ
  pub active_requests : ℕ
  pub principal : String

pub record State : Type 0 where
  pub max_sessions : ℕ
  pub idle_ms : ℕ
  pub sessions : JsMap Session
  pub without_session : ℕ
  pub with_session : ℕ
  pub closing : Bool

-- what a request is answered, or where it goes
pub data Answer : Type 0 where
  unknown_session missing_session too_many_sessions : Answer
  forwards : (session_id : String) → Answer
  initializes : Answer

unfoldable pub init : (max_sessions idle_ms : ℕ) → State
init max_sessions idle_ms = record {
  max_sessions = max_sessions;
  idle_ms = idle_ms;
  sessions = [];
  without_session = 0;
  with_session = 0;
  closing = false;
}

-- `initializingSessions`
abbrev pub initializing_sessions : State → ℕ
initializing_sessions s = s.without_session + s.with_session

abbrev pub busier : ℕ → Session → Session
busier now x = record x { last_seen_at = now; active_requests = suc x.active_requests }

abbrev pub less_busy : ℕ → Session → Session
less_busy now x = record x { last_seen_at = now; active_requests = x.active_requests - 1 }

abbrev pub routed : ℕ → (sid principal : String) → Option Session → State → State × Answer
routed now sid principal none s = (s, unknown_session)
routed now sid principal (some x) s =
    if not (x.principal == principal)
    then (s, unknown_session)
    else (record s { sessions = put s.sessions sid (busier now x) }, forwards sid)

abbrev pub reserved : State → State × Answer
reserved s =
    if s.closing || leb s.max_sessions (size s.sessions + initializing_sessions s)
    then (s, too_many_sessions)
    else (record s { without_session = suc s.without_session }, initializes)

abbrev pub reserved_if : Bool → State → State × Answer
reserved_if is_initialize s = if is_initialize then reserved s else (s, missing_session)

abbrev pub routed_to :
    ℕ → (session_id : Option String) → (principal : String) → Bool → State → State × Answer
routed_to now (some sid) principal is_initialize s =
    if sid == ""
    then reserved_if is_initialize s
    else routed now sid principal (get s.sessions sid) s
routed_to now none principal is_initialize s = reserved_if is_initialize s

-- `handleLegacyRequest` until it waits; `is_initialize` is a POST of an initialize request
unfoldable pub handle_request :
    (now : ℕ)
    → (session_id : Option String) → (principal : String) → (is_initialize : Bool) → State
    → State × Answer
handle_request now session_id principal is_initialize s =
    routed_to now session_id principal is_initialize s

abbrev pub with_session_of : (Session → Session) → String → Option Session → State → State
with_session_of f sid none s = s
with_session_of f sid (some x) s = record s { sessions = put s.sessions sid (f x) }

-- a forwarded request comes to its end
unfoldable pub finish_request : (now : ℕ) → (sid : String) → State → State
finish_request now sid s = with_session_of (less_busy now) sid (get s.sessions sid) s

-- `dropSession`
unfoldable pub drop_session : String → State → State
drop_session sid s = record s { sessions = remove s.sessions sid }

-- `onsessioninitialized`, which the transport of a running initialization calls
unfoldable pub session_initialized : (now : ℕ) → (sid principal : String) → State → State
session_initialized now sid principal s = record s {
  without_session = s.without_session - 1;
  with_session = suc s.with_session;
  sessions =
      put s.sessions sid
        (record { last_seen_at = now; active_requests = 1; principal = principal });
}

-- `createSession` comes to its end with a session, without one, or with an error after it had one
unfoldable pub finish_initialization : (now : ℕ) → (sid : String) → State → State
finish_initialization now sid s =
    finish_request now sid (record s { with_session = s.with_session - 1 })

unfoldable pub abandon_initialization : State → State
abandon_initialization s = record s { without_session = s.without_session - 1 }

unfoldable pub fail_initialization : (sid : String) → State → State
fail_initialization sid s = drop_session sid (record s { with_session = s.with_session - 1 })

abbrev pub is_kept : (now idle_ms : ℕ) → Session → Bool
is_kept now idle_ms x = not (eqb x.active_requests 0 && ltb (x.last_seen_at + idle_ms) now)

-- the reaper: closing a transport drops its session
unfoldable pub reap : (now : ℕ) → State → State
reap now s = record s { sessions = retain (λ sid x. is_kept now s.idle_ms x) s.sessions }

-- `closeAll`, before and after it waits for the running initializations
unfoldable pub begin_close : State → State
begin_close s = record s { closing = true }

unfoldable pub finish_close : State → State
finish_close s = if eqb (initializing_sessions s) 0 then record s { sessions = [] } else s
