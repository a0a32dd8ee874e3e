-- ===== src/HttpSessions/Routes.antt =====
-- Where http/mcp-http.ts lets a request go, and which sessions it reaps.
use avito_mcp.Prelude.{
  ℕ, zero, String, ◌+◌, ◌≤◌, ◌<◌, ◌≡◌, ◌↔◌, ◌⊎◌, Bool, true, false, not, ◌||◌, Option, none, some,
  arith, leb, if_cases, ap, ◌==◌, eq_iff,
}
use mathlib.Core.Path.{subst}
use avito_mcp.JsMap.{get, size}
use avito_mcp.JsMap.Laws.{get-retain, get-remove_self}
use avito_mcp.HttpSessions.{
  Session, State, Answer, forwards, routed, reserved_if, handle_request, drop_session, is_kept,
  reap, initializing_sessions,
}

-- whose session it is
abbrev pub IsOwn : (principal : String) → Option Session → Type 0
IsOwn principal none = zero ≡ 1
IsOwn principal (some x) = x.principal ≡ principal

module _ (now : ℕ) (principal : String) (is_initialize : Bool) (s : State) where
  reserved_if-forwards : (b : Bool) (sid : String) → (reserved_if b s).1 ≡ forwards sid → zero ≡ 1
  reserved_if-forwards false sid = λ h. ground (arith, h)
  reserved_if-forwards true sid =
      if_cases {A = State × Answer} (λ r. r.1 ≡ forwards sid → zero ≡ 1)
        (s.closing || leb s.max_sessions (size s.sessions + initializing_sessions s)) _ _
        (λ _ h. ground (arith, h)) (λ _ h. ground (arith, h))

  routed-IsOwn :
      (sid to : String) (o : Option Session)
      → (routed now sid principal o s).1 ≡ forwards to
      → (sid ≡ to) × IsOwn principal o
  routed-IsOwn sid to none = λ h. ground (arith, h)
  routed-IsOwn sid to (some x) =
      if_cases {A = State × Answer}
        (λ r. r.1 ≡ forwards to → (sid ≡ to) × (x.principal ≡ principal))
        (not (x.principal == principal)) _ _ (λ _ h. ground (arith, h))
        (λ own h. (ground (arith, h), ground (arith, own, eq_iff x.principal principal)))

  -- A request is forwarded only to the session that it names, and only if that session was opened by the
  -- same principal.
  pub handle_request-IsOwn :
      (session_id : Option String) (to : String)
      → (handle_request now session_id principal is_initialize s).1 ≡ forwards to
      → (session_id ≡ some to) × IsOwn principal (get s.sessions to)
  unfolding handle_request
  handle_request-IsOwn none to = λ h. ground (arith, reserved_if-forwards is_initialize to h)
  handle_request-IsOwn (some sid) to =
      if_cases {A = State × Answer}
        (λ r. r.1 ≡ forwards to → (some sid ≡ some to) × IsOwn principal (get s.sessions to))
        (sid == "") _ _ (λ _ h. ground (arith, reserved_if-forwards is_initialize to h))
        (λ _ h.
          let (same, own) = routed-IsOwn sid to (get s.sessions sid) h in
          (ap some same, subst (λ k. IsOwn principal (get s.sessions k)) same own))

  -- A session of another principal cannot be told from one that is not there: the answer is the same as if
  -- it had been dropped, and nothing is changed.
  pub handle_request-drop_session :
      (sid : String) (x : Session)
      → get s.sessions sid ≡ some x
      → (x.principal == principal) ≡ false
      → (sid == "") ≡ false
      → ((handle_request now (some sid) principal is_initialize s).1
          ≡ (handle_request now (some sid) principal is_initialize (drop_session sid s)).1)
        × ((handle_request now (some sid) principal is_initialize s).0 ≡ s)
  unfolding handle_request drop_session
  handle_request-drop_session sid x there foreign named =
      ground (arith, there, foreign, named, get-remove_self s.sessions sid)

-- The reaper leaves exactly the sessions that carry a request or were seen within the idle time.
pub reap_iff :
    (now : ℕ) (s : State) (sid : String) (x : Session)
    → (get (reap now s).sessions sid ≡ some x) ↔ (
        (get s.sessions sid ≡ some x)
        × ((0 < x.active_requests) ⊎ (now ≤ x.last_seen_at + s.idle_ms)))
unfolding reap
reap_iff now s sid x = ground (arith, get-retain (λ sid x. is_kept now s.idle_ms x) s.sessions sid)
