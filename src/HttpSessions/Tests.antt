-- ===== src/HttpSessions/Tests.antt =====
-- Two slots, and three clients that come at once.
use avito_mcp.Prelude.{
  String, ◌+◌, ◌≤◌, ◌<◌, ◌≡◌, ◌↔◌, ◌⊎◌, refl, true, false, Option, none, some, List, [], ◌∷◌,
}
use avito_mcp.JsMap.{get, put, size}
use avito_mcp.HttpSessions.{
  Session, State, init, handle_request, drop_session, forwards, too_many_sessions, reap,
  session_initialized, finish_initialization, finish_request,
}
use avito_mcp.HttpSessions.Limits.{
  Event, requests, session_opens, initialization_ends, run, step, sessions-run-le, run-closed,
}
use avito_mcp.HttpSessions.Routes.{
  IsOwn, handle_request-IsOwn, handle_request-drop_session, reap_iff,
}

abbrev history : List Event
history =
    requests 0 none "a" true
    ∷ requests 0 none "b" true
    ∷ session_opens 1 "s1" "a"
    ∷ requests 1 none "c" true
    ∷ initialization_ends 2 "s1"
    ∷ []

abbrev opened : State
opened = run (init 2 1000) history

third_is_refused : (handle_request 3 none "c" true opened).1 ≡ too_many_sessions
unfolding run step init handle_request session_initialized put size finish_initialization
    finish_request get
third_is_refused = refl

sessions-run-le_example : size (run (init 2 1000) history).sessions ≤ 2
sessions-run-le_example = sessions-run-le 2 1000 history

abbrev mine : Session
mine = record { last_seen_at = 5; active_requests = 0; principal = "a" }

abbrev one : State
one = record (init 2 1000) { sessions = ("s1", mine) ∷ [] }

forwarded : (handle_request 9 (some "s1") "a" false one).1 ≡ forwards "s1"
unfolding handle_request init get
forwarded = refl

there : get one.sessions "s1" ≡ some mine
unfolding get
there = refl

abbrev named : Option String
named = some "s1"

handle_request-IsOwn_example : (named ≡ some "s1") × IsOwn "a" (get one.sessions "s1")
handle_request-IsOwn_example = handle_request-IsOwn 9 "a" false one named "s1" forwarded

handle_request-drop_session_sample :
    ((handle_request 9 (some "s1") "b" false one).1
      ≡ (handle_request 9 (some "s1") "b" false (drop_session "s1" one)).1)
    × ((handle_request 9 (some "s1") "b" false one).0 ≡ one)
handle_request-drop_session_sample =
    handle_request-drop_session 9 "b" false one "s1" mine there refl refl

reap_iff_sample :
    (get (reap 2000 one).sessions "s1" ≡ some mine)
    ↔ ((get one.sessions "s1" ≡ some mine) × ((0 < 0) ⊎ (2000 ≤ 5 + 1000)))
unfolding init
reap_iff_sample = reap_iff 2000 one "s1" mine

run-closed_sample : (run (record (init 2 1000) { closing = true }) history).sessions ≡ []
unfolding init
run-closed_sample = run-closed (record (init 2 1000) { closing = true }) history refl refl refl
