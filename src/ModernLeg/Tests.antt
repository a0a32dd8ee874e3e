-- ===== src/ModernLeg/Tests.antt =====
-- Two slots, one of them for a stream; a stream that ends twice gives its slot back once.
use avito_mcp.Prelude.{
  String, ◌≤◌, ◌<◌, ◌≡◌, ◌↔◌, ◌⊎◌, refl, true, false, none, some, List, [], ◌∷◌,
}
use avito_mcp.Json.{Json, obj, str, has_property, no_more}
use avito_mcp.Subscriptions.{narrow_listen_request, listen_request}
use avito_mcp.ModernLeg.{
  State, init, Request, dual, modern, modern_request, legacy_message, dispatch_by_era, refuses,
  serves, missing_protocol_version, goes_legacy, passes_on, method_not_allowed,
  stream_limit_reached, inflight_limit_reached, admit_modern_exchange, is_listen_request, release,
}
use avito_mcp.ModernLeg.Slots.{
  Event, arrives, ends, run, step, open_exchanges, open_streams, open_exchanges-run-le,
  admit_modern_exchange_iff,
}

abbrev calls : String → Json
calls method = obj (has_property "method" (str method) no_more)

abbrev posts : String → Request
posts method = record {
  is_post = true;
  protocol_version = some "2026-07-28";
  route = modern_request;
  body = calls method;
}

abbrev listens : Event
listens = arrives dual [] (posts "subscriptions/listen")

abbrev lists : Event
lists = arrives dual [] (posts "tools/list")

abbrev busy : State
busy = run (init 2 1) (listens ∷ [])

second_stream_is_refused :
    (dispatch_by_era dual [] (posts "subscriptions/listen") busy).1 ≡ refuses stream_limit_reached
unfolding run step init dispatch_by_era admit_modern_exchange is_listen_request
    narrow_listen_request listen_request
second_stream_is_refused = refl

call_is_served : (dispatch_by_era dual [] (posts "tools/list") busy).1 ≡ serves (calls "tools/list")
unfolding run step init dispatch_by_era admit_modern_exchange is_listen_request
    narrow_listen_request listen_request
call_is_served = refl

third_is_refused :
    (dispatch_by_era dual [] (posts "tools/list") (run (init 2 1) (listens ∷ lists ∷ []))).1
    ≡ refuses inflight_limit_reached
unfolding run step init dispatch_by_era admit_modern_exchange is_listen_request
    narrow_listen_request listen_request
third_is_refused = refl

legacy_message_is_routed :
    ((dispatch_by_era dual [] (record (posts "tools/list") { route = legacy_message }) busy).1
      ≡ goes_legacy)
    × ((dispatch_by_era modern [] (record (posts "tools/list") { route = legacy_message }) busy).1
        ≡ passes_on)
unfolding dispatch_by_era
legacy_message_is_routed = (refl, refl)

version_is_asked_for :
    (dispatch_by_era dual [] (record (posts "tools/list") { protocol_version = none }) busy).1
    ≡ missing_protocol_version
unfolding dispatch_by_era
version_is_asked_for = refl

get_is_refused :
    (dispatch_by_era dual [] (record (posts "") { is_post = false }) busy).1 ≡ method_not_allowed
unfolding dispatch_by_era
get_is_refused = refl

-- the stream ends twice
abbrev history : List Event
history = listens ∷ lists ∷ ends 0 ∷ ends 0 ∷ []

open_exchanges-run-le_example :
    (open_exchanges (run (init 2 1) history) ≤ 2) × (open_streams (run (init 2 1) history) ≤ 1)
open_exchanges-run-le_example = open_exchanges-run-le 2 1 history

one_runs : (run (init 2 1) history).modern_inflight ≡ 1
unfolding run step init dispatch_by_era admit_modern_exchange is_listen_request
    narrow_listen_request listen_request release
one_runs = refl

admit_modern_exchange_iff_example :
    ((admit_modern_exchange true (run (init 2 1) history)).1 ≡ none) ↔ (
      ((run (init 2 1) history).closing ≡ false)
      × ((true ≡ false) ⊎ (open_streams (run (init 2 1) history) < 1))
      × (open_exchanges (run (init 2 1) history) < 2))
admit_modern_exchange_iff_example = admit_modern_exchange_iff 2 1 history true
