-- ===== src/ModernLeg.antt =====
-- The modern leg of http/mcp-http.ts: which leg a request goes to, and the two counts of running
-- exchanges. An exchange keeps a record of its own, which stands for the `released` of its closure and
-- outlives it here. The SDK's classification of a request, and its handler, are not modelled.
pub mod Slots
mod Tests
use avito_mcp.Prelude.{
  ℕ, zero, suc, String, ◌+◌, ◌-◌, ◌==◌, Bool, true, false, not, ◌&&◌, ◌||◌, Option, none, some,
  List, [], ◌∷◌, ◌++◌, leb, if◌then◌else◌,
}
use avito_mcp.Json.{Json, obj, str, find_property, Properties}
use avito_mcp.Subscriptions.{narrow_listen_request}

-- one admitted exchange, and whether its `release` has run
pub record Exchange : Type 0 where
  pub is_stream : Bool
  pub released : Bool

pub record State : Type 0 where
  pub max_inflight : ℕ
  pub max_streams : ℕ
  pub modern_inflight : ℕ
  pub modern_streams : ℕ
  pub closing : Bool
  pub exchanges : List Exchange

pub data Refusal : Type 0 where
  shutting_down stream_limit_reached inflight_limit_reached : Refusal

unfoldable pub init : (max_inflight max_streams : ℕ) → State
init max_inflight max_streams = record {
  max_inflight = max_inflight;
  max_streams = max_streams;
  modern_inflight = 0;
  modern_streams = 0;
  closing = false;
  exchanges = [];
}

abbrev is_method : Option Json → Bool
is_method (some (str method)) = method == "subscriptions/listen"
is_method _ = false

-- `isListenRequest`
unfoldable pub is_listen_request : Json → Bool
is_listen_request (obj body) = is_method (find_property body "method")
is_listen_request _ = false

-- `+= 1` and `Math.max(0, - 1)`, for a stream only
abbrev pub one_more : Bool → ℕ → ℕ
one_more true n = suc n
one_more false n = n

abbrev pub one_less : Bool → ℕ → ℕ
one_less true n = n - 1
one_less false n = n

abbrev pub admitted : Bool → State → State
admitted is_stream s = record s {
  modern_inflight = suc s.modern_inflight;
  modern_streams = one_more is_stream s.modern_streams;
  exchanges = s.exchanges ++ record { is_stream = is_stream; released = false } ∷ [];
}

-- `admitModernExchange`
unfoldable pub admit_modern_exchange : (is_stream : Bool) → State → State × Option Refusal
admit_modern_exchange is_stream s =
    if s.closing
    then (s, some shutting_down)
    else if is_stream && leb s.max_streams s.modern_streams
    then (s, some stream_limit_reached)
    else if leb s.max_inflight s.modern_inflight
    then (s, some inflight_limit_reached)
    else (admitted is_stream s, none)

abbrev pub exchange_at : ℕ → List Exchange → Option Exchange
exchange_at i [] = none
exchange_at zero (x ∷ xs) = some x
exchange_at (suc i) (x ∷ xs) = exchange_at i xs

abbrev pub mark_released : ℕ → List Exchange → List Exchange
mark_released i [] = []
mark_released zero (x ∷ xs) = record x { released = true } ∷ xs
mark_released (suc i) (x ∷ xs) = x ∷ mark_released i xs

abbrev pub released_one : ℕ → Option Exchange → State → State
released_one i none s = s
released_one i (some x) s = if x.released then s else record s {
  modern_inflight = s.modern_inflight - 1;
  modern_streams = one_less x.is_stream s.modern_streams;
  exchanges = mark_released i s.exchanges;
}

-- `release` of the exchange that was admitted as number `i`
unfoldable pub release : ℕ → State → State
release i s = released_one i (exchange_at i s.exchanges) s

pub data Era : Type 0 where
  dual modern : Era

-- what `classifyInboundRequest` makes of a POST
pub data Route : Type 0 where
  legacy_message modern_request modern_notification reject : Route

pub record Request : Type 0 where
  pub is_post : Bool
  -- the version header, without the blanks around it
  pub protocol_version : Option String
  pub route : Route
  pub body : Json

pub data Answer : Type 0 where
  method_not_allowed missing_protocol_version : Answer
  -- `handleLegacyRequest`, and the SDK's handler without a slot
  goes_legacy passes_on : Answer
  refuses : (refusal : Refusal) → Answer
  -- the SDK's handler, with a slot held
  serves : (body : Json) → Answer

abbrev pub names_modern_revision : Option String → Bool
names_modern_revision none = false
names_modern_revision (some value) = value == "2026-07-28"

abbrev is_modern : Era → Bool
is_modern modern = true
is_modern dual = false

abbrev pub answer_of : Json → State × Option Refusal → State × Answer
answer_of body (s, none) = (s, serves body)
answer_of body (s, some refusal) = (s, refuses refusal)

abbrev pub exchanged : List String → Json → State → State × Answer
exchanged publishable_uris body s =
    answer_of (narrow_listen_request body publishable_uris)
      (admit_modern_exchange (is_listen_request body) s)

abbrev pub routed : Era → List String → Route → Option String → Json → State → State × Answer
routed modern uris legacy_message version body s = (s, passes_on)
routed dual uris legacy_message version body s = (s, goes_legacy)
routed era uris modern_request none body s = (s, missing_protocol_version)
routed era uris _ version body s = exchanged uris body s

-- `dispatchByEra` until it waits for the SDK
unfoldable pub dispatch_by_era : Era → List String → Request → State → State × Answer
dispatch_by_era era publishable_uris q s =
    if q.is_post
    then routed era publishable_uris q.route q.protocol_version q.body s
    else if is_modern era || names_modern_revision q.protocol_version
    then (s, method_not_allowed)
    else (s, goes_legacy)

-- `closeAll` begins
unfoldable pub begin_close : State → State
begin_close s = record s { closing = true }
