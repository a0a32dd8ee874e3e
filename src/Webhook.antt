-- ===== src/Webhook.antt =====
-- core/webhook-store.ts: the ring buffer of webhook deliveries and its optional log.
pub mod Buffer
pub mod Listing
pub mod Rotation
mod Tests
use avito_mcp.Prelude.{
  ℕ, zero, suc, String, ◌+◌, ◌-◌, Bool, true, false, Option, none, some, List, [], ◌∷◌, ◌++◌,
  reverse, ltb, leb, length, take, drop, filter, is_some, ◌==◌, if◌then◌else◌,
}
use avito_mcp.Json.{Json, num, str, field}

-- what `summarise` reads from the envelope
pub record Summary : Type 0 where
  pub id : Option String
  pub version : Option String
  pub timestamp : Option ℕ
  pub payload_type : Option String
  pub chat_id : Option String
  pub author_id : Option ℕ
  pub message_type : Option String
  pub user_id : Option ℕ
  pub item_id : Option ℕ

pub record WebhookEvent : Type 0 where
  pub recv_id : String
  pub received_at : ℕ
  pub summary : Summary
  pub open summary use *
  pub raw : Json

abbrev as_num : Option Json → Option ℕ
as_num (some (num n)) = some n
as_num _ = none

-- the first `n` characters, `v.slice(0, n)` for text of the basic plane
first_chars : ℕ → String → String
first_chars zero s = ""
first_chars (suc n) String.[] = ""
first_chars (suc n) (String.◌∷◌ c s) = String.◌∷◌ c (first_chars n s)

as_str : Option Json → Option String
as_str (some (str s)) = some (first_chars 512 s)
as_str _ = none

-- a step into a property that may be missing
abbrev child : Option Json → String → Option Json
child none k = none
child (some v) k = field v k

unfoldable pub summarise : Json → Summary
unfolding as_str first_chars
summarise raw =
    let payload = field raw "payload" in
    let value = child payload "value" in
    record {
      id = as_str (field raw "id");
      version = as_str (field raw "version");
      timestamp = as_num (field raw "timestamp");
      payload_type = as_str (child payload "type");
      chat_id = as_str (child value "chat_id");
      author_id = as_num (child value "author_id");
      message_type = as_str (child value "type");
      user_id = as_num (child value "user_id");
      item_id = as_num (child value "item_id");
    }

-- a line of the log: the event without its raw payload
pub record LogLine : Type 0 where
  pub recv_id : String
  pub received_at : ℕ
  pub summary : Summary

abbrev pub persisted : WebhookEvent → LogLine
persisted event = record {
  recv_id = event.recv_id;
  received_at = event.received_at;
  summary = event.summary;
}

pub record Store : Type 0 where
  pub buffer_size : ℕ
  pub log_file : Option String
  pub events : List WebhookEvent
  pub total : ℕ
  pub last_received_at : Option ℕ
  pub append_queue : List LogLine

unfoldable pub init : ℕ → Option String → Store
init buffer_size log_file = record {
  buffer_size = buffer_size;
  log_file = log_file;
  events = [];
  total = 0;
  last_received_at = none;
  append_queue = [];
}

-- `appendLog`: the raw payload is left out, and without a log file nothing is queued
append_log : Store → WebhookEvent → Store
append_log s event =
    if is_some s.log_file
    then record s { append_queue = s.append_queue ++ persisted event ∷ [] }
    else s

-- one call of `record`: the receipt id and the time are what the call reads
pub record Delivery : Type 0 where
  pub recv_id : String
  pub now : ℕ
  pub raw : Json

unfoldable pub event_of : Delivery → WebhookEvent
event_of d = record {
  recv_id = d.recv_id;
  received_at = d.now;
  summary = summarise d.raw;
  raw = d.raw;
}

-- `events.push(event)`, and the `splice` when the buffer is over its size
abbrev pub trim : ℕ → List WebhookEvent → List WebhookEvent
trim n xs = if ltb n (length xs) then drop (length xs - n) xs else xs

unfoldable pub record_event : Store → Delivery → Store
unfolding event_of append_log
record_event s d =
    let event = event_of d in
    append_log
      (record s {
        events = trim s.buffer_size (s.events ++ event ∷ []);
        total = s.total + 1;
        last_received_at = some event.received_at;
      })
      event

unfoldable pub deliver : Store → List Delivery → Store
deliver s [] = s
deliver s (d ∷ ds) = deliver (record_event s d) ds

pub record Query : Type 0 where
  pub since : Option ℕ
  pub chat_id : Option String
  pub limit : Option ℕ

abbrev since_ok : Option ℕ → WebhookEvent → Bool
since_ok none e = true
since_ok (some t) e = leb t e.received_at

abbrev same_text : Option String → String → Bool
same_text none s = false
same_text (some t) s = t == s

abbrev chat_ok : Option String → WebhookEvent → Bool
chat_ok none e = true
chat_ok (some c) e = same_text e.chat_id c

abbrev limited : Option ℕ → List WebhookEvent → List WebhookEvent
limited none xs = xs
limited (some n) xs = take n xs

-- newest first; a negative `limit`, which the source ignores, is `none`
unfoldable pub list_events : Store → Query → List WebhookEvent
list_events s q =
    limited q.limit (filter (chat_ok q.chat_id) (filter (since_ok q.since) (reverse s.events)))

pub record Stats : Type 0 where
  pub retained : ℕ
  pub total_received : ℕ
  pub last_received_at : Option ℕ
  pub buffer_size : ℕ

unfoldable pub stats : Store → Stats
stats s = record {
  retained = length s.events;
  total_received = s.total;
  last_received_at = s.last_received_at;
  buffer_size = s.buffer_size;
}
