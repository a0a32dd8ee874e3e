-- ===== src/Webhook/Tests.antt =====
-- The webhook store at concrete deliveries.
use avito_mcp.Prelude.{
  ℕ, String, ◌≡◌, ◌≤◌, ◌↔◌, refl, none, some, List, [], ◌∷◌, ◌++◌, map, arith, length, In, eqb,
  if◌then◌else◌, max,
}
use avito_mcp.Json.{Json, num, str, obj, no_more, has_property}
use avito_mcp.Webhook.{
  Store, Delivery, LogLine, WebhookEvent, Query, init, event_of, record_event, deliver, summarise,
  stats, list_events,
}
use avito_mcp.Webhook.Buffer.{last_n, line_of, deliver-init, append_queue-deliver-init}
use avito_mcp.Webhook.Listing.{Matches, list_events_iff, list_events_limited}
use avito_mcp.Webhook.Rotation.{
  Files, rotate_log, rotate_log_lem, file_bytes, persist_line, persist_line-bounded,
}

abbrev message : String → Json
message chat = obj (
    has_property "id" (str "m1") (
      has_property "payload"
        (obj (
          has_property "type" (str "message") (
            has_property "value"
              (obj (has_property "chat_id" (str chat) (has_property "author_id" (num 7) no_more)))
              no_more)))
        no_more))

abbrev first : Delivery
first = record { recv_id = "a"; now = 10; raw = message "c1" }

abbrev second : Delivery
second = record { recv_id = "b"; now = 20; raw = message "c2" }

abbrev history : List Delivery
history = first ∷ second ∷ []

summarise-message : (summarise (message "c1")).chat_id ≡ some "c1"
unfolding summarise
summarise-message = refl

deliver-init_example :
    ((deliver (init 1 none) history).events ≡ last_n 1 (map event_of history))
    × ((stats (deliver (init 1 none) history)).total_received ≡ 2)
deliver-init_example = deliver-init 1 none history

append_queue-deliver-init_sample :
    (deliver (init 1 (some "log")) history).append_queue ≡ map line_of history
append_queue-deliver-init_sample = append_queue-deliver-init 1 (some "log") history

abbrev full : Store
full = deliver (init 5 none) history

abbrev in_first_chat : Query
in_first_chat = record { since = some 5; chat_id = some "c1"; limit = none }

list_events_iff_sample :
    In (event_of first) (list_events full in_first_chat)
    ↔ (In (event_of first) full.events × Matches in_first_chat (event_of first))
list_events_iff_sample = list_events_iff full in_first_chat (event_of first) refl

abbrev latest : Query
latest = record { since = none; chat_id = none; limit = some 1 }

at_most_one_listed :
    (length (list_events full latest) ≤ 1)
    × ((e : WebhookEvent) → In e (list_events full latest) → In e full.events × Matches latest e)
at_most_one_listed = list_events_limited full latest 1 refl

list_latest : map (λ e. e.recv_id) (list_events full latest) ≡ "b" ∷ []
unfolding list_events deliver init record_event
list_latest = refl

abbrev written : LogLine
written = line_of first

abbrev one_file : Files
one_file j = if eqb j 0 then some (written ∷ []) else none

rotate_log_lem_sample : rotate_log 2 one_file 1 ≡ some (written ∷ [])
rotate_log_lem_sample = rotate_log_lem 2 one_file 1 (omega arith)

abbrev eight_bytes : LogLine → ℕ
eight_bytes l = 8

persist_line-bounded_sample :
    (older : List LogLine) × (persist_line eight_bytes 10 2 one_file written 0
      ≡ some (older ++ written ∷ []))
    × (file_bytes eight_bytes (older ++ written ∷ []) ≤ max 10 8)
persist_line-bounded_sample = persist_line-bounded eight_bytes 10 2 one_file written (omega arith)
