-- ===== src/Subscriptions/Tests.antt =====
-- A filter with a duplicate, a foreign URI and a value that is no text.
use avito_mcp.Prelude.{String, ◌≡◌, refl, List, [], ◌∷◌, filter, distinct, includes}
use avito_mcp.Json.{Json, Items, no_items, item, no_more, has_property, obj, arr, str, null}
use avito_mcp.Subscriptions.{
  honored_uris, honored_from, narrow_listen_request, dropped_subscription_uris, listen_request,
  not_allowed,
}
use avito_mcp.Subscriptions.Honored.{honored_uris_lem, narrow_listen_request_lem, texts}

abbrev offered : List String
offered = "avito://account" ∷ "avito://webhook/events" ∷ []

abbrev asked : Items
asked = item (str "avito://webhook/events") (
    item (str "file:///etc/passwd")
      (item null (item (str "avito://webhook/events") (item (str "avito://account") no_items))))

abbrev listen : Json
listen = obj (
    has_property "method" (str "subscriptions/listen") (
      has_property "params"
        (obj (
          has_property "notifications"
            (obj (has_property "resourceSubscriptions" (arr asked) no_more)) no_more))
        no_more))

left : honored_uris offered asked ≡ "avito://webhook/events" ∷ "avito://account" ∷ []
unfolding honored_uris honored_from
left = refl

dropped : dropped_subscription_uris listen offered ≡ "file:///etc/passwd" ∷ []
unfolding dropped_subscription_uris listen_request not_allowed
dropped = refl

honored_uris_lem_example :
    honored_uris offered asked ≡ distinct (filter (λ x. includes offered x) (texts asked))
honored_uris_lem_example = honored_uris_lem offered asked

narrow_listen_request_lem_example :
    dropped_subscription_uris (narrow_listen_request listen offered) offered ≡ []
narrow_listen_request_lem_example = narrow_listen_request_lem offered listen
