-- ===== src/Subscriptions.antt =====
-- core/subscriptions.ts: the filter of a `subscriptions/listen` request, reduced to what the server can
-- deliver. The set of allowed URIs is a list.
pub mod Honored
mod Tests
use avito_mcp.Prelude.{
  String, Bool, true, false, not, ◌&&◌, Option, none, some, List, [], ◌∷◌, ◌++◌, includes, eqb,
  length, if◌then◌else◌, ◌==◌,
}
use avito_mcp.Json.{
  Json, Properties, no_more, has_property, Items, no_items, item, obj, arr, str, find_property,
  set_property, pick, count_items,
}

abbrev pub text_of : Json → Option String
text_of (str s) = some s
text_of _ = none

abbrev honor : List String → Option String → List String → List String
honor allowed none honored = honored
honor allowed (some uri) honored =
    if includes allowed uri && not (includes honored uri) then honored ++ uri ∷ [] else honored

-- the loop over the requested URIs
unfoldable pub honored_from : List String → Items → List String → List String
honored_from allowed no_items honored = honored
honored_from allowed (item first others) honored =
    honored_from allowed others (honor allowed (text_of first) honored)

unfoldable pub honored_uris : List String → Items → List String
honored_uris allowed requested = honored_from allowed requested []

abbrev pub same_uri : String → Option String → Bool
same_uri uri none = false
same_uri uri (some other) = uri == other

-- the lengths are equal and so are the members
unfoldable pub is_unchanged : List String → Items → Bool
is_unchanged [] no_items = true
is_unchanged (uri ∷ uris) (item first others) =
    same_uri uri (text_of first) && is_unchanged uris others
is_unchanged _ _ = false

unfoldable pub to_items : List String → Items
to_items [] = no_items
to_items (uri ∷ uris) = item (str uri) (to_items uris)

-- what a body asks for, or nothing where one of the tests fails that the body is such a request
abbrev items_in : Option Json → Option Items
items_in (some (arr requested)) = some requested
items_in _ = none

abbrev properties_in : Option Json → Option Properties
properties_in (some (obj ps)) = some ps
properties_in _ = none

abbrev is_listen : Option Json → Bool
is_listen (some (str method)) = method == "subscriptions/listen"
is_listen _ = false

-- the members of the request on the way down to the URIs
pub record Request : Type 0 where
  pub body : Properties
  pub params : Properties
  pub notifications : Properties
  pub requested : Items

abbrev request_in : Properties → Properties → Properties → Option Items → Option Request
request_in body params notifications none = none
request_in body params notifications (some requested) =
    some (record {
      body = body;
      params = params;
      notifications = notifications;
      requested = requested;
    })

abbrev from_notifications : Properties → Properties → Option Properties → Option Request
from_notifications body params none = none
from_notifications body params (some notifications) =
    request_in body params notifications
      (items_in (find_property notifications "resourceSubscriptions"))

abbrev from_params : Properties → Option Properties → Option Request
from_params body none = none
from_params body (some params) =
    from_notifications body params (properties_in (find_property params "notifications"))

unfoldable pub listen_request : Json → Option Request
listen_request (obj body) =
    if is_listen (find_property body "method")
    then from_params body (properties_in (find_property body "params"))
    else none
listen_request _ = none

-- `resourceSubscriptions` set, or deleted where nothing is left
abbrev pub narrowed_notifications : Properties → List String → Properties
narrowed_notifications ps [] = pick (λ k. not (k == "resourceSubscriptions")) ps
narrowed_notifications ps (uri ∷ uris) =
    set_property ps "resourceSubscriptions" (arr (to_items (uri ∷ uris)))

abbrev narrow_request : List String → Json → Option Request → Json
narrow_request allowed body none = body
narrow_request allowed body (some r) =
    let honored = honored_uris allowed r.requested in
    if is_unchanged honored r.requested
    then body
    else obj (
        set_property r.body "params" (
          obj (
            set_property r.params "notifications"
              (obj (narrowed_notifications r.notifications honored)))))

-- `narrowListenRequest`
unfoldable pub narrow_listen_request : Json → List String → Json
narrow_listen_request body allowed = narrow_request allowed body (listen_request body)

abbrev drop_if : List String → Option String → List String → List String
drop_if allowed none rest = rest
drop_if allowed (some uri) rest = if includes allowed uri then rest else uri ∷ rest

unfoldable pub not_allowed : List String → Items → List String
not_allowed allowed no_items = []
not_allowed allowed (item first others) =
    drop_if allowed (text_of first) (not_allowed allowed others)

abbrev dropped_from : List String → Option Request → List String
dropped_from allowed none = []
dropped_from allowed (some r) = not_allowed allowed r.requested

-- `droppedSubscriptionUris`
unfoldable pub dropped_subscription_uris : Json → List String → List String
dropped_subscription_uris body allowed = dropped_from allowed (listen_request body)
