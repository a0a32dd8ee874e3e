-- ===== src/Subscriptions/Honored.antt =====
-- What core/subscriptions.ts leaves of a filter, against a description without a loop.
use avito_mcp.Prelude.{
  String, ◌≡◌, refl, Bool, true, false, not, ◌&&◌, ◌||◌, Option, none, some, List, [], ◌∷◌, ◌++◌,
  includes, filter, distinct, all, filter-filter, if_cases, if◌then◌else◌, ◌==◌, arith, ap, sym,
  ◌∙◌, eq_iff,
}
use avito_mcp.Json.{
  Json, Properties, Items, no_items, item, obj, arr, find_property, set_property, pick,
}
use avito_mcp.Json.Laws.{find_property-set_property, find_property-pick}
use avito_mcp.Subscriptions.{
  text_of, honor, honored_from, honored_uris, same_uri, is_unchanged, to_items, listen_request,
  Request, narrowed_notifications, narrow_listen_request, not_allowed, dropped_subscription_uris,
  narrow_request, drop_if, dropped_from, request_in, items_in, properties_in, from_notifications,
  from_params, is_listen,
}

abbrev with_text : Option String → List String → List String
with_text none rest = rest
with_text (some uri) rest = uri ∷ rest

-- the texts among the requested values
abbrev pub texts : Items → List String
texts no_items = []
texts (item first others) = with_text (text_of first) (texts others)

append_nil : {A : Type 0} (xs : List A) → xs ++ [] ≡ xs
append_nil [] = refl
append_nil (x ∷ xs) = ap (λ ys. x ∷ ys) (append_nil xs)

append_assoc : {A : Type 0} (xs ys zs : List A) → (xs ++ ys) ++ zs ≡ xs ++ (ys ++ zs)
append_assoc [] ys zs = refl
append_assoc (x ∷ xs) ys zs = ap (λ us. x ∷ us) (append_assoc xs ys zs)

includes-append :
    (xs : List String) (u x : String) → includes (xs ++ u ∷ []) x ≡ (includes xs x || u == x)
includes-append [] u x = ground arith
includes-append (y ∷ xs) u x = ground (arith, includes-append xs u x)

-- two filters in one
filter-both :
    (xs : List String) (u : String) (ys : List String)
    → filter (λ x. not (includes (xs ++ u ∷ []) x)) ys
      ≡ filter (λ x. not (includes xs x)) (filter (λ y. not (y == u)) ys)
filter-both xs u [] = refl
filter-both xs u (y ∷ ys) =
    ground (arith, includes-append xs u y, eq_iff u y, eq_iff y u, filter-both xs u ys)

module _ (allowed : List String) where
  abbrev wanted : Items → List String
  wanted requested = distinct (filter (λ x. includes allowed x) (texts requested))

  honor_lem :
      (uri : String) (others : Items) (honored : List String)
      → honor allowed (some uri) honored
          ++ filter (λ x. not (includes (honor allowed (some uri) honored) x)) (wanted others)
        ≡ honored
          ++ filter
              (λ x. not (includes honored x))
              (distinct (filter (λ x. includes allowed x) (uri ∷ texts others)))
  honor_lem uri others honored = split (includes allowed uri) (includes honored uri) refl
    where
      rest : List String
      rest = filter (λ x. not (includes honored x)) (filter (λ y. not (y == uri)) (wanted others))

      split :
          (a b : Bool)
          → includes honored uri ≡ b
          → (if a && not b then honored ++ uri ∷ [] else honored)
              ++ filter
                  (λ x. not (includes (if a && not b then honored ++ uri ∷ [] else honored) x))
                  (wanted others)
            ≡ honored
              ++ filter
                  (λ x. not (includes honored x))
                  (distinct (
                    if a
                    then uri ∷ filter (λ x. includes allowed x) (texts others)
                    else filter (λ x. includes allowed x) (texts others)))
      split false b e = refl
      split true true e =
          ap (λ ys. honored ++ ys)
            (sym (
                filter-filter (λ x. not (includes honored x)) (λ y. not (y == uri)) (wanted others)
                  (λ x out. ground (arith, out, e, eq_iff x uri)))
              ∙ ap (λ c. if not c then uri ∷ rest else rest) (sym e))
      split true false e =
          append_assoc honored (uri ∷ []) _
          ∙ ap (λ ys. honored ++ ys)
              (ap (λ ys. uri ∷ ys) (filter-both honored uri (wanted others))
                ∙ ap (λ c. if not c then uri ∷ rest else rest) (sym e))

  honor-texts :
      (o : Option String) (others : Items) (honored : List String)
      → ((h : List String)
          → honored_from allowed others h ≡ h ++ filter (λ x. not (includes h x)) (wanted others))
      → honored_from allowed others (honor allowed o honored)
        ≡ honored
          ++ filter
              (λ x. not (includes honored x))
              (distinct (filter (λ x. includes allowed x) (with_text o (texts others))))
  honor-texts none others honored rest = rest honored
  honor-texts (some uri) others honored rest =
      rest (honor allowed (some uri) honored) ∙ honor_lem uri others honored

  honored_from_lem :
      (requested : Items) (honored : List String)
      → honored_from allowed requested honored
        ≡ honored ++ filter (λ x. not (includes honored x)) (wanted requested)
  unfolding honored_from
  honored_from_lem no_items honored = sym (append_nil honored)
  honored_from_lem (item first others) honored =
      honor-texts (text_of first) others honored (λ h. honored_from_lem others h)

  filter_all : (xs : List String) → filter (λ x. not (includes [] x)) xs ≡ xs
  filter_all [] = refl
  filter_all (x ∷ xs) = ap (λ ys. x ∷ ys) (filter_all xs)

  -- The URIs that are left of a filter are the allowed ones among the texts in it, each once, in the order in
  -- which the client named them first.
  pub honored_uris_lem : (requested : Items) → honored_uris allowed requested ≡ wanted requested
  unfolding honored_uris
  honored_uris_lem requested = honored_from_lem requested [] ∙ filter_all (wanted requested)

  abbrev AllAllowed : List String → Type 0
  AllAllowed xs = all (λ x. includes allowed x) xs ≡ true

  AllAllowed-filter : (xs : List String) → AllAllowed (filter (λ x. includes allowed x) xs)
  AllAllowed-filter [] = refl
  AllAllowed-filter (x ∷ xs) = ground (arith, AllAllowed-filter xs)

  AllAllowed-rest :
      (p : String → Bool) (xs : List String) → AllAllowed xs → AllAllowed (filter p xs)
  AllAllowed-rest p [] h = refl
  AllAllowed-rest p (x ∷ xs) h = ground (arith, h, AllAllowed-rest p xs)

  AllAllowed-distinct : (xs : List String) → AllAllowed xs → AllAllowed (distinct xs)
  AllAllowed-distinct [] h = refl
  AllAllowed-distinct (x ∷ xs) h =
      ground (arith, h, AllAllowed-distinct xs, AllAllowed-rest (λ y. not (y == x)) (distinct xs))

  honored-AllAllowed : (requested : Items) → AllAllowed (honored_uris allowed requested)
  honored-AllAllowed requested =
      ap (all (λ x. includes allowed x)) (honored_uris_lem requested)
      ∙ AllAllowed-distinct _ (AllAllowed-filter (texts requested))

  not_allowed-unchanged :
      (xs : List String) (requested : Items)
      → AllAllowed xs
      → is_unchanged xs requested ≡ true
      → not_allowed allowed requested ≡ []
  unfolding is_unchanged not_allowed
  not_allowed-unchanged [] no_items ok same = refl
  not_allowed-unchanged [] (item first others) ok same = ground (arith, same)
  not_allowed-unchanged (x ∷ xs) no_items ok same = ground (arith, same)
  not_allowed-unchanged (x ∷ xs) (item first others) ok same =
      kept (text_of first) same
      ∙ not_allowed-unchanged xs others (ground (arith, ok)) (ground (arith, same))
    where
      kept :
          (o : Option String)
          → (same_uri x o && is_unchanged xs others) ≡ true
          → drop_if allowed o (not_allowed allowed others) ≡ not_allowed allowed others
      kept none h = refl
      kept (some uri) h =
          let e : x ≡ uri = ground (arith, h, eq_iff x uri) in
          ground (arith, ok, ap (includes allowed) e)

  not_allowed-to_items : (xs : List String) → AllAllowed xs → not_allowed allowed (to_items xs) ≡ []
  unfolding to_items not_allowed
  not_allowed-to_items [] ok = refl
  not_allowed-to_items (x ∷ xs) ok = ground (arith, ok, not_allowed-to_items xs)

  -- nothing that is left in a filter is dropped
  dropped-notifications :
      (body params ps : Properties) (xs : List String)
      → AllAllowed xs
      → dropped_from allowed (from_notifications body params (some (narrowed_notifications ps xs)))
        ≡ []
  dropped-notifications body params ps [] ok =
      ap
        (λ o.
          dropped_from allowed (
            request_in body params (pick (λ k. not (k == "resourceSubscriptions")) ps)
              (items_in o)))
        (find_property-pick (λ k. not (k == "resourceSubscriptions")) ps "resourceSubscriptions")
  dropped-notifications body params ps (x ∷ xs) ok =
      let v = arr (to_items (x ∷ xs)) in
      ap
        (λ o.
          dropped_from allowed
            (request_in body params (set_property ps "resourceSubscriptions" v) (items_in o)))
        (find_property-set_property ps "resourceSubscriptions" "resourceSubscriptions" v)
      ∙ not_allowed-to_items (x ∷ xs) ok

  dropped-request :
      (body params notifications : Properties)
      → find_property body "params" ≡ some (obj params)
      → find_property params "notifications" ≡ some (obj notifications)
      → dropped_from allowed (from_notifications body params (some notifications)) ≡ []
      → dropped_from allowed (listen_request (obj body)) ≡ []
  unfolding listen_request
  dropped-request body params notifications e e' h =
      if_cases (λ o. dropped_from allowed o ≡ []) (is_listen (find_property body "method")) _ _
        (λ _.
          ap (λ o. dropped_from allowed (from_params body (properties_in o))) e
          ∙ ap (λ o. dropped_from allowed (from_notifications body params (properties_in o))) e'
          ∙ h)
        (λ _. refl)

  narrowed-dropped :
      (body : Json) (o : Option Request)
      → listen_request body ≡ o
      → dropped_subscription_uris (narrow_request allowed body o) allowed ≡ []
  unfolding dropped_subscription_uris
  narrowed-dropped body none e = ap (dropped_from allowed) e
  narrowed-dropped body (some r) e =
      let honored = honored_uris allowed r.requested in
      let ok = honored-AllAllowed r.requested in
      let notifications = narrowed_notifications r.notifications honored in
      let params = set_property r.params "notifications" (obj notifications) in
      if_cases (λ j. dropped_from allowed (listen_request j) ≡ [])
        (is_unchanged honored r.requested) _ _
        (λ same. ap (dropped_from allowed) e ∙ not_allowed-unchanged honored r.requested ok same)
        (λ _.
          dropped-request (set_property r.body "params" (obj params)) params notifications
            (find_property-set_property r.body "params" "params" (obj params))
            (find_property-set_property r.params "notifications" "notifications"
              (obj notifications))
            (dropped-notifications (set_property r.body "params" (obj params)) params
              r.notifications honored ok))

  -- After a message is narrowed, whatever it is, nothing in it is asked for that the server cannot deliver: no
  -- URI would be dropped from it again.
  pub narrow_listen_request_lem :
      (body : Json) → dropped_subscription_uris (narrow_listen_request body allowed) allowed ≡ []
  unfolding narrow_listen_request
  narrow_listen_request_lem body = narrowed-dropped body (listen_request body) refl
