-- ===== src/ToolFactory/Routing.antt =====
-- Where the arguments of a call of core/tool-factory.ts go.
use avito_mcp.Prelude.{
  ℕ, String, ◌≡◌, refl, true, false, not, Option, none, some, arith, if◌then◌else◌, includes, ap,
  ◌∙◌, ◌==◌, eq_iff, List,
}
use avito_mcp.Json.{
  Json, Properties, no_more, has_property, obj, num, field, find_property, set_property, spread,
  pick,
}
use avito_mcp.Json.Laws.{
  find_property-set_property, find_property-spread, find_property-pick, later_or, IsUnique,
  IsUnique-pick, pick-set_property,
}
use avito_mcp.ToolFactory.{ToolSpec, BodySpec}
use avito_mcp.ToolFactory.Args.{
  meta_params, strip_meta, in_path, in_query, in_body, split_args, inject, inject_if_missing,
  body_of, transformed, to_structured_content, is_true,
}

-- The internal parameters of a call make no difference to the arguments that the tool is run with and that
-- its key is bound to: writing or changing one leaves the other arguments as they were.
pub strip_meta-set_property :
    (args : Properties) (k : String) (v : Json)
    → includes meta_params k ≡ true
    → strip_meta (set_property args k v) ≡ strip_meta args
unfolding strip_meta
strip_meta-set_property args k v internal =
    pick-set_property (λ j. not (includes meta_params j)) args k v (ap not internal)

-- `p?.[k]` on the body
abbrev pub body_field : Option Json → String → Option Json
body_field none k = none
body_field (some j) k = field j k

-- the number of the profile, under the name that the tool wants it by
abbrev pub injected : Option String → Option ℕ → String → Option Json
injected (some name) (some profile_id) k = if name == k then some (num profile_id) else none
injected _ _ k = none

-- the one place that an argument goes to
pub data Place : Type 0 where
  to_path to_query to_body to_nowhere : Place

abbrev body_or_nowhere : Option (List String) → String → Place
body_or_nowhere none k = to_body
body_or_nowhere (some fields) k = if includes fields k then to_body else to_nowhere

abbrev pub place : ToolSpec → BodySpec → String → Place
place spec b k =
    if includes spec.path_params k
    then to_path
    else if includes spec.query_params k
    then to_query
    else body_or_nowhere b.fields k

-- what stands at a place, of an argument that goes to another or to the same
abbrev pub at_path : Place → Option Json → Option Json
at_path to_path o = o
at_path _ o = none

abbrev pub at_query : Place → Option Json → Option Json
at_query to_query o = o
at_query _ o = none

abbrev pub at_body : Place → Option Json → Option Json
at_body to_body o = o
at_body _ o = none

find_property-inject :
    (name : Option String) (profile_id : Option ℕ) (ps : Properties) (k : String)
    → find_property (inject name profile_id ps) k
      ≡ later_or (find_property ps k) (injected name profile_id k)
unfolding set_property
find_property-inject none profile_id ps k = ground arith
find_property-inject (some name) none ps k = ground arith
find_property-inject (some name) (some profile_id) ps k = missing (find_property ps name) refl
  where
    missing :
        (o : Option Json)
        → find_property ps name ≡ o
        → find_property (inject_if_missing name o profile_id ps) k
          ≡ later_or (find_property ps k) (if name == k then some (num profile_id) else none)
    missing none e =
        ground (arith, find_property-set_property ps name k (num profile_id), eq_iff name k, e)
    missing (some v) e = ground (arith, eq_iff name k, e)

placed :
    (spec : ToolSpec) (b : BodySpec) (o : Option Json) (k : String)
    → ((if in_path spec k then o else none) ≡ at_path (place spec b k) o)
      × ((if in_query spec k then o else none) ≡ at_query (place spec b k) o)
      × ((if in_body spec b k then o else none) ≡ at_body (place spec b k) o)
placed spec b o k = ground arith

-- Every argument goes to one place: to the path if the tool declares it for it, or else to the query if it is
-- declared for that, or else to the body if that takes every field or lists it, or else nowhere. What the API
-- is sent under each name is the argument whose place it is, and failing that, in the path the number of
-- the profile under its name, and in the body the default. It is assumed that no argument is given
-- twice and that the body is not transformed.
pub split_args_lem :
    (spec : ToolSpec) (profile_id : Option ℕ) (b : BodySpec) (args : Properties) (k : String)
    → IsUnique args
    → spec.body ≡ some b
    → b.transform ≡ none
    → let parts = split_args spec profile_id args in
      (find_property parts.path_params k
        ≡ later_or
            (at_path (place spec b k) (find_property args k))
            (injected spec.inject_profile_id profile_id k))
      × (find_property parts.query k ≡ at_query (place spec b k) (find_property args k))
      × (body_field parts.body k
          ≡ later_or (at_body (place spec b k) (find_property args k)) (find_property b.defaults k))
unfolding split_args
split_args_lem spec profile_id b args k u body plain =
    let taken = pick (in_body spec b) args in
    let filled = spread b.defaults taken in
    (
      find_property-inject spec.inject_profile_id profile_id (pick (in_path spec) args) k
          ∙ ap (λ o. later_or o (injected spec.inject_profile_id profile_id k))
              (find_property-pick (in_path spec) args k
                ∙ (placed spec b (find_property args k) k).0),
      find_property-pick (in_query spec) args k ∙ (placed spec b (find_property args k) k).1,
      ap (λ o. body_field (body_of spec o args) k) body
          ∙ ap (λ t. body_field (some (transformed t filled)) k) plain
          ∙ find_property-spread b.defaults taken k (IsUnique-pick (in_body spec b) args u)
          ∙ ap (λ o. later_or o (find_property b.defaults k))
              (find_property-pick (in_body spec b) args k
                ∙ (placed spec b (find_property args k) k).2),
    )

-- Of an answer that is an object and no binary one, every member but `http_status` is passed on as it is,
-- and `http_status` is always the status of the response.
pub to_structured_content_lem :
    (status : ℕ) (ps : Properties) (k : String)
    → IsUnique ps
    → is_true (find_property ps "__binary") ≡ false
    → body_field (to_structured_content status (obj ps)) k ≡ (
        if "http_status" == k
        then some (num status)
        else later_or (find_property ps k) (if "status" == k then some (num status) else none))
unfolding to_structured_content
to_structured_content_lem status ps k u plain = ground (
  arith,
  plain,
  find_property-set_property (spread (has_property "status" (num status) no_more) ps) "http_status"
      k (num status),
  find_property-spread (has_property "status" (num status) no_more) ps k u,
)
