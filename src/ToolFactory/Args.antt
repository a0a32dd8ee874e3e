-- ===== src/ToolFactory/Args.antt =====
-- The arguments of a tool call in core/tool-factory.ts: the internal ones, the parts of the request that
-- the others go to, the preview of a dry run, and the structured content of an answer.
use avito_mcp.Prelude.{
  ℕ, String, Bool, true, false, not, ◌&&◌, Option, none, some, List, [], ◌∷◌, get_or, includes,
  if◌then◌else◌,
}
use avito_mcp.Json.{
  Json, Properties, no_more, has_property, obj, arr, num, bool, find_property, set_property, spread,
  pick, count_items,
}
use avito_mcp.Client.{Options, RetryConfig, Round, State, Outcome, init, do_request}
use avito_mcp.Errors.{error_to_mcp_content}
use avito_mcp.ToolFactory.{
  ToolSpec, BodySpec, Built, built, refused_by, Result, error_content, preview,
}

abbrev pub meta_params : List String
meta_params = "dryRun" ∷ "idempotencyKey" ∷ []

unfoldable pub strip_meta : Properties → Properties
strip_meta args = pick (λ k. not (includes meta_params k)) args

-- what `splitArgs` returns
pub record Parts : Type 0 where
  pub path_params : Properties
  pub query : Properties
  pub body : Option Json

abbrev pub in_path : ToolSpec → String → Bool
in_path spec k = includes spec.path_params k

abbrev pub in_query : ToolSpec → String → Bool
in_query spec k = not (in_path spec k) && includes spec.query_params k

abbrev allows_field : Option (List String) → String → Bool
allows_field none k = true
allows_field (some fields) k = includes fields k

abbrev pub in_body : ToolSpec → BodySpec → String → Bool
in_body spec b k =
    not (in_path spec k) && not (includes spec.query_params k) && allows_field b.fields k

abbrev pub inject_if_missing : String → Option Json → ℕ → Properties → Properties
inject_if_missing k none profile_id ps = set_property ps k (num profile_id)
inject_if_missing k (some v) profile_id ps = ps

abbrev pub inject : Option String → Option ℕ → Properties → Properties
inject (some k) (some profile_id) ps = inject_if_missing k (find_property ps k) profile_id ps
inject _ _ ps = ps

abbrev pub transformed : Option (Properties → Json) → Properties → Json
transformed none ps = obj ps
transformed (some f) ps = f ps

abbrev pub body_of : ToolSpec → Option BodySpec → Properties → Option Json
body_of spec none args = none
body_of spec (some b) args =
    some (transformed b.transform (spread b.defaults (pick (in_body spec b) args)))

-- `splitArgs`; no argument is undefined
unfoldable pub split_args : ToolSpec → (profile_id : Option ℕ) → Properties → Parts
split_args spec profile_id args = record {
  path_params = inject spec.inject_profile_id profile_id (pick (in_path spec) args);
  query = pick (in_query spec) args;
  body = body_of spec spec.body args;
}

-- what `executeHttpRequest` tells core/client.ts of retries and of the Authorization header
unfoldable pub request_options : ToolSpec → Options
request_options spec = record {
  is_get = spec.is_get;
  retry = spec.retry;
  auth = get_or spec.auth true;
}

abbrev pub perform_by :
    Option (Properties → (ℕ → Round) → Option (State × Outcome))
    → RetryConfig
    → Options
    → (deadline : ℕ) → (rounds : ℕ → Round) → (fuel : ℕ) → Properties
    → Option (State × Outcome)
perform_by (some executor) c o deadline rounds fuel args = executor args rounds
perform_by none c o deadline rounds fuel args = do_request c o deadline rounds fuel 0 init

-- the request that `execute` waits for: the tool's own executor, or else `executeHttpRequest`
unfoldable pub perform :
    RetryConfig
    → ToolSpec
    → (deadline : ℕ) → (rounds : ℕ → Round) → (fuel : ℕ) → Properties
    → Option (State × Outcome)
perform c spec deadline rounds fuel args =
    perform_by spec.custom_execute c (request_options spec) deadline rounds fuel args

abbrev with_body : Option Json → Properties
with_body none = no_more
with_body (some b) = has_property "body" b no_more

abbrev parts_to_json : Parts → Json
parts_to_json p = obj (
    has_property "pathParams" (obj p.path_params)
      (has_property "query" (obj p.query) (with_body p.body)))

abbrev build_preview : ToolSpec → Option ℕ → Option (Properties → Built) → Properties → Built
build_preview spec profile_id none args = built (parts_to_json (split_args spec profile_id args))
build_preview spec profile_id (some build) args = build args

abbrev redact_preview : Option (Json → Built) → Built → Built
redact_preview (some redact) (built j) = redact j
redact_preview _ b = b

abbrev preview_result : (says_timeout explicit : Bool) → Built → Result
preview_result says_timeout explicit (built j) = preview explicit j
preview_result says_timeout explicit (refused_by e) =
    error_content (error_to_mcp_content says_timeout e)

unfoldable pub dry_run_preview :
    (says_timeout : Bool)
    → ToolSpec
    → (profile_id : Option ℕ) → Properties
    → (explicit : Bool) → Result
dry_run_preview says_timeout spec profile_id args explicit = preview_result says_timeout explicit (
    redact_preview spec.redact_dry_run_preview
      (build_preview spec profile_id spec.build_dry_run_preview args))

abbrev pub is_true : Option Json → Bool
is_true (some (bool b)) = b
is_true _ = false

-- a member whose value is undefined is not there
abbrev copied : String → Option Json → Properties → Properties
copied k none ps = ps
copied k (some v) ps = has_property k v ps

abbrev copy_member : String → Properties → Properties → Properties
copy_member k from ps = copied k (find_property from k) ps

abbrev binary_content : ℕ → Properties → Properties
binary_content status from = has_property "status" (num status) (
    has_property "http_status" (num status) (
      copy_member "mimeType" from
        (copy_member "sizeBytes" from (copy_member "base64" from no_more))))

unfoldable pub to_structured_content : (status : ℕ) → (answer : Json) → Option Json
to_structured_content status (arr items) = some (
    obj (
      has_property "status" (num status) (
        has_property "http_status" (num status) (
          has_property "items" (arr items)
            (has_property "count" (num (count_items items)) no_more)))))
to_structured_content status (obj ps) =
    if is_true (find_property ps "__binary")
    then some (obj (binary_content status ps))
    else some (
        obj (
          set_property (spread (has_property "status" (num status) no_more) ps) "http_status"
            (num status)))
to_structured_content status _ = none
