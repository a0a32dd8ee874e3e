-- ===== src/OauthProvider/Grants.antt =====
-- The tokens that http/oauth/provider.ts issues, and that its check accepts them.
use avito_mcp.Prelude.{
  ℕ, String, ◌+◌, ◌*◌, ◌<◌, ◌≡◌, refl, true, false, not, Option, none, some, List, [], ◌∷◌, arith,
  any, includes, distinct, filter, ◌==◌, eq_refl, eqb, if_cases,
}
use mathlib.Core.Path.{subst}
use avito_mcp.JsMap.{JsMap, get, put}
use avito_mcp.JsMap.Laws.{get-put, get-put_self}
use avito_mcp.OauthStore.{
  TokenRecord, Store, evict_oldest, token_expiry, max_access_tokens, max_refresh_tokens,
}
use avito_mcp.OauthStore.Eviction.{get-evict_oldest}
use avito_mcp.OauthStore.Tokens.{
  create_access_token, create_refresh_token, get_access_token, issued,
}
use avito_mcp.OauthProvider.{
  Provider, Secrets, OauthTokens, Grant, granted, required_scope, issue_tokens, verify_access_token,
  access_record, with_access, is_expected_resource, normalize_scopes, refresh_record, single,
}

-- a list of scopes that the check of a token accepts
abbrev pub IsScoped : List String → Type 0
IsScoped scopes =
    (includes scopes required_scope ≡ true) × (any (λ x. not (x == required_scope)) scopes ≡ false)

-- the record of a new access token
abbrev pub new_access : Provider → ℕ → String → List String → TokenRecord
new_access p now client_id scopes = issued now (access_record p now client_id scopes)

-- What a pair that was issued means for the store: the access token is there under its record, and a token
-- that was not there before is there only if it is of the pair.
abbrev pub IsIssued :
    Provider → ℕ → Secrets → String → List String → Store → Store → OauthTokens → Type 0
IsIssued p now fresh client_id scopes s t k =
    (k.access_token ≡ fresh.access)
    × (k.refresh_token ≡ fresh.refresh)
    × (k.scope ≡ scopes)
    × (get t.access_tokens fresh.access ≡ some (new_access p now client_id scopes))
    × ((j : String)
        → (fresh.access == j) ≡ false
        → get s.access_tokens j ≡ none
        → get t.access_tokens j ≡ none)
    × ((j : String)
        → (fresh.refresh == j) ≡ false
        → get s.refresh_tokens j ≡ none
        → get t.refresh_tokens j ≡ none)

get-put-none :
    (limit : ℕ) (m : JsMap TokenRecord) (k j : String) (r : TokenRecord)
    → (k == j) ≡ false
    → get m j ≡ none
    → get (put (evict_oldest token_expiry limit m) k r) j ≡ none
get-put-none limit m k j r other absent = ground (
  arith,
  get-put (evict_oldest token_expiry limit m) k r j,
  get-evict_oldest token_expiry limit m j,
  other,
  absent,
)

module _ (p : Provider) (now : ℕ) (fresh : Secrets) (client_id : String)
    (scopes : List String) where
  with_access-IsIssued :
      (s : Store) (k : OauthTokens)
      → (with_access p now fresh client_id scopes s
          (create_access_token now fresh.access (access_record p now client_id scopes) s)).1
        ≡ granted k
      → IsIssued p now fresh client_id scopes s
          (with_access p now fresh client_id scopes s
            (create_access_token now fresh.access (access_record p now client_id scopes) s)).0
          k
  unfolding create_access_token create_refresh_token
  with_access-IsIssued s k h = (
    ground (arith, h),
    ground (arith, h),
    ground (arith, h),
    ground (
      arith,
      h,
      get-put_self (evict_oldest token_expiry max_access_tokens s.access_tokens) fresh.access
          (new_access p now client_id scopes),
    ),
    λ j other absent. ground (
      arith,
      h,
      get-put-none max_access_tokens s.access_tokens fresh.access j
          (new_access p now client_id scopes) other absent,
    ),
    λ j other absent. ground (
      arith,
      h,
      get-put-none max_refresh_tokens s.refresh_tokens fresh.refresh j
          (issued now (refresh_record p now client_id scopes fresh.access)) other absent,
    ),
  )

  pub issue_tokens-IsIssued :
      (s : Store) (k : OauthTokens)
      → (issue_tokens p now fresh client_id scopes s).1 ≡ granted k
      → IsIssued p now fresh client_id scopes s (issue_tokens p now fresh client_id scopes s).0 k
  unfolding issue_tokens
  issue_tokens-IsIssued s k h =
      if_cases {A = Store × Grant}
        (λ r. r.1 ≡ granted k → IsIssued p now fresh client_id scopes s r.0 k) (eqb p.ttl_sec 0) _ _
        (λ empty g. ground (arith, g)) (λ full g. with_access-IsIssued s k g) h

single-IsScoped : (xs scopes : List String) → single xs ≡ some scopes → IsScoped scopes
single-IsScoped [] scopes h = ground (arith, h)
single-IsScoped (x ∷ []) scopes h =
    if_cases (λ o. o ≡ some scopes → IsScoped scopes) (x == required_scope) _ _
      (λ e g.
        subst IsScoped (let i : x ∷ [] ≡ scopes = ground (arith, g) in i)
          (ground (arith, e), ground (arith, e)))
      (λ e g. ground (arith, g)) h
single-IsScoped (x ∷ y ∷ xs) scopes h = ground (arith, h)

-- the scopes that are granted without a wish for others are accepted
pub normalize_scopes-IsScoped :
    (asked : Option (List String)) (scopes : List String)
    → normalize_scopes asked ≡ some scopes
    → IsScoped scopes
unfolding normalize_scopes
normalize_scopes-IsScoped none scopes h =
    subst IsScoped (let i : required_scope ∷ [] ≡ scopes = ground (arith, h) in i) (refl, refl)
normalize_scopes-IsScoped (some []) scopes h =
    subst IsScoped (let i : required_scope ∷ [] ≡ scopes = ground (arith, h) in i) (refl, refl)
normalize_scopes-IsScoped (some (x ∷ xs)) scopes h =
    single-IsScoped (distinct (filter (λ s. not (s == "")) (x ∷ xs))) scopes h

-- an issued access token is accepted until it expires
pub verify-new_access :
    (p : Provider) (now : ℕ) (client_id : String) (scopes : List String) (later : ℕ)
    (token : String) (t : Store)
    → p.normalized p.expected_resource ≡ some p.expected_resource
    → IsScoped scopes
    → get t.access_tokens token ≡ some (new_access p now client_id scopes)
    → later < now + p.ttl_sec * 1000
    → (verify_access_token p later token t).1 ≡ some (new_access p now client_id scopes)
unfolding verify_access_token get_access_token is_expected_resource
verify-new_access p now client_id scopes later token t same (needed, only) at live =
    ground (arith, same, needed, only, at, live, eq_refl p.expected_resource)
