-- ===== src/OauthProvider/Exchange.antt =====
-- `exchangeAuthorizationCode` and `exchangeRefreshToken` of http/oauth/provider.ts.
use avito_mcp.Prelude.{
  ℕ, String, ◌==◌, Bool, false, not, ◌&&◌, Option, none, some, List, [], ◌∷◌, any, includes,
  if◌then◌else◌,
}
use avito_mcp.OauthStore.{AuthCodeRecord, TokenRecord, Store}
use avito_mcp.OauthStore.Transactions.{take_auth_code}
use avito_mcp.OauthStore.Tokens.{get_refresh_token, delete_access_token, delete_refresh_token}
use avito_mcp.OauthProvider.{
  Provider, Secrets, Grant, denied, Error, invalid_grant, invalid_request, invalid_scope, closed,
  normalize_scopes, is_expected_resource, issue_tokens,
}

-- a value that is given and is another one
abbrev pub differs : Option String → String → Bool
differs none y = false
differs (some x) y = not (x == y)

abbrev pub hashed : Provider → Option String → Option String
hashed p none = none
hashed p (some verifier) = some (p.s256 verifier)

-- the scopes of a refresh
pub data Narrowed : Type 0 where
  refused_scopes : Error → Narrowed
  narrowed_to : List String → Narrowed

abbrev pub narrow_to : List String → List String → Option (List String) → Narrowed
narrow_to old scopes none = refused_scopes invalid_scope
narrow_to old scopes (some unique) =
    if any (λ x. not (includes old x)) scopes
    then refused_scopes invalid_grant
    else narrowed_to scopes

abbrev pub narrow_from : List String → List String → Option (List String) → Narrowed
narrow_from old scopes none = refused_scopes invalid_scope
narrow_from old [] (some all_old) = narrowed_to all_old
narrow_from old (x ∷ xs) (some all_old) = narrow_to old (x ∷ xs) (normalize_scopes (some (x ∷ xs)))

abbrev pub narrow : (old scopes : List String) → Narrowed
narrow old scopes = narrow_from old scopes (normalize_scopes (some old))

module _ (p : Provider) where
  abbrev pub issue_normalized : ℕ → Secrets → String → Option (List String) → Store → Store × Grant
  issue_normalized now fresh client_id none s = (s, denied invalid_scope)
  issue_normalized now fresh client_id (some scopes) s = issue_tokens p now fresh client_id scopes s

  -- `exchangeAuthorizationCode`, after the code is taken; the two resources can only be the expected one
  abbrev pub exchange_code :
      ℕ
      → Secrets
      → String
      → (verifier redirect_uri resource : Option String) → Store × Option AuthCodeRecord
      → Store × Grant
  exchange_code now fresh client_id verifier redirect_uri resource (s, none) =
      (s, denied invalid_grant)
  exchange_code now fresh client_id verifier redirect_uri resource (s, some rec) =
      if not (rec.client_id == client_id)
      then (s, denied invalid_grant)
      else if differs redirect_uri rec.redirect_uri
      then (s, denied invalid_grant)
      else if differs (hashed p verifier) rec.code_challenge
      then (s, denied invalid_grant)
      else if not (is_expected_resource p rec.resource && is_expected_resource p resource)
      then (s, denied invalid_request)
      else issue_normalized now fresh client_id (normalize_scopes (some rec.scopes)) s

  unfoldable pub exchange_authorization_code :
      ℕ
      → Secrets
      → (client_id code : String) → (verifier redirect_uri resource : Option String) → Store
      → Store × Grant
  exchange_authorization_code now fresh client_id code verifier redirect_uri resource s =
      exchange_code now fresh client_id verifier redirect_uri resource (take_auth_code now code s)

  -- the old pair goes, and a new one is issued
  abbrev pub rotate_access :
      ℕ → Secrets → String → List String → Store → Option Store → Store × Grant
  rotate_access now fresh client_id scopes s none = (s, denied closed)
  rotate_access now fresh client_id scopes s (some t) = issue_tokens p now fresh client_id scopes t

  abbrev pub delete_paired : Option String → Store → Option Store
  delete_paired none s = some s
  delete_paired (some access) s = if access == "" then some s else delete_access_token access s

  abbrev pub rotate :
      ℕ → Secrets → String → List String → TokenRecord → Store → Option Store → Store × Grant
  rotate now fresh client_id scopes rec s none = (s, denied closed)
  rotate now fresh client_id scopes rec s (some t) =
      rotate_access now fresh client_id scopes t (delete_paired rec.access_token t)

  abbrev pub refresh_granted :
      ℕ
      → Secrets
      → (client_id token : String) → (resource : Option String) → TokenRecord
      → Store
      → Narrowed
      → Store × Grant
  refresh_granted now fresh client_id token resource rec s (refused_scopes e) = (s, denied e)
  refresh_granted now fresh client_id token resource rec s (narrowed_to scopes) =
      if not (is_expected_resource p resource && is_expected_resource p rec.resource)
      then (s, denied invalid_request)
      else rotate now fresh client_id scopes rec s (delete_refresh_token token s)

  abbrev pub exchange_found :
      ℕ
      → Secrets
      → (client_id token : String) → (scopes : List String) → (resource : Option String)
      → Store × Option TokenRecord
      → Store × Grant
  exchange_found now fresh client_id token scopes resource (s, none) = (s, denied invalid_grant)
  exchange_found now fresh client_id token scopes resource (s, some rec) =
      if not (rec.client_id == client_id)
      then (s, denied invalid_grant)
      else refresh_granted now fresh client_id token resource rec s (narrow rec.scopes scopes)

  -- `exchangeRefreshToken`; the scopes that are asked for may be none
  unfoldable pub exchange_refresh_token :
      ℕ
      → Secrets
      → (client_id token : String) → (scopes : List String) → (resource : Option String) → Store
      → Store × Grant
  exchange_refresh_token now fresh client_id token scopes resource s =
      exchange_found now fresh client_id token scopes resource (get_refresh_token now token s)
