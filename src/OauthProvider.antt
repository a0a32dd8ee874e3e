-- ===== src/OauthProvider.antt =====
-- http/oauth/provider.ts over the store of OauthStore: the consent of the owner, the exchange of codes and
-- refresh tokens, and the check of access tokens. Each runs without an `await`, so in one step; the store
-- reads the clock once in it. The URL parser and the hash of a verifier are members of `Provider`, as are
-- the redirect URIs of a client and the SDK's comparison of two.
pub mod Exchange
pub mod Approve
pub mod Grants
pub mod Narrowing
pub mod Rotation
pub mod Consent
pub mod Approval
mod Tests
use avito_mcp.Prelude.{
  ℕ, String, ◌+◌, ◌*◌, ◌==◌, Bool, true, false, not, ◌&&◌, ◌||◌, Option, none, some, List, [], ◌∷◌,
  eqb, any, all, length, filter, includes, distinct, get_or, max, if◌then◌else◌,
}
use avito_mcp.OauthStore.{AuthCodeRecord, ConsentRecord, TokenRecord, Client, Store}
use avito_mcp.OauthStore.Registry.{get_client}
use avito_mcp.OauthStore.Transactions.{
  create_consent, peek_consent, take_consent, create_auth_code, peek_auth_code, take_auth_code,
}
use avito_mcp.OauthStore.Tokens.{
  create_access_token, create_refresh_token, get_access_token, get_refresh_token,
  delete_access_token, delete_refresh_token, revoke_token_family,
}

abbrev pub required_scope : String
required_scope = "avito:mcp"

pub record Provider : Type 0 where
  pub expected_resource : String
  pub issuer : String
  pub ttl_sec : ℕ
  pub owner_password : String
  pub normalized : String → Option String
  pub s256 : String → String
  pub redirect_uris : Client → List String
  pub redirect_uri_matches : String → String → Bool

-- the errors, by the class that is thrown; `closed` is the store's, which is shutting down
pub data Error : Type 0 where
  invalid_grant invalid_request invalid_scope server_error invalid_token closed : Error

pub record OauthTokens : Type 0 where
  pub access_token : String
  pub expires_in : ℕ
  pub refresh_token : String
  pub scope : List String

pub data Grant : Type 0 where
  granted : OauthTokens → Grant
  denied : Error → Grant

-- the two secrets that are drawn for a pair
pub record Secrets : Type 0 where
  pub access : String
  pub refresh : String

abbrev single : List String → Option (List String)
single (s ∷ []) = if s == required_scope then some (s ∷ []) else none
single _ = none

-- `normalizeScopes`; `none` is a throw
unfoldable pub normalize_scopes : Option (List String) → Option (List String)
normalize_scopes none = some (required_scope ∷ [])
normalize_scopes (some []) = some (required_scope ∷ [])
normalize_scopes (some (x ∷ xs)) = single (distinct (filter (λ s. not (s == "")) (x ∷ xs)))

abbrev expected : Provider → Option String → Bool
expected p none = false
expected p (some url) = url == p.expected_resource

abbrev parsed : Provider → Option String → Option String
parsed p none = none
parsed p (some value) = p.normalized value

-- `requireExpectedResource`: false where it throws
unfoldable pub is_expected_resource : Provider → Option String → Bool
is_expected_resource p value = expected p (parsed p value)

module _ (p : Provider) where
  abbrev pub access_record : ℕ → String → List String → TokenRecord
  access_record now client_id scopes = record {
    client_id = client_id;
    scopes = scopes;
    resource = some p.expected_resource;
    expires_at = now + p.ttl_sec * 1000;
    issued_at = none;
    access_token = none;
  }

  abbrev pub refresh_record : ℕ → String → List String → String → TokenRecord
  refresh_record now client_id scopes access = record {
    client_id = client_id;
    scopes = scopes;
    resource = some p.expected_resource;
    expires_at = now + max p.ttl_sec (30 * 24 * 60 * 60) * 1000;
    issued_at = none;
    access_token = some access;
  }

  abbrev pub with_refresh : Store → Secrets → List String → Option Store → Store × Grant
  with_refresh s fresh scopes none = (s, denied closed)
  with_refresh s fresh scopes (some t) = (
    t,
    granted (record {
      access_token = fresh.access;
      expires_in = p.ttl_sec;
      refresh_token = fresh.refresh;
      scope = scopes;
    }),
  )

  abbrev pub with_access : ℕ → Secrets → String → List String → Store → Option Store → Store × Grant
  with_access now fresh client_id scopes s none = (s, denied closed)
  with_access now fresh client_id scopes s (some t) =
      with_refresh t fresh scopes (
        create_refresh_token now fresh.refresh (refresh_record now client_id scopes fresh.access) t)

  -- `issueTokens`, for the resource that is expected
  unfoldable pub issue_tokens : ℕ → Secrets → String → List String → Store → Store × Grant
  issue_tokens now fresh client_id scopes s =
      if eqb p.ttl_sec 0
      then (s, denied server_error)
      else with_access now fresh client_id scopes s
          (create_access_token now fresh.access (access_record now client_id scopes) s)

  abbrev verified : Store × Option TokenRecord → Store × Option TokenRecord
  verified (s, none) = (s, none)
  verified (s, some rec) =
      if not (includes rec.scopes required_scope) || any (λ x. not (x == required_scope)) rec.scopes
      then (s, none)
      else if is_expected_resource p rec.resource
      then (s, some rec)
      else (s, none)

  -- `verifyAccessToken`; `none` is an invalid token
  unfoldable pub verify_access_token : ℕ → String → Store → Store × Option TokenRecord
  verify_access_token now token s = verified (get_access_token now token s)

abbrev challenge_in : String → Store × Option AuthCodeRecord → Store × Option String
challenge_in client_id (s, none) = (s, none)
challenge_in client_id (s, some rec) =
    (s, if rec.client_id == client_id then some rec.code_challenge else none)

-- `challengeForAuthorizationCode`; `none` is an invalid grant
unfoldable pub challenge_for_authorization_code :
    ℕ → String → String → Store → Store × Option String
challenge_for_authorization_code now client_id code s =
    challenge_in client_id (peek_auth_code now code s)

-- `revokeToken`
unfoldable pub revoke_token : (client_id token : String) → Store → Option (Store × Bool)
revoke_token client_id token s = revoke_token_family client_id token s
