-- ===== src/OauthProvider/Approve.antt =====
-- `authorize` and `approveConsent` of http/oauth/provider.ts: the consent page, and the code that the owner's
-- password buys. A response is its status with what the model needs of its body.
use avito_mcp.Prelude.{
  ℕ, String, ◌==◌, Bool, false, not, Option, none, some, List, any, get_or, if◌then◌else◌,
}
use avito_mcp.OauthStore.{ConsentRecord, Client, Store}
use avito_mcp.OauthStore.Registry.{get_client}
use avito_mcp.OauthStore.Transactions.{create_consent, peek_consent, take_consent, create_auth_code}
use avito_mcp.OauthProvider.{
  Provider, Error, closed, server_error, invalid_scope, invalid_request, normalize_scopes,
  is_expected_resource,
}

-- where the browser is sent with a code
pub record Callback : Type 0 where
  pub redirect_uri : String
  pub code : String
  pub state : Option String
  pub iss : String

pub data Response : Type 0 where
  refused : (status : ℕ) → Response
  consent_page : (status : ℕ) → (consent_token : String) → Response
  redirects : Callback → Response
  fails : Error → Response

-- what `authorize` is asked for
pub record AuthorizationParams : Type 0 where
  pub issuer : Option String
  pub redirect_uri : String
  pub code_challenge : String
  pub state : Option String
  pub scopes : Option (List String)
  pub resource : Option String

abbrev is_other_issuer : Provider → Option String → Bool
is_other_issuer p none = false
is_other_issuer p (some issuer) = not (issuer == p.issuer)

abbrev shown : String → Store → Option Store → Store × Response
shown token s none = (s, fails closed)
shown token s (some t) = (t, consent_page 200 token)

abbrev with_scopes :
    Provider
    → ℕ
    → String
    → String
    → AuthorizationParams
    → Store
    → Option (List String)
    → Store × Response
with_scopes p now token client_id params s none = (s, fails invalid_scope)
with_scopes p now token client_id params s (some scopes) =
    if is_expected_resource p params.resource
    then shown token s (
        create_consent now token
          (record {
            client_id = client_id;
            redirect_uri = params.redirect_uri;
            code_challenge = params.code_challenge;
            state = params.state;
            scopes = scopes;
            resource = p.expected_resource;
            expires_at = 0;
          })
          s)
    else (s, fails invalid_request)

-- `authorize`: the page carries the token of the consent
unfoldable pub authorize :
    Provider → ℕ → (token client_id : String) → AuthorizationParams → Store → Store × Response
authorize p now token client_id params s =
    if is_other_issuer p params.issuer
    then (s, fails server_error)
    else with_scopes p now token client_id params s (normalize_scopes params.scopes)

abbrev pub minted : Provider → ConsentRecord → String → Store → Option Store → Store × Response
minted p approved code s none = (s, fails closed)
minted p approved code s (some t) = (
  t,
  redirects (record {
    redirect_uri = approved.redirect_uri;
    code = code;
    state = approved.state;
    iss = p.issuer;
  }),
)

abbrev pub approve_taken : Provider → ℕ → String → Store × Option ConsentRecord → Store × Response
approve_taken p now code (s, none) = (s, refused 400)
approve_taken p now code (s, some approved) = minted p approved code s (
    create_auth_code now code
      (record {
        client_id = approved.client_id;
        code_challenge = approved.code_challenge;
        redirect_uri = approved.redirect_uri;
        scopes = approved.scopes;
        resource = some approved.resource;
        expires_at = 0;
      })
      s)

abbrev pub approve_client :
    Provider
    → ℕ
    → String
    → String
    → String
    → ConsentRecord
    → Store × Option Client
    → Store × Response
approve_client p now code token password consent (s, none) = (s, refused 400)
approve_client p now code token password consent (s, some client) =
    if not (any (λ u. p.redirect_uri_matches consent.redirect_uri u) (p.redirect_uris client))
    then (s, refused 400)
    else if p.owner_password == ""
    then (s, refused 500)
    else if not (password == p.owner_password)
    then (s, consent_page 401 token)
    else approve_taken p now code (take_consent now token s)

abbrev pub approve_peeked :
    Provider → ℕ → String → String → String → Store × Option ConsentRecord → Store × Response
approve_peeked p now code token password (s, none) = (s, refused 400)
approve_peeked p now code token password (s, some consent) =
    approve_client p now code token password consent (get_client now consent.client_id s)

abbrev pub approve_token : Provider → ℕ → String → Option String → String → Store → Store × Response
approve_token p now code none password s = (s, refused 400)
approve_token p now code (some token) password s =
    if token == ""
    then (s, refused 400)
    else approve_peeked p now code token password (peek_consent now token s)

-- `approveConsent`; `code` is the secret that is drawn for a code
unfoldable pub approve_consent :
    Provider
    → ℕ
    → (code : String) → (consent_token owner_password : Option String) → Store
    → Store × Response
approve_consent p now code consent_token owner_password s =
    approve_token p now code consent_token (get_or owner_password "") s
