-- ===== src/OauthProvider/Tests.antt =====
-- One owner, one client, one code and its tokens.
use avito_mcp.Prelude.{◌<◌, ◌≡◌, refl, true, none, some, [], ◌∷◌, all, includes, arith, ◌==◌}
use avito_mcp.JsMap.{get, put, remove, size, values}
use avito_mcp.OauthStore.{ConsentRecord, TokenRecord, Client, Store, init, evict_oldest, evict}
use avito_mcp.OauthStore.Registry.{get_client, client_expired, has_active_artifacts}
use avito_mcp.OauthStore.Transactions.{peek_consent, take_consent, create_auth_code, take_auth_code}
use avito_mcp.OauthStore.Tokens.{
  create_access_token, create_refresh_token, get_refresh_token, delete_refresh_token,
  delete_access_token,
}
use avito_mcp.OauthProvider.{
  Provider, Secrets, OauthTokens, granted, required_scope, issue_tokens, normalize_scopes,
  is_expected_resource, verify_access_token,
}
use avito_mcp.OauthProvider.Exchange.{exchange_authorization_code, exchange_refresh_token}
use avito_mcp.OauthProvider.Approve.{Callback, redirects, approve_consent}
use avito_mcp.OauthProvider.Grants.{new_access}
use avito_mcp.OauthProvider.Consent.{exchange_authorization_code-verify}
use avito_mcp.OauthProvider.Approval.{approve_consent_lem, IsApproved, approved_code}
use avito_mcp.OauthProvider.Rotation.{exchange_refresh_token-rotates, exchange_refresh_token-verify}

abbrev provider : Provider
provider = record {
  expected_resource = "https://mcp.example/mcp";
  issuer = "https://mcp.example/";
  ttl_sec = 3600;
  owner_password = "secret";
  normalized = λ url. some url;
  s256 = λ verifier. verifier;
  redirect_uris = λ client. "https://app.example/cb" ∷ [];
  redirect_uri_matches = λ asked registered. asked == registered;
}

abbrev client : Client
client = record { client_id = "app"; client_id_issued_at = some 1000; metadata = "" }

abbrev consent : ConsentRecord
consent = record {
  client_id = "app";
  redirect_uri = "https://app.example/cb";
  code_challenge = "v";
  state = some "s";
  scopes = required_scope ∷ [];
  resource = "https://mcp.example/mcp";
  expires_at = 1600000;
}

abbrev asked : Store
asked = record init { clients = put [] "app" client; consents = put [] "page" consent }

abbrev callback : Callback
callback = record {
  redirect_uri = "https://app.example/cb";
  code = "code";
  state = some "s";
  iss = "https://mcp.example/";
}

abbrev coded : Store
coded = record init { auth_codes = put [] "code" (approved_code 1000000 consent) }

abbrev first : Secrets
first = record { access = "a1"; refresh = "r1" }

abbrev second : Secrets
second = record { access = "a2"; refresh = "r2" }

abbrev pair : Secrets → OauthTokens
pair fresh = record {
  access_token = fresh.access;
  expires_in = 3600;
  refresh_token = fresh.refresh;
  scope = required_scope ∷ [];
}

abbrev old : TokenRecord
old = record {
  client_id = "app";
  scopes = required_scope ∷ [];
  resource = some "https://mcp.example/mcp";
  expires_at = 9000000;
  issued_at = some 1000000;
  access_token = some "a1";
}

abbrev paired : Store
paired = record init {
  access_tokens = put [] "a1" (record old { access_token = none });
  refresh_tokens = put [] "r1" old;
}

consent_there : get asked.consents "page" ≡ some consent
unfolding get put
consent_there = refl

client_there : get asked.clients consent.client_id ≡ some client
unfolding get put
client_there = refl

coded_there : get coded.auth_codes "code" ≡ some (approved_code 1000000 consent)
unfolding get put
coded_there = refl

old_there : get paired.refresh_tokens "r1" ≡ some old
unfolding get put
old_there = refl

approved :
    (approve_consent provider 1000000 "code" (some "page") (some "secret") asked).1
    ≡ redirects callback
unfolding approve_consent init put get peek_consent get_client client_expired has_active_artifacts
    take_consent create_auth_code evict_oldest evict size remove values
approved = refl

exchanged :
    (exchange_authorization_code provider 1000000 first "app" "code"
      (some "v")
      (some "https://app.example/cb")
      (some "https://mcp.example/mcp")
      coded).1
    ≡ granted (pair first)
unfolding exchange_authorization_code init put get remove take_auth_code is_expected_resource
    normalize_scopes issue_tokens create_access_token create_refresh_token evict_oldest evict size
exchanged = refl

refreshed :
    (exchange_refresh_token provider 2000000 second "app" "r1" []
      (some "https://mcp.example/mcp")
      paired).1
    ≡ granted (pair second)
unfolding exchange_refresh_token init put get remove get_refresh_token is_expected_resource
    normalize_scopes issue_tokens create_access_token create_refresh_token evict_oldest evict size
    delete_refresh_token delete_access_token
refreshed = refl

exchange_authorization_code-verify_example :
    let t =
      (exchange_authorization_code provider 1000000 first "app" "code"
        (some "v")
        (some "https://app.example/cb")
        (some "https://mcp.example/mcp")
        coded).0 in
    (1000000 < 1300000)
    × (consent.client_id ≡ "app")
    × (callback.redirect_uri ≡ consent.redirect_uri)
    × (provider.s256 "v" ≡ consent.code_challenge)
    × (get t.auth_codes "code" ≡ none)
    × ((verify_access_token provider 4599999 "a1" t).1
        ≡ some (new_access provider 1000000 "app" (required_scope ∷ [])))
exchange_authorization_code-verify_example =
    exchange_authorization_code-verify provider 1000000 first "app" "code" "v"
      "https://app.example/cb" (some "https://mcp.example/mcp") coded
      (approved_code 1000000 consent) coded_there (pair first) 4599999 refl (omega arith) exchanged

approve_consent_lem_example :
    IsApproved provider 1000000 "code" "page" "secret" callback consent client
      (approve_consent provider 1000000 "code" (some "page") (some "secret") asked).0
approve_consent_lem_example =
    approve_consent_lem provider 1000000 "code" "page" "secret" callback consent client asked
      consent_there client_there approved

exchange_refresh_token-rotates_example :
    let t =
      (exchange_refresh_token provider 2000000 second "app" "r1" []
        (some "https://mcp.example/mcp")
        paired).0 in
    (old.client_id ≡ "app")
    × (2000000 < 9000000)
    × (get t.refresh_tokens "r1" ≡ none)
    × (get t.access_tokens "a1" ≡ none)
exchange_refresh_token-rotates_example =
    exchange_refresh_token-rotates provider 2000000 second "app" "r1" []
      (some "https://mcp.example/mcp") paired old "a1" old_there refl refl (pair second) refl refl
      refreshed

exchange_refresh_token-verify_example :
    let t =
      (exchange_refresh_token provider 2000000 second "app" "r1" []
        (some "https://mcp.example/mcp")
        paired).0 in
    (all (λ x. includes (required_scope ∷ []) x) (required_scope ∷ []) ≡ true)
    × ((verify_access_token provider 5599999 "a2" t).1
        ≡ some (new_access provider 2000000 "app" (required_scope ∷ [])))
exchange_refresh_token-verify_example =
    exchange_refresh_token-verify provider 2000000 second "app" "r1" []
      (some "https://mcp.example/mcp") paired old old_there (pair second) 5599999 (refl, refl) refl
      (omega arith) refreshed
