-- ===== src/OauthProvider/Consent.antt =====
-- What it takes to get tokens for a code from http/oauth/provider.ts.
use avito_mcp.Prelude.{
  ℕ, String, ◌+◌, ◌*◌, ◌<◌, ◌≡◌, refl, not, ◌&&◌, Option, none, some, List, arith, ◌==◌, eq_iff, ap,
  sym, ◌∙◌, if_cases, ltb,
}
use mathlib.Core.Path.{subst}
use avito_mcp.JsMap.{get, remove}
use avito_mcp.JsMap.Laws.{get-remove_self}
use avito_mcp.OauthStore.{AuthCodeRecord, Store}
use avito_mcp.OauthStore.Tokens.{create_access_token, create_refresh_token}
use avito_mcp.OauthStore.Transactions.{take_auth_code, taken_code}
use avito_mcp.OauthProvider.{
  Provider, Secrets, OauthTokens, Grant, granted, denied, Error, issue_tokens, normalize_scopes,
  is_expected_resource, verify_access_token,
}
use avito_mcp.OauthProvider.Exchange.{exchange_authorization_code, exchange_code, issue_normalized}
use avito_mcp.OauthProvider.Grants.{
  IsScoped, issue_tokens-IsIssued, normalize_scopes-IsScoped, verify-new_access, new_access,
}

auth_codes-issue_tokens :
    (p : Provider) (now : ℕ) (fresh : Secrets) (client_id : String) (scopes : List String)
    (s : Store)
    → (issue_tokens p now fresh client_id scopes s).0.auth_codes ≡ s.auth_codes
unfolding issue_tokens create_access_token create_refresh_token
auth_codes-issue_tokens p now fresh client_id scopes s = ground arith

module _ (p : Provider) (now : ℕ) (fresh : Secrets) (client_id code verifier redirect_uri : String)
    (resource : Option String) (s : Store) (rec : AuthCodeRecord)
    (found : get s.auth_codes code ≡ some rec) where
  -- how an exchange can end
  exchange_authorization_code-cases :
      (P : Store × Grant → Type 0)
      → ((t : Store) (e : Error) → P (t, denied e))
      → (now < rec.expires_at
          → rec.client_id ≡ client_id
          → redirect_uri ≡ rec.redirect_uri
          → p.s256 verifier ≡ rec.code_challenge
          → (scopes : List String) (u : Store) → IsScoped scopes
          → get u.auth_codes code ≡ none
          → P (issue_tokens p now fresh client_id scopes u))
      → P (
          exchange_authorization_code p now fresh client_id code
            (some verifier)
            (some redirect_uri)
            resource
            s)
  unfolding exchange_authorization_code take_auth_code
  exchange_authorization_code-cases P denial ok =
      let next : Store × Option AuthCodeRecord → Store × Grant =
        λ r. exchange_code p now fresh client_id (some verifier) (some redirect_uri) resource r in
      let left : Store = record s { auth_codes = remove s.auth_codes code } in
      subst (λ o. P (next (taken_code now code o s))) (sym found)
        (if_cases (λ o. P (next (left, o))) (ltb now rec.expires_at) _ _
          (λ live.
            if_cases P (not (rec.client_id == client_id)) _ _ (λ _. denial left _)
              (λ own.
                if_cases P (not (redirect_uri == rec.redirect_uri)) _ _ (λ _. denial left _)
                  (λ same.
                    if_cases P (not (p.s256 verifier == rec.code_challenge)) _ _
                      (λ _. denial left _)
                      (λ proved.
                        if_cases P
                          (not (
                            is_expected_resource p rec.resource && is_expected_resource p resource))
                          _ _ (λ _. denial left _)
                          (λ _. normalized (normalize_scopes (some rec.scopes)) refl (
                            ok (ground (arith, live))
                              (ground (arith, own, eq_iff rec.client_id client_id))
                              (ground (arith, same, eq_iff redirect_uri rec.redirect_uri))
                              (ground
                                (arith, proved, eq_iff (p.s256 verifier) rec.code_challenge))))))))
          (λ _. denial left _))
    where
      normalized :
          (o : Option (List String))
          → normalize_scopes (some rec.scopes) ≡ o
          → ((scopes : List String) (u : Store)
              → IsScoped scopes
              → get u.auth_codes code ≡ none
              → P (issue_tokens p now fresh client_id scopes u))
          → P (
              issue_normalized p now fresh client_id o
                (record s { auth_codes = remove s.auth_codes code }))
      normalized none e give = denial _ _
      normalized (some scopes) e give =
          give scopes _ (normalize_scopes-IsScoped (some rec.scopes) scopes e)
            (get-remove_self s.auth_codes code)

  -- A code that buys tokens had not expired, was issued to the client that presents it, for the redirect URI
  -- that it names, and under the challenge that its verifier hashes to; the code is used up, and the
  -- access token is accepted for that client until its time is over. It is assumed that the client names
  -- a redirect URI and a verifier, and that the server's own address is in normal form.
  pub exchange_authorization_code-verify :
      (k : OauthTokens) (later : ℕ)
      → p.normalized p.expected_resource ≡ some p.expected_resource
      → later < now + p.ttl_sec * 1000
      → let (t, g) =
          exchange_authorization_code p now fresh client_id code
            (some verifier)
            (some redirect_uri)
            resource
            s in
        g ≡ granted k
        → (now < rec.expires_at)
          × (rec.client_id ≡ client_id)
          × (redirect_uri ≡ rec.redirect_uri)
          × (p.s256 verifier ≡ rec.code_challenge)
          × (get t.auth_codes code ≡ none)
          × ((verify_access_token p later k.access_token t).1
              ≡ some (new_access p now client_id k.scope))
  exchange_authorization_code-verify k later same live h =
      exchange_authorization_code-cases
        (λ r.
          r.1 ≡ granted k
          → (now < rec.expires_at)
            × (rec.client_id ≡ client_id)
            × (redirect_uri ≡ rec.redirect_uri)
            × (p.s256 verifier ≡ rec.code_challenge)
            × (get r.0.auth_codes code ≡ none)
            × ((verify_access_token p later k.access_token r.0).1
                ≡ some (new_access p now client_id k.scope)))
        (λ t e g. ground (arith, g))
        (λ not_over own named proved scopes u ok gone g.
          let (is_access, is_refresh, is_scope, at, keeps_access, keeps_refresh) =
            issue_tokens-IsIssued p now fresh client_id scopes u k g in
          let t = (issue_tokens p now fresh client_id scopes u).0 in
          (
            not_over,
            own,
            named,
            proved,
            ap (λ m. get m code) (auth_codes-issue_tokens p now fresh client_id scopes u) ∙ gone,
            ap (λ j. (verify_access_token p later j t).1) is_access
                ∙ verify-new_access p now client_id scopes later fresh.access t same ok at live
                ∙ ap (λ xs. some (new_access p now client_id xs)) (sym is_scope),
          ))
        h
