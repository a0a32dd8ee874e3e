-- ===== src/OauthProvider/Approval.antt =====
-- What it takes to get an authorization code from http/oauth/provider.ts.
use avito_mcp.Prelude.{
  ℕ, String, ◌+◌, ◌<◌, ◌≡◌, true, false, not, none, some, arith, any, ◌==◌, eq_iff, sym, if_cases,
  leb, ltb,
}
use mathlib.Core.Path.{subst}
use avito_mcp.JsMap.{get, remove}
use avito_mcp.JsMap.Laws.{get-remove_self, get-put_self}
use avito_mcp.OauthStore.{
  AuthCodeRecord, ConsentRecord, Client, Store, evict_oldest, code_expiry, max_auth_codes,
  auth_code_ttl_ms,
}
use avito_mcp.OauthStore.Registry.{get_client, client_or_drop, client_expired}
use avito_mcp.OauthStore.Transactions.{
  peek_consent, take_consent, create_auth_code, peeked_consent, taken_consent,
}
use avito_mcp.OauthProvider.{Provider}
use avito_mcp.OauthProvider.Approve.{
  Callback, Response, redirects, approve_consent, approve_peeked, approve_client, approve_taken,
  minted,
}

-- the record of a code that the owner has approved
abbrev pub approved_code : ℕ → ConsentRecord → AuthCodeRecord
approved_code now rec = record {
  client_id = rec.client_id;
  code_challenge = rec.code_challenge;
  redirect_uri = rec.redirect_uri;
  scopes = rec.scopes;
  resource = some rec.resource;
  expires_at = now + auth_code_ttl_ms;
}

module _ (p : Provider) (now : ℕ) (code token password : String) (cb : Callback)
    (rec : ConsentRecord) (client : Client) where
  -- what a redirect with a code says of the consent and of the store before and after it
  abbrev pub IsApproved : Store → Type 0
  IsApproved t =
      (now < rec.expires_at)
      × ((p.owner_password == "") ≡ false)
      × (password ≡ p.owner_password)
      × (any (λ u. p.redirect_uri_matches rec.redirect_uri u) (p.redirect_uris client) ≡ true)
      × (cb.redirect_uri ≡ rec.redirect_uri)
      × (cb.code ≡ code)
      × (cb.state ≡ rec.state)
      × (cb.iss ≡ p.issuer)
      × (get t.consents token ≡ none)
      × (get t.auth_codes code ≡ some (approved_code now rec))

  abbrev Holds : Store × Response → Type 0
  Holds r = r.1 ≡ redirects cb → IsApproved r.0

  minted-Holds :
      (s : Store)
      → get s.consents token ≡ none
      → now < rec.expires_at
      → (p.owner_password == "") ≡ false
      → password ≡ p.owner_password
      → any (λ u. p.redirect_uri_matches rec.redirect_uri u) (p.redirect_uris client) ≡ true
      → Holds (approve_taken p now code (s, some rec))
  unfolding create_auth_code
  minted-Holds s gone live set right matches =
      let r = approved_code now rec in
      if_cases (λ o. Holds (minted p rec code s o)) s.closing _ _ (λ _ h. ground (arith, h))
        (λ _ h. (
          live,
          set,
          right,
          matches,
          ground (arith, h),
          ground (arith, h),
          ground (arith, h),
          ground (arith, h),
          gone,
          get-put_self (evict_oldest code_expiry max_auth_codes s.auth_codes) code r,
        ))

  approve_client-Holds :
      (s : Store)
      → get s.consents token ≡ some rec
      → now < rec.expires_at
      → Holds (approve_client p now code token password rec (s, some client))
  unfolding take_consent
  approve_client-Holds s found live =
      if_cases Holds
        (not (any (λ u. p.redirect_uri_matches rec.redirect_uri u) (p.redirect_uris client))) _ _
        (λ _ h. ground (arith, h))
        (λ matches.
          if_cases Holds (p.owner_password == "") _ _ (λ _ h. ground (arith, h))
            (λ set.
              if_cases Holds (not (password == p.owner_password)) _ _ (λ _ h. ground (arith, h))
                (λ right.
                  subst (λ o. Holds (approve_taken p now code (taken_consent now token o s)))
                    (sym found)
                    (if_cases
                      (λ o. Holds (
                        approve_taken p now code
                          (record s { consents = remove s.consents token }, o)))
                      (ltb now rec.expires_at) _ _
                      (λ _.
                        minted-Holds _ (get-remove_self s.consents token) live set
                          (ground (arith, right, eq_iff password p.owner_password))
                          (ground (arith, matches)))
                      (λ _ h. ground (arith, h))))))

  -- A browser is sent on with a code only for a consent that had not expired, and for the owner's password,
  -- which is not empty; it is sent to the redirect URI of the consent, which matches one that the client
  -- has registered, with the state of the consent and the server's issuer. The consent is then used up, and the code stands for what was consented to.
  pub approve_consent_lem :
      (s : Store)
      → get s.consents token ≡ some rec
      → get s.clients rec.client_id ≡ some client
      → (approve_consent p now code (some token) (some password) s).1 ≡ redirects cb
      → IsApproved (approve_consent p now code (some token) (some password) s).0
  unfolding approve_consent peek_consent get_client
  approve_consent_lem s found registered =
      if_cases Holds (token == "") _ _ (λ _ h. ground (arith, h))
        (λ _.
          subst
            (λ o. Holds (approve_peeked p now code token password (peeked_consent now token o s)))
            (sym found)
            (if_cases (λ r. Holds (approve_peeked p now code token password r))
              (leb rec.expires_at now) _ _ (λ _ h. ground (arith, h))
              (λ live.
                subst
                  (λ o. Holds (
                    approve_client p now code token password rec
                      (client_or_drop now rec.client_id o s)))
                  (sym registered)
                  (if_cases (λ r. Holds (approve_client p now code token password rec r))
                    (client_expired now rec.client_id client s) _ _ (λ _ h. ground (arith, h))
                    (λ _. approve_client-Holds s found (ground (arith, live)))))))
