-- ===== src/OauthStore/Bounds.antt =====
-- The store of http/oauth/store.ts stays small whatever strangers ask of it.
use avito_mcp.Prelude.{
  ℕ, String, ◌+◌, ◌≤◌, ◌<◌, ◌≡◌, refl, Bool, true, Option, none, some, List, [], ◌∷◌, arith, ltb,
  not, get_or,
}
use avito_mcp.JsMap.{JsMap, get, has, retain, size}
use avito_mcp.JsMap.Sizes.{
  size-remove-has, size-remove-le, size-put-le, size-put-has, size-retain-le,
}
use avito_mcp.JsMap.Laws.{get-retain}
use avito_mcp.OauthStore.{
  TokenRecord, Client, Store, init, max_clients, max_auth_codes, max_consents, max_access_tokens,
  max_refresh_tokens, consent_ttl_ms, auth_code_ttl_ms, remove_tokens_for_client, of_other_client,
  code_expiry, consent_expiry, token_expiry, evict_oldest,
}
use avito_mcp.OauthStore.Eviction.{size-evict_oldest, scan-has}
use avito_mcp.OauthStore.Registry.{
  has_active_artifacts, get_client, drop_client, sweep_client, sweep_clients, sweep_transactions,
  sweep_tokens, sweep_expired, live_token, issue_order, find_oldest_inactive_client,
  has_client_capacity, replace_client, put_client,
}
use avito_mcp.OauthStore.Transactions.{
  create_consent, peek_consent, take_consent, create_auth_code, peek_auth_code, take_auth_code,
}
use avito_mcp.OauthStore.Tokens.{
  create_access_token, create_refresh_token, get_access_token, get_refresh_token,
  delete_access_token, delete_refresh_token, revoke_token_family, drop_pair, not_paired,
  revoke_found, issued,
}
use avito_mcp.OauthStore.Steps.{
  Call, gets_client, sweeps, asks_capacity, puts_client, creates_consent, peeks_consent,
  takes_consent, creates_code, peeks_code, takes_code, creates_access, creates_refresh, gets_access,
  gets_refresh, deletes_access, deletes_refresh, revokes, step, run,
}

pub record Bounded (s : Store) : Type 0 where
  pub clients : size s.clients ≤ max_clients
  pub auth_codes : size s.auth_codes ≤ max_auth_codes
  pub consents : size s.consents ≤ max_consents
  pub access_tokens : size s.access_tokens ≤ max_access_tokens
  pub refresh_tokens : size s.refresh_tokens ≤ max_refresh_tokens

drop_client-Bounded :
    (client_id : String) (s : Store) → Bounded s → Bounded (drop_client client_id s)
unfolding drop_client remove_tokens_for_client
drop_client-Bounded client_id s b = ground (
  arith,
  size-remove-le s.clients client_id,
  size-retain-le (of_other_client client_id) s.access_tokens,
  size-retain-le (of_other_client client_id) s.refresh_tokens,
)

sweep_clients-Bounded :
    (now : ℕ) (m : JsMap Client) (s : Store) → Bounded s → Bounded (sweep_clients now m s)
unfolding sweep_clients
sweep_clients-Bounded now [] s b = b
sweep_clients-Bounded now ((k, c) ∷ m) s b =
    sweep_clients-Bounded now m (sweep_client now k c s) (ground (arith, drop_client-Bounded k s b))

sweep_transactions-Bounded : (now : ℕ) (s : Store) → Bounded s → Bounded (sweep_transactions now s)
sweep_transactions-Bounded now s b = ground (
  arith,
  size-retain-le (λ code r. ltb now r.expires_at) s.auth_codes,
  size-retain-le (λ token r. ltb now r.expires_at) s.consents,
)

sweep_tokens-Bounded : (now : ℕ) (s : Store) → Bounded s → Bounded (sweep_tokens now s)
sweep_tokens-Bounded now s b = ground (
  arith,
  size-retain-le (live_token now) s.access_tokens,
  size-retain-le (live_token now) s.refresh_tokens,
)

sweep_expired-Bounded : (now : ℕ) (s : Store) → Bounded s → Bounded (sweep_expired now s)
unfolding sweep_expired
sweep_expired-Bounded now s b =
    let swept = sweep_transactions now s in
    ground (
      arith,
      sweep_tokens-Bounded now (sweep_clients now swept.clients swept)
          (sweep_clients-Bounded now swept.clients swept (sweep_transactions-Bounded now s b)),
    )

size-drop_client :
    (k : String) (s : Store)
    → has s.clients k ≡ true
    → size (drop_client k s).clients < size s.clients
unfolding drop_client remove_tokens_for_client
size-drop_client k s h = size-remove-has s.clients k h

oldest-has :
    (now : ℕ) (s : Store) (k : String) (at : ℕ)
    → find_oldest_inactive_client now s ≡ some (k, at)
    → has s.clients k ≡ true
unfolding find_oldest_inactive_client
oldest-has now s k at e =
    let unused : String → Client → Bool =
      λ client_id c. not (has_active_artifacts client_id now s) in
    ground (
      arith,
      scan-has issue_order none (retain unused s.clients) k at e,
      get-retain unused s.clients k,
    )

replace_client-Bounded :
    (c : Client) (o : Option (String × ℕ)) (s : Store)
    → ((k : String) (at : ℕ) → o ≡ some (k, at) → has s.clients k ≡ true)
    → Bounded s
    → Bounded (get_or (replace_client c o s) s)
replace_client-Bounded c none s found b = b
replace_client-Bounded c (some (k, at)) s found b = ground (
  arith,
  found k at refl,
  drop_client-Bounded k s b,
  size-drop_client k s,
  size-put-le (drop_client k s).clients c.client_id c,
)

put_client-Bounded :
    (now : ℕ) (c : Client) (s : Store) → Bounded s → Bounded (get_or (put_client now c s) s)
unfolding put_client
put_client-Bounded now c s b = ground (
  arith,
  replace_client-Bounded c (find_oldest_inactive_client now s) s (oldest-has now s) b,
  size-put-le s.clients c.client_id c,
  size-put-has s.clients c.client_id c,
)

size-drop_pair :
    (client_id : String) (o : Option String) (m : JsMap TokenRecord)
    → size (drop_pair client_id o m) ≤ size m
size-drop_pair client_id none m = omega arith
size-drop_pair client_id (some access) m = ground (arith, size-remove-le m access)

revoke_found-Bounded :
    (client_id token : String) (o : Option TokenRecord) (s : Store)
    → Bounded s
    → Bounded (revoke_found client_id token o s).0
revoke_found-Bounded client_id token none s b = ground (
  arith,
  size-remove-le s.access_tokens token,
  size-retain-le (not_paired client_id token) s.refresh_tokens,
)
revoke_found-Bounded client_id token (some r) s b = ground (
  arith,
  size-remove-le s.refresh_tokens token,
  size-drop_pair client_id r.access_token s.access_tokens,
)

step-Bounded : (now : ℕ) (c : Call) (s : Store) → Bounded s → Bounded (step now c s)
unfolding step get_client has_client_capacity create_consent peek_consent take_consent
    create_auth_code peek_auth_code take_auth_code create_access_token create_refresh_token
    get_access_token get_refresh_token delete_access_token delete_refresh_token revoke_token_family
step-Bounded now (gets_client k) s b = ground (arith, drop_client-Bounded k s b)
step-Bounded now sweeps s b = sweep_expired-Bounded now s b
step-Bounded now asks_capacity s b = sweep_expired-Bounded now s b
step-Bounded now (puts_client c) s b = put_client-Bounded now c s b
step-Bounded now (creates_consent token r) s b = ground (
  arith,
  size-evict_oldest consent_expiry max_consents s.consents,
  size-put-le (evict_oldest consent_expiry max_consents s.consents) token
      (record r { expires_at = now + consent_ttl_ms }),
)
step-Bounded now (peeks_consent token) s b = ground (arith, size-remove-le s.consents token)
step-Bounded now (takes_consent token) s b = ground (arith, size-remove-le s.consents token)
step-Bounded now (creates_code code r) s b = ground (
  arith,
  size-evict_oldest code_expiry max_auth_codes s.auth_codes,
  size-put-le (evict_oldest code_expiry max_auth_codes s.auth_codes) code
      (record r { expires_at = now + auth_code_ttl_ms }),
)
step-Bounded now (peeks_code code) s b = ground (arith, size-remove-le s.auth_codes code)
step-Bounded now (takes_code code) s b = ground (arith, size-remove-le s.auth_codes code)
step-Bounded now (creates_access token r) s b = ground (
  arith,
  size-evict_oldest token_expiry max_access_tokens s.access_tokens,
  size-put-le (evict_oldest token_expiry max_access_tokens s.access_tokens) token (issued now r),
)
step-Bounded now (creates_refresh token r) s b = ground (
  arith,
  size-evict_oldest token_expiry max_refresh_tokens s.refresh_tokens,
  size-put-le (evict_oldest token_expiry max_refresh_tokens s.refresh_tokens) token (issued now r),
)
step-Bounded now (gets_access token) s b = ground (arith, size-remove-le s.access_tokens token)
step-Bounded now (gets_refresh token) s b = ground (arith, size-remove-le s.refresh_tokens token)
step-Bounded now (deletes_access token) s b = ground (arith, size-remove-le s.access_tokens token)
step-Bounded now (deletes_refresh token) s b = ground (arith, size-remove-le s.refresh_tokens token)
step-Bounded now (revokes client_id token) s b =
    ground (arith, revoke_found-Bounded client_id token (get s.refresh_tokens token) s b)

run-Bounded : (cs : List (ℕ × Call)) (s : Store) → Bounded s → Bounded (run cs s)
unfolding run
run-Bounded [] s b = b
run-Bounded ((now, c) ∷ cs) s b = run-Bounded cs (step now c s) (step-Bounded now c s b)

-- Whatever is asked of a new store, in whatever order and at whatever times, none of its five maps grows
-- beyond its bound.
pub run-init-Bounded : (cs : List (ℕ × Call)) → Bounded (run cs init)
unfolding init size
run-init-Bounded cs = run-Bounded cs init (record {
  clients = omega arith;
  auth_codes = omega arith;
  consents = omega arith;
  access_tokens = omega arith;
  refresh_tokens = omega arith;
})
