-- ===== src/OauthStore/Codes.antt =====
-- An authorization code of http/oauth/store.ts is exchanged at most once.
use avito_mcp.Prelude.{
  ℕ, String, ◌+◌, ◌≤◌, ◌≡◌, refl, Option, none, some, List, [], ◌∷◌, arith, eq_iff, ltb, ◌==◌,
  get_or, is_some, ◌&&◌, bit,
}
use avito_mcp.JsMap.{JsMap, get, has}
use avito_mcp.JsMap.Laws.{get-put, get-remove, get-retain}
use avito_mcp.OauthStore.{
  Client, Store, init, max_auth_codes, auth_code_ttl_ms, remove_tokens_for_client, code_expiry,
  evict_oldest,
}
use avito_mcp.OauthStore.Eviction.{get-evict_oldest}
use avito_mcp.OauthStore.Registry.{
  get_client, drop_client, sweep_client, sweep_clients, sweep_transactions, sweep_expired,
  has_client_capacity, find_oldest_inactive_client, replace_client, put_client,
}
use avito_mcp.OauthStore.Transactions.{
  create_consent, peek_consent, take_consent, create_auth_code, peek_auth_code, take_auth_code,
}
use avito_mcp.OauthStore.Tokens.{
  create_access_token, create_refresh_token, get_access_token, get_refresh_token,
  delete_access_token, delete_refresh_token, revoke_token_family, revoke_found,
}
use avito_mcp.OauthStore.Steps.{
  Call, gets_client, sweeps, asks_capacity, puts_client, creates_consent, peeks_consent,
  takes_consent, creates_code, peeks_code, takes_code, creates_access, creates_refresh, gets_access,
  gets_refresh, deletes_access, deletes_refresh, revokes, step,
}

module _ (code : String) where
  -- one more exchange of the code
  abbrev pub exchange_of : ℕ → Call → Store → ℕ
  exchange_of now (takes_code c) s = bit ((c == code) && is_some (take_auth_code now c s).1)
  exchange_of now _ s = 0

  -- the code is issued
  abbrev pub issue_of : Call → ℕ
  issue_of (creates_code c r) = bit (c == code)
  issue_of _ = 0

  unfoldable pub exchanges : List (ℕ × Call) → Store → ℕ
  exchanges [] s = 0
  exchanges ((now, c) ∷ cs) s = exchange_of now c s + exchanges cs (step now c s)

  unfoldable pub issues : List (ℕ × Call) → ℕ
  issues [] = 0
  issues ((now, c) ∷ cs) = issue_of c + issues cs

  abbrev pub present : Store → ℕ
  present s = bit (has s.auth_codes code)

  drop_client-codes : (k : String) (s : Store) → (drop_client k s).auth_codes ≡ s.auth_codes
  unfolding drop_client remove_tokens_for_client
  drop_client-codes k s = refl

  sweep_clients-codes :
      (now : ℕ) (m : JsMap Client) (s : Store) → (sweep_clients now m s).auth_codes ≡ s.auth_codes
  unfolding sweep_clients
  sweep_clients-codes now [] s = refl
  sweep_clients-codes now ((k, c) ∷ m) s =
      ground (arith, sweep_clients-codes now m (sweep_client now k c s), drop_client-codes k s)

  sweep_expired-present : (now : ℕ) (s : Store) → present (sweep_expired now s) ≤ present s
  unfolding sweep_expired
  sweep_expired-present now s =
      let swept = sweep_transactions now s in
      ground (
        arith,
        sweep_clients-codes now swept.clients swept,
        get-retain (λ c r. ltb now r.expires_at) s.auth_codes code,
      )

  put_client-codes :
      (now : ℕ) (c : Client) (s : Store) → (get_or (put_client now c s) s).auth_codes ≡ s.auth_codes
  unfolding put_client
  put_client-codes now c s = ground (arith, replaced (find_oldest_inactive_client now s))
    where
      replaced :
          (o : Option (String × ℕ)) → (get_or (replace_client c o s) s).auth_codes ≡ s.auth_codes
      replaced none = refl
      replaced (some (k, at)) = ground (arith, drop_client-codes k s)

  revoke_found-codes :
      (client_id token : String) (s : Store)
      → (revoke_found client_id token (get s.refresh_tokens token) s).0.auth_codes ≡ s.auth_codes
  revoke_found-codes client_id token s = ground arith

  step-present :
      (now : ℕ) (c : Call) (s : Store)
      → exchange_of now c s + present (step now c s) ≤ present s + issue_of c
  unfolding step get_client has_client_capacity create_consent peek_consent take_consent
      create_auth_code peek_auth_code take_auth_code create_access_token create_refresh_token
      get_access_token get_refresh_token delete_access_token delete_refresh_token
      revoke_token_family
  step-present now (gets_client k) s = ground (arith, drop_client-codes k s)
  step-present now sweeps s = ground (arith, sweep_expired-present now s)
  step-present now asks_capacity s = ground (arith, sweep_expired-present now s)
  step-present now (puts_client c) s = ground (arith, put_client-codes now c s)
  step-present now (creates_consent token r) s = ground arith
  step-present now (peeks_consent token) s = ground arith
  step-present now (takes_consent token) s = ground arith
  step-present now (creates_code c r) s = ground (
    arith,
    get-put (evict_oldest code_expiry max_auth_codes s.auth_codes) c
        (record r { expires_at = now + auth_code_ttl_ms }) code,
    get-evict_oldest code_expiry max_auth_codes s.auth_codes code,
  )
  step-present now (peeks_code c) s = ground (arith, get-remove s.auth_codes c code)
  step-present now (takes_code c) s = ground (arith, get-remove s.auth_codes c code, eq_iff c code)
  step-present now (creates_access token r) s = ground arith
  step-present now (creates_refresh token r) s = ground arith
  step-present now (gets_access token) s = ground arith
  step-present now (gets_refresh token) s = ground arith
  step-present now (deletes_access token) s = ground arith
  step-present now (deletes_refresh token) s = ground arith
  step-present now (revokes client_id token) s =
      ground (arith, revoke_found-codes client_id token s)

  exchanges-present : (cs : List (ℕ × Call)) (s : Store) → exchanges cs s ≤ present s + issues cs
  unfolding exchanges issues
  exchanges-present [] s = omega arith
  exchanges-present ((now, c) ∷ cs) s =
      omega (arith, step-present now c s, exchanges-present cs (step now c s))

-- A code is exchanged no more often than it was issued, whatever else is asked of a new store: a code
-- that is issued once is good for at most one exchange.
pub exchanges-le-issues :
    (code : String) (cs : List (ℕ × Call)) → exchanges code cs init ≤ issues code cs
unfolding init get
exchanges-le-issues code cs = omega (arith, exchanges-present code cs init)
