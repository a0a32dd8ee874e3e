-- ===== src/OauthStore/Clients.antt =====
-- Registration and expiry of clients in http/oauth/store.ts.
use avito_mcp.Prelude.{
  ℕ, String, ◌<◌, ◌≡◌, refl, true, false, Option, none, some, [], ◌∷◌, arith, ltb, ◌==◌, is_some,
}
use avito_mcp.JsMap.{JsMap, get, has}
use avito_mcp.JsMap.Laws.{get-retain, get-remove_self}
use avito_mcp.OauthStore.{
  AuthCodeRecord, ConsentRecord, TokenRecord, Client, Store, remove_tokens_for_client,
  of_other_client,
}
use avito_mcp.OauthStore.Registry.{
  get_client, client_expired, drop_client, sweep_client, sweep_clients, sweep_transactions,
  sweep_expired, live_token, has_client_capacity, find_oldest_inactive_client, replace_client,
  put_client,
}

drop_client-closing : (k : String) (s : Store) → (drop_client k s).closing ≡ s.closing
unfolding drop_client remove_tokens_for_client
drop_client-closing k s = refl

sweep_clients-closing :
    (now : ℕ) (m : JsMap Client) (s : Store) → (sweep_clients now m s).closing ≡ s.closing
unfolding sweep_clients
sweep_clients-closing now [] s = refl
sweep_clients-closing now ((k, c) ∷ m) s =
    ground (arith, sweep_clients-closing now m (sweep_client now k c s), drop_client-closing k s)

sweep_expired-closing : (now : ℕ) (s : Store) → (sweep_expired now s).closing ≡ s.closing
unfolding sweep_expired
sweep_expired-closing now s =
    let swept = sweep_transactions now s in
    ground (arith, sweep_clients-closing now swept.clients swept)

-- A store that is open takes a client that is not registered exactly if it said before, at the same
-- time, that it has room for one.
pub put_client-has_client_capacity :
    (now : ℕ) (c : Client) (s : Store)
    → s.closing ≡ false
    → has (has_client_capacity now s).0.clients c.client_id ≡ false
    → is_some (put_client now c (has_client_capacity now s).0) ≡ (has_client_capacity now s).1
unfolding put_client has_client_capacity
put_client-has_client_capacity now c s open_store new = ground (
  arith,
  sweep_expired-closing now s,
  answers (find_oldest_inactive_client now (sweep_expired now s)),
)
  where
    answers :
        (o : Option (String × ℕ)) → is_some (replace_client c o (sweep_expired now s)) ≡ is_some o
    answers none = refl
    answers (some (k, at)) = refl

drop_client-tokens :
    (client_id : String) (s : Store) (k : String) (r : TokenRecord)
    → (get (drop_client client_id s).access_tokens k ≡ some r → (r.client_id == client_id) ≡ false)
      × (get (drop_client client_id s).refresh_tokens k ≡ some r
          → (r.client_id == client_id) ≡ false)
unfolding drop_client remove_tokens_for_client
drop_client-tokens client_id s k r = (
  λ h. ground (arith, get-retain (of_other_client client_id) s.access_tokens k),
  λ h. ground (arith, get-retain (of_other_client client_id) s.refresh_tokens k),
)

clients-drop_client :
    (client_id : String) (s : Store) → get (drop_client client_id s).clients client_id ≡ none
unfolding drop_client remove_tokens_for_client
clients-drop_client client_id s = get-remove_self s.clients client_id

-- A registered client that is looked up and refused has expired, and loses its registration and all its
-- tokens at once.
pub get_client-refused :
    (now : ℕ) (client_id : String) (c : Client) (s : Store) (k : String) (r : TokenRecord)
    → get s.clients client_id ≡ some c
    → (get_client now client_id s).1 ≡ none
    → (client_expired now client_id c s ≡ true)
      × (get (get_client now client_id s).0.clients client_id ≡ none)
      × (get (get_client now client_id s).0.access_tokens k ≡ some r
          → (r.client_id == client_id) ≡ false)
      × (get (get_client now client_id s).0.refresh_tokens k ≡ some r
          → (r.client_id == client_id) ≡ false)
unfolding get_client
get_client-refused now client_id c s k r e h =
    ground (arith, drop_client-tokens client_id s k r, clients-drop_client client_id s)

drop_client-transactions :
    (k : String) (s : Store)
    → ((drop_client k s).auth_codes ≡ s.auth_codes) × ((drop_client k s).consents ≡ s.consents)
unfolding drop_client remove_tokens_for_client
drop_client-transactions k s = (refl, refl)

sweep_clients-transactions :
    (now : ℕ) (m : JsMap Client) (s : Store)
    → ((sweep_clients now m s).auth_codes ≡ s.auth_codes)
      × ((sweep_clients now m s).consents ≡ s.consents)
unfolding sweep_clients
sweep_clients-transactions now [] s = (refl, refl)
sweep_clients-transactions now ((k, c) ∷ m) s =
    ground (
      arith,
      sweep_clients-transactions now m (sweep_client now k c s),
      drop_client-transactions k s,
    )

-- After a sweep nothing that has expired is left: no authorization code, consent, access token or refresh
-- token.
pub sweep_expired-live :
    (now : ℕ) (s : Store) (k : String)
    → ((r : AuthCodeRecord) → get (sweep_expired now s).auth_codes k ≡ some r → now < r.expires_at)
      × ((r : ConsentRecord) → get (sweep_expired now s).consents k ≡ some r → now < r.expires_at)
      × ((r : TokenRecord)
          → get (sweep_expired now s).access_tokens k ≡ some r
          → now < r.expires_at)
      × ((r : TokenRecord)
          → get (sweep_expired now s).refresh_tokens k ≡ some r
          → now < r.expires_at)
unfolding sweep_expired
sweep_expired-live now s k =
    let swept = sweep_transactions now s in
    let cleared = sweep_clients now swept.clients swept in
    (
      λ r e. ground (
        arith,
        sweep_clients-transactions now swept.clients swept,
        get-retain (λ c q. ltb now q.expires_at) s.auth_codes k,
      ),
      λ r e. ground (
        arith,
        sweep_clients-transactions now swept.clients swept,
        get-retain (λ c q. ltb now q.expires_at) s.consents k,
      ),
      λ r e. ground (arith, get-retain (live_token now) cleared.access_tokens k),
      λ r e. ground (arith, get-retain (live_token now) cleared.refresh_tokens k),
    )
