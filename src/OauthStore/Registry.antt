-- ===== src/OauthStore/Registry.antt =====
-- The registered clients of http/oauth/store.ts: who is in use, who has run out, and who makes room.
use avito_mcp.Prelude.{
  ℕ, String, ◌+◌, ◌-◌, ◌==◌, Bool, not, ◌&&◌, ◌||◌, Option, none, some, [], ◌∷◌, ltb, leb, any,
  is_some, if◌then◌else◌,
}
use avito_mcp.JsMap.{JsMap, get, has, put, remove, size, values, retain}
use avito_mcp.OauthStore.{
  TokenRecord, Client, Store, client_ttl_ms, inactive_client_ttl_ms, max_clients, schedule_flush,
  client_issued_at_ms, scan, remove_tokens_for_client,
}

unfoldable pub has_active_artifacts : String → ℕ → Store → Bool
has_active_artifacts client_id now s =
    any (λ r. (r.client_id == client_id) && ltb now r.expires_at) (values s.consents)
    || any (λ r. (r.client_id == client_id) && ltb now r.expires_at) (values s.auth_codes)
    || any (λ r. (r.client_id == client_id) && ltb now r.expires_at) (values s.access_tokens)
    || any (λ r. (r.client_id == client_id) && ltb now r.expires_at) (values s.refresh_tokens)

-- whether a client has run out: for good, or for want of use
unfoldable pub client_expired : ℕ → String → Client → Store → Bool
client_expired now client_id c s =
    let issued_at = client_issued_at_ms c in
    leb issued_at 0
    || leb client_ttl_ms (now - issued_at)
    || (leb inactive_client_ttl_ms (now - issued_at) && not (has_active_artifacts client_id now s))

unfoldable pub drop_client : String → Store → Store
drop_client client_id s =
    remove_tokens_for_client client_id (record s { clients = remove s.clients client_id })

abbrev pub client_or_drop : ℕ → String → Option Client → Store → Store × Option Client
client_or_drop now client_id none s = (s, none)
client_or_drop now client_id (some c) s =
    if client_expired now client_id c s
    then (schedule_flush (drop_client client_id s), none)
    else (s, some c)

unfoldable pub get_client : ℕ → String → Store → Store × Option Client
get_client now client_id s = client_or_drop now client_id (get s.clients client_id) s

abbrev pub sweep_client : ℕ → String → Client → Store → Store
sweep_client now client_id c s =
    if client_expired now client_id c s then drop_client client_id s else s

unfoldable pub sweep_clients : ℕ → JsMap Client → Store → Store
sweep_clients now [] s = s
sweep_clients now ((k, c) ∷ m) s = sweep_clients now m (sweep_client now k c s)

abbrev pub live_token : ℕ → String → TokenRecord → Bool
live_token now token r = ltb now r.expires_at

abbrev pub sweep_tokens : ℕ → Store → Store
sweep_tokens now s = record s {
  access_tokens = retain (live_token now) s.access_tokens;
  refresh_tokens = retain (live_token now) s.refresh_tokens;
}

abbrev pub sweep_transactions : ℕ → Store → Store
sweep_transactions now s = record s {
  auth_codes = retain (λ code r. ltb now r.expires_at) s.auth_codes;
  consents = retain (λ token r. ltb now r.expires_at) s.consents;
}

abbrev pub persistent_size : Store → ℕ
persistent_size s = size s.clients + size s.access_tokens + size s.refresh_tokens

-- How many entries a sweep removed is not returned here. A sweep is persisted when it removed a client or a token. The tokens of a removed client count too,
-- which changes nothing: that client was removed.
unfoldable pub sweep_expired : ℕ → Store → Store
sweep_expired now s =
    let swept = sweep_transactions now s in
    let after = sweep_tokens now (sweep_clients now swept.clients swept) in
    if ltb (persistent_size after) (persistent_size swept) then schedule_flush after else after

abbrev pub issue_order : Client → ℕ
issue_order = client_issued_at_ms

-- `findOldestInactiveClient`
unfoldable pub find_oldest_inactive_client : ℕ → Store → Option (String × ℕ)
find_oldest_inactive_client now s =
    scan issue_order none
      (retain (λ client_id c. not (has_active_artifacts client_id now s)) s.clients)

unfoldable pub has_client_capacity : ℕ → Store → Store × Bool
has_client_capacity now s =
    let swept = sweep_expired now s in
    (swept, ltb (size swept.clients) max_clients || is_some (find_oldest_inactive_client now swept))

abbrev pub store_client : Client → Store → Store
store_client c s = schedule_flush (record s { clients = put s.clients c.client_id c })

abbrev pub replace_client : Client → Option (String × ℕ) → Store → Option Store
replace_client c none s = none
replace_client c (some (evictable, issued_at)) s = some (store_client c (drop_client evictable s))

-- `none` is a throw, here and below: the store is closing, or there is no room
unfoldable pub put_client : ℕ → Client → Store → Option Store
put_client now c s =
    if s.closing
    then none
    else if not (has s.clients c.client_id) && leb max_clients (size s.clients)
    then replace_client c (find_oldest_inactive_client now s) s
    else some (store_client c s)
