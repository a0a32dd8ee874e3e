-- ===== src/OauthStore/Steps.antt =====
-- Histories of the store of http/oauth/store.ts. A call that throws leaves the store as it is.
use avito_mcp.Prelude.{ℕ, String, Bool, none, some, Option, List, [], ◌∷◌, get_or}
use avito_mcp.OauthStore.{AuthCodeRecord, ConsentRecord, TokenRecord, Client, Store}
use avito_mcp.OauthStore.Registry.{get_client, sweep_expired, has_client_capacity, put_client}
use avito_mcp.OauthStore.Transactions.{
  create_consent, peek_consent, take_consent, create_auth_code, peek_auth_code, take_auth_code,
}
use avito_mcp.OauthStore.Tokens.{
  create_access_token, create_refresh_token, get_access_token, get_refresh_token,
  delete_access_token, delete_refresh_token, revoke_token_family,
}

pub data Call : Type 0 where
  gets_client : (client_id : String) → Call
  sweeps : Call
  asks_capacity : Call
  puts_client : Client → Call
  creates_consent : (token : String) → ConsentRecord → Call
  peeks_consent : (token : String) → Call
  takes_consent : (token : String) → Call
  creates_code : (code : String) → AuthCodeRecord → Call
  peeks_code : (code : String) → Call
  takes_code : (code : String) → Call
  creates_access : (token : String) → TokenRecord → Call
  creates_refresh : (token : String) → TokenRecord → Call
  gets_access : (token : String) → Call
  gets_refresh : (token : String) → Call
  deletes_access : (token : String) → Call
  deletes_refresh : (token : String) → Call
  revokes : (client_id token : String) → Call

abbrev revoked : Option (Store × Bool) → Store → Store
revoked none s = s
revoked (some (t, b)) s = t

-- `now` is the time of the call
unfoldable pub step : (now : ℕ) → Call → Store → Store
step now (gets_client client_id) s = (get_client now client_id s).0
step now sweeps s = sweep_expired now s
step now asks_capacity s = (has_client_capacity now s).0
step now (puts_client c) s = get_or (put_client now c s) s
step now (creates_consent token r) s = get_or (create_consent now token r s) s
step now (peeks_consent token) s = (peek_consent now token s).0
step now (takes_consent token) s = (take_consent now token s).0
step now (creates_code code r) s = get_or (create_auth_code now code r s) s
step now (peeks_code code) s = (peek_auth_code now code s).0
step now (takes_code code) s = (take_auth_code now code s).0
step now (creates_access token r) s = get_or (create_access_token now token r s) s
step now (creates_refresh token r) s = get_or (create_refresh_token now token r s) s
step now (gets_access token) s = (get_access_token now token s).0
step now (gets_refresh token) s = (get_refresh_token now token s).0
step now (deletes_access token) s = get_or (delete_access_token token s) s
step now (deletes_refresh token) s = get_or (delete_refresh_token token s) s
step now (revokes client_id token) s = revoked (revoke_token_family client_id token s) s

unfoldable pub run : List (ℕ × Call) → Store → Store
run [] s = s
run ((now, c) ∷ cs) s = run cs (step now c s)
