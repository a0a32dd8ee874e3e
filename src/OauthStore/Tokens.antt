-- ===== src/OauthStore/Tokens.antt =====
-- Access and refresh tokens of http/oauth/store.ts.
use avito_mcp.Prelude.{
  ℕ, String, ◌==◌, Bool, true, false, not, ◌&&◌, Option, none, some, leb, get_or, if◌then◌else◌,
}
use avito_mcp.JsMap.{JsMap, get, has, put, remove, retain}
use avito_mcp.OauthStore.{
  TokenRecord, Store, max_access_tokens, max_refresh_tokens, schedule_flush, evict_oldest,
  token_expiry,
}

abbrev pub issued : ℕ → TokenRecord → TokenRecord
issued now r = record r { issued_at = some (get_or r.issued_at now) }

unfoldable pub create_access_token : ℕ → String → TokenRecord → Store → Option Store
create_access_token now token r s =
    if s.closing
    then none
    else some (
        schedule_flush (record s {
          access_tokens =
              put (evict_oldest token_expiry max_access_tokens s.access_tokens) token
                (issued now r);
        }))

unfoldable pub create_refresh_token : ℕ → String → TokenRecord → Store → Option Store
create_refresh_token now token r s =
    if s.closing
    then none
    else some (
        schedule_flush (record s {
          refresh_tokens =
              put (evict_oldest token_expiry max_refresh_tokens s.refresh_tokens) token
                (issued now r);
        }))

abbrev pub live_access : ℕ → String → Option TokenRecord → Store → Store × Option TokenRecord
live_access now token none s = (s, none)
live_access now token (some r) s =
    if leb r.expires_at now
    then (schedule_flush (record s { access_tokens = remove s.access_tokens token }), none)
    else (s, some r)

unfoldable pub get_access_token : ℕ → String → Store → Store × Option TokenRecord
get_access_token now token s = live_access now token (get s.access_tokens token) s

abbrev pub live_refresh : ℕ → String → Option TokenRecord → Store → Store × Option TokenRecord
live_refresh now token none s = (s, none)
live_refresh now token (some r) s =
    if leb r.expires_at now
    then (schedule_flush (record s { refresh_tokens = remove s.refresh_tokens token }), none)
    else (s, some r)

unfoldable pub get_refresh_token : ℕ → String → Store → Store × Option TokenRecord
get_refresh_token now token s = live_refresh now token (get s.refresh_tokens token) s

-- `deleteAccessToken`: writes only if there was one
unfoldable pub delete_access_token : String → Store → Option Store
delete_access_token token s =
    if s.closing
    then none
    else if has s.access_tokens token
    then some (schedule_flush (record s { access_tokens = remove s.access_tokens token }))
    else some s

unfoldable pub delete_refresh_token : String → Store → Option Store
delete_refresh_token token s =
    if s.closing
    then none
    else if has s.refresh_tokens token
    then some (schedule_flush (record s { refresh_tokens = remove s.refresh_tokens token }))
    else some s

abbrev pub is_of : String → Option TokenRecord → Bool
is_of client_id none = false
is_of client_id (some r) = r.client_id == client_id

-- the access token of the pair goes too if it is of the same client; an empty text names none
abbrev pub drop_pair : String → Option String → JsMap TokenRecord → JsMap TokenRecord
drop_pair client_id none m = m
drop_pair client_id (some access) m =
    if not (access == "") && is_of client_id (get m access) then remove m access else m

abbrev pub names : String → Option String → Bool
names token none = false
names token (some access) = access == token

abbrev pub not_paired : String → String → String → TokenRecord → Bool
not_paired client_id token refresh_token r =
    not ((r.client_id == client_id) && names token r.access_token)

abbrev pub revoke_access : String → String → Store → Store × Bool
revoke_access client_id token s =
    if is_of client_id (get s.access_tokens token)
    then (
      schedule_flush (record s {
        access_tokens = remove s.access_tokens token;
        refresh_tokens = retain (not_paired client_id token) s.refresh_tokens;
      }),
      true,
    )
    else (s, false)

abbrev pub revoke_found : String → String → Option TokenRecord → Store → Store × Bool
revoke_found client_id token none s = revoke_access client_id token s
revoke_found client_id token (some r) s =
    if r.client_id == client_id
    then (
      schedule_flush (record s {
        refresh_tokens = remove s.refresh_tokens token;
        access_tokens = drop_pair client_id r.access_token s.access_tokens;
      }),
      true,
    )
    else (s, false)

unfoldable pub revoke_token_family : String → String → Store → Option (Store × Bool)
revoke_token_family client_id token s =
    if s.closing then none else some (revoke_found client_id token (get s.refresh_tokens token) s)
