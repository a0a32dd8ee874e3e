-- ===== src/OauthStore/Transactions.antt =====
-- Consents and authorization codes of http/oauth/store.ts. The expiry of the record that is handed to a
-- create is ignored: the store sets its own.
use avito_mcp.Prelude.{ℕ, String, ◌+◌, Option, none, some, ltb, leb, if◌then◌else◌}
use avito_mcp.JsMap.{get, put, remove}
use avito_mcp.OauthStore.{
  AuthCodeRecord, ConsentRecord, Store, auth_code_ttl_ms, consent_ttl_ms, max_auth_codes,
  max_consents, evict_oldest, code_expiry, consent_expiry,
}

unfoldable pub create_consent : ℕ → String → ConsentRecord → Store → Option Store
create_consent now token r s =
    if s.closing
    then none
    else some (record s {
      consents =
          put (evict_oldest consent_expiry max_consents s.consents) token
            (record r { expires_at = now + consent_ttl_ms });
    })

unfoldable pub create_auth_code : ℕ → String → AuthCodeRecord → Store → Option Store
create_auth_code now code r s =
    if s.closing
    then none
    else some (record s {
      auth_codes =
          put (evict_oldest code_expiry max_auth_codes s.auth_codes) code
            (record r { expires_at = now + auth_code_ttl_ms });
    })

abbrev pub peeked_consent : ℕ → String → Option ConsentRecord → Store → Store × Option ConsentRecord
peeked_consent now token none s = (s, none)
peeked_consent now token (some r) s =
    if leb r.expires_at now
    then (record s { consents = remove s.consents token }, none)
    else (s, some r)

unfoldable pub peek_consent : ℕ → String → Store → Store × Option ConsentRecord
peek_consent now token s = peeked_consent now token (get s.consents token) s

abbrev pub taken_consent : ℕ → String → Option ConsentRecord → Store → Store × Option ConsentRecord
taken_consent now token none s = (s, none)
taken_consent now token (some r) s =
    (record s { consents = remove s.consents token }, if ltb now r.expires_at then some r else none)

unfoldable pub take_consent : ℕ → String → Store → Store × Option ConsentRecord
take_consent now token s = taken_consent now token (get s.consents token) s

abbrev pub peeked_code : ℕ → String → Option AuthCodeRecord → Store → Store × Option AuthCodeRecord
peeked_code now code none s = (s, none)
peeked_code now code (some r) s =
    if leb r.expires_at now
    then (record s { auth_codes = remove s.auth_codes code }, none)
    else (s, some r)

unfoldable pub peek_auth_code : ℕ → String → Store → Store × Option AuthCodeRecord
peek_auth_code now code s = peeked_code now code (get s.auth_codes code) s

abbrev pub taken_code : ℕ → String → Option AuthCodeRecord → Store → Store × Option AuthCodeRecord
taken_code now code none s = (s, none)
taken_code now code (some r) s = (
  record s { auth_codes = remove s.auth_codes code },
  if ltb now r.expires_at then some r else none,
)

unfoldable pub take_auth_code : ℕ → String → Store → Store × Option AuthCodeRecord
take_auth_code now code s = taken_code now code (get s.auth_codes code) s
