-- ===== src/OauthStore/Revocation.antt =====
-- What `revokeTokenFamily` of http/oauth/store.ts takes away, and from whom.
use avito_mcp.Prelude.{
  String, ◌≡◌, refl, Bool, true, false, Option, none, some, arith, eq_iff, ◌==◌,
}
use avito_mcp.JsMap.{JsMap, get}
use avito_mcp.JsMap.Laws.{get-remove, get-retain, get-remove_self}
use avito_mcp.OauthStore.{TokenRecord, Store}
use avito_mcp.OauthStore.Tokens.{
  revoke_token_family, revoke_found, drop_pair, not_paired, is_of, names,
}

drop_pair-other :
    (client_id : String) (o : Option String) (m : JsMap TokenRecord) (k : String) (r : TokenRecord)
    → get m k ≡ some r
    → (r.client_id == client_id) ≡ false
    → get (drop_pair client_id o m) k ≡ some r
drop_pair-other client_id none m k r e n = e
drop_pair-other client_id (some access) m k r e n =
    ground (arith, get-remove m access k, eq_iff access k)

revoke_found-other :
    (client_id token : String) (o : Option TokenRecord) (s : Store) (k : String) (r : TokenRecord)
    → get s.refresh_tokens token ≡ o
    → (r.client_id == client_id) ≡ false
    → (get s.access_tokens k ≡ some r
        → get (revoke_found client_id token o s).0.access_tokens k ≡ some r)
      × (get s.refresh_tokens k ≡ some r
          → get (revoke_found client_id token o s).0.refresh_tokens k ≡ some r)
revoke_found-other client_id token none s k r e n = (
  λ h. ground (arith, get-remove s.access_tokens token k, eq_iff token k),
  λ h. ground (arith, get-retain (not_paired client_id token) s.refresh_tokens k),
)
revoke_found-other client_id token (some q) s k r e n = (
  λ h. ground (arith, drop_pair-other client_id q.access_token s.access_tokens k r h n),
  λ h. ground (arith, get-remove s.refresh_tokens token k, eq_iff token k),
)

-- Revocation never touches a token of another client, whoever names it: what is stored under any key for
-- another client stays stored.
pub revoke-other :
    (client_id token : String) (s t : Store) (done : Bool) (k : String) (r : TokenRecord)
    → revoke_token_family client_id token s ≡ some (t, done)
    → (r.client_id == client_id) ≡ false
    → (get s.access_tokens k ≡ some r → get t.access_tokens k ≡ some r)
      × (get s.refresh_tokens k ≡ some r → get t.refresh_tokens k ≡ some r)
unfolding revoke_token_family
revoke-other client_id token s t done k r e n =
    ground (arith, revoke_found-other client_id token (get s.refresh_tokens token) s k r refl n)

-- A refresh token that its own client revokes is gone, and the access token of the same grant is gone
-- with it if that is the client's.
pub revoke-refresh :
    (client_id token access : String) (s t : Store) (done : Bool) (r : TokenRecord)
    → revoke_token_family client_id token s ≡ some (t, done)
    → get s.refresh_tokens token ≡ some r
    → (r.client_id == client_id) ≡ true
    → r.access_token ≡ some access
    → (access == "") ≡ false
    → (done ≡ true)
      × (get t.refresh_tokens token ≡ none)
      × (is_of client_id (get t.access_tokens access) ≡ false)
unfolding revoke_token_family
revoke-refresh client_id token access s t done r e h own pair named =
    ground (arith, get-remove_self s.refresh_tokens token, get-remove_self s.access_tokens access)

-- An access token that its own client revokes is gone, and no refresh token of the client that was issued
-- with it is left.
pub revoke-access :
    (client_id token : String) (s t : Store) (done : Bool) (r : TokenRecord)
    → revoke_token_family client_id token s ≡ some (t, done)
    → get s.refresh_tokens token ≡ none
    → get s.access_tokens token ≡ some r
    → (r.client_id == client_id) ≡ true
    → (done ≡ true)
      × (get t.access_tokens token ≡ none)
      × ((k : String) (q : TokenRecord)
          → get t.refresh_tokens k ≡ some q
          → (q.client_id == client_id) ≡ true
          → names token q.access_token ≡ false)
unfolding revoke_token_family
revoke-access client_id token s t done r e no_refresh h own = (
  ground arith,
  ground (arith, get-remove_self s.access_tokens token),
  λ k q f mine. ground (arith, get-retain (not_paired client_id token) s.refresh_tokens k),
)
