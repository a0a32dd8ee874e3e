-- ===== src/OauthStore.antt =====
-- The state of the authorization server: http/oauth/store.ts, without its file and its lease. The clock
-- and the random secrets are arguments; an operation reads the clock once.
pub mod Registry
pub mod Transactions
pub mod Tokens
pub mod Eviction
pub mod Steps
pub mod Bounds
pub mod Codes
pub mod Revocation
pub mod Clients
mod Tests
use avito_mcp.Prelude.{
  ℕ, String, ◌+◌, ◌-◌, ◌*◌, ◌==◌, Bool, true, false, not, ◌&&◌, ◌||◌, Option, none, some, List, [],
  ◌∷◌, ltb, leb, any, zero, suc, is_some, get_or, if◌then◌else◌,
}
use avito_mcp.JsMap.{JsMap, get, has, put, remove, size, values, retain}

pub record AuthCodeRecord : Type 0 where
  pub client_id : String
  pub code_challenge : String
  pub redirect_uri : String
  pub scopes : List String
  pub resource : Option String
  pub expires_at : ℕ

pub record ConsentRecord : Type 0 where
  pub client_id : String
  pub redirect_uri : String
  pub code_challenge : String
  pub state : Option String
  pub scopes : List String
  pub resource : String
  pub expires_at : ℕ

pub record TokenRecord : Type 0 where
  pub client_id : String
  pub scopes : List String
  pub resource : Option String
  pub expires_at : ℕ
  pub issued_at : Option ℕ
  pub access_token : Option String

-- the fields that the store reads of a registered client; the rest is `metadata`
pub record Client : Type 0 where
  pub client_id : String
  pub client_id_issued_at : Option ℕ
  pub metadata : String

pub record Store : Type 0 where
  pub clients : JsMap Client
  pub auth_codes : JsMap AuthCodeRecord
  pub consents : JsMap ConsentRecord
  pub access_tokens : JsMap TokenRecord
  pub refresh_tokens : JsMap TokenRecord
  pub dirty_version : ℕ
  pub closing : Bool

abbrev pub auth_code_ttl_ms : ℕ
auth_code_ttl_ms = 5 * 60 * 1000

abbrev pub consent_ttl_ms : ℕ
consent_ttl_ms = 10 * 60 * 1000

abbrev pub client_ttl_ms : ℕ
client_ttl_ms = 90 * 24 * 60 * 60 * 1000

abbrev pub inactive_client_ttl_ms : ℕ
inactive_client_ttl_ms = 24 * 60 * 60 * 1000

abbrev pub max_clients : ℕ
max_clients = 256

abbrev pub max_auth_codes : ℕ
max_auth_codes = 512

abbrev pub max_consents : ℕ
max_consents = 256

abbrev pub max_access_tokens : ℕ
max_access_tokens = 1024

abbrev pub max_refresh_tokens : ℕ
max_refresh_tokens = 1024

unfoldable pub init : Store
init = record {
  clients = [];
  auth_codes = [];
  consents = [];
  access_tokens = [];
  refresh_tokens = [];
  dirty_version = 0;
  closing = false;
}

abbrev pub schedule_flush : Store → Store
schedule_flush s = record s { dirty_version = suc s.dirty_version }

-- a missing time of issue counts as 0
abbrev pub client_issued_at_ms : Client → ℕ
client_issued_at_ms c = get_or c.client_id_issued_at 0 * 1000

module _ {ℓ} {V : Type ℓ} (expires_at : V → ℕ) where
  -- the scan for the least expiry, of equal ones the first
  abbrev earlier : Option (String × ℕ) → String → V → Option (String × ℕ)
  earlier none k v = some (k, expires_at v)
  earlier (some (j, least)) k v =
      if ltb (expires_at v) least then some (k, expires_at v) else some (j, least)

  abbrev pub scan : Option (String × ℕ) → JsMap V → Option (String × ℕ)
  scan best [] = best
  scan best ((k, v) ∷ m) = scan (earlier best k v) m

  abbrev pub without : JsMap V → Option (String × ℕ) → JsMap V
  without m none = m
  without m (some (k, least)) = remove m k

  unfoldable pub evict : (fuel : ℕ) → (limit : ℕ) → JsMap V → JsMap V
  evict zero limit m = m
  evict (suc fuel) limit m =
      let smaller = evict fuel limit (without m (scan none m)) in
      if leb limit (size m) then smaller else m

  -- `evictOldest`: each round drops an entry, so as many rounds as there are entries are enough
  unfoldable pub evict_oldest : (limit : ℕ) → JsMap V → JsMap V
  evict_oldest limit m = evict (size m) limit m

abbrev pub code_expiry : AuthCodeRecord → ℕ
code_expiry r = r.expires_at

abbrev pub consent_expiry : ConsentRecord → ℕ
consent_expiry r = r.expires_at

abbrev pub token_expiry : TokenRecord → ℕ
token_expiry r = r.expires_at

-- `removeTokensForClient`
abbrev pub of_other_client : String → String → TokenRecord → Bool
of_other_client client_id token r = not (r.client_id == client_id)

unfoldable pub remove_tokens_for_client : String → Store → Store
remove_tokens_for_client client_id s = record s {
  access_tokens = retain (of_other_client client_id) s.access_tokens;
  refresh_tokens = retain (of_other_client client_id) s.refresh_tokens;
}
