-- ===== src/OauthStore/Tests.antt =====
-- The store of http/oauth/store.ts at concrete requests.
use avito_mcp.Prelude.{
  ℕ, String, ◌≤◌, ◌<◌, ◌≡◌, refl, true, false, Option, none, some, List, [], ◌∷◌, arith, is_some,
  ◌==◌,
}
use avito_mcp.JsMap.{JsMap, get, put, remove, retain, size, values}
use avito_mcp.OauthStore.{
  AuthCodeRecord, ConsentRecord, TokenRecord, Client, Store, init, evict_oldest, evict,
}
use avito_mcp.OauthStore.Registry.{
  get_client, has_client_capacity, sweep_expired, sweep_clients, put_client, client_expired,
  has_active_artifacts,
}
use avito_mcp.OauthStore.Transactions.{create_auth_code, take_auth_code}
use avito_mcp.OauthStore.Tokens.{revoke_token_family, is_of, names}
use avito_mcp.OauthStore.Eviction.{size-evict_oldest}
use avito_mcp.OauthStore.Steps.{Call, creates_code, takes_code, step, run}
use avito_mcp.OauthStore.Bounds.{Bounded, run-init-Bounded}
use avito_mcp.OauthStore.Codes.{exchanges, issues, exchanges-le-issues}
use avito_mcp.OauthStore.Revocation.{revoke-other, revoke-refresh, revoke-access}
use avito_mcp.OauthStore.Clients.{
  put_client-has_client_capacity, get_client-refused, sweep_expired-live,
}

abbrev code_record : AuthCodeRecord
code_record = record {
  client_id = "c1";
  code_challenge = "x";
  redirect_uri = "https://a/cb";
  scopes = "avito:mcp" ∷ [];
  resource = none;
  expires_at = 0;
}

abbrev token_of : String → Option String → TokenRecord
token_of client_id access = record {
  client_id = client_id;
  scopes = "avito:mcp" ∷ [];
  resource = none;
  expires_at = 5000;
  issued_at = some 10;
  access_token = access;
}

abbrev exchanged_twice : List (ℕ × Call)
exchanged_twice =
    (10, creates_code "k" code_record) ∷ (20, takes_code "k") ∷ (21, takes_code "k") ∷ []

exchanged_once : exchanges "k" exchanged_twice init ≡ 1
unfolding exchanges step create_auth_code take_auth_code evict_oldest evict init get put remove size
exchanged_once = refl

exchanges-le-issues_example : exchanges "k" exchanged_twice init ≤ issues "k" exchanged_twice
exchanges-le-issues_example = exchanges-le-issues "k" exchanged_twice

run-init-Bounded_example : Bounded (run exchanged_twice init)
run-init-Bounded_example = run-init-Bounded exchanged_twice

abbrev three : JsMap ℕ
three = ("a", 7) ∷ ("b", 5) ∷ ("c", 9) ∷ []

oldest_goes : evict_oldest (λ n. n) 3 three ≡ ("a", 7) ∷ ("c", 9) ∷ []
unfolding evict_oldest evict remove size
oldest_goes = refl

room_after_eviction : size (evict_oldest (λ n. n) 2 three) < 2
room_after_eviction = size-evict_oldest (λ n. n) 2 three (omega arith)

abbrev with_tokens : Store
with_tokens = record init {
  access_tokens = ("a1", token_of "c1" none) ∷ ("a2", token_of "c2" none) ∷ [];
  refresh_tokens = ("r1", token_of "c1" (some "a1")) ∷ ("r2", token_of "c2" (some "a2")) ∷ [];
}

abbrev after_refresh : Store
after_refresh = record init {
  access_tokens = ("a2", token_of "c2" none) ∷ [];
  refresh_tokens = ("r2", token_of "c2" (some "a2")) ∷ [];
  dirty_version = 1;
}

by_refresh : revoke_token_family "c1" "r1" with_tokens ≡ some (after_refresh, true)
unfolding revoke_token_family init get remove
by_refresh = refl

by_access : revoke_token_family "c1" "a1" with_tokens ≡ some (after_refresh, true)
unfolding revoke_token_family init get remove retain
by_access = refl

revoke-other_sample :
    (get with_tokens.access_tokens "a2" ≡ some (token_of "c2" none)
      → get after_refresh.access_tokens "a2" ≡ some (token_of "c2" none))
    × (get with_tokens.refresh_tokens "a2" ≡ some (token_of "c2" none)
        → get after_refresh.refresh_tokens "a2" ≡ some (token_of "c2" none))
revoke-other_sample =
    revoke-other "c1" "r1" with_tokens after_refresh true "a2" (token_of "c2" none) by_refresh refl

revoke-refresh_sample :
    (true ≡ true)
    × (get after_refresh.refresh_tokens "r1" ≡ none)
    × (is_of "c1" (get after_refresh.access_tokens "a1") ≡ false)
unfolding get
revoke-refresh_sample =
    revoke-refresh "c1" "r1" "a1" with_tokens after_refresh true (token_of "c1" (some "a1"))
      by_refresh refl refl refl refl

revoke-access_sample :
    (true ≡ true)
    × (get after_refresh.access_tokens "a1" ≡ none)
    × ((k : String) (q : TokenRecord)
        → get after_refresh.refresh_tokens k ≡ some q
        → (q.client_id == "c1") ≡ true
        → names "a1" q.access_token ≡ false)
unfolding get
revoke-access_sample =
    revoke-access "c1" "a1" with_tokens after_refresh true (token_of "c1" none) by_access refl refl
      refl

abbrev newcomer : Client
newcomer = record { client_id = "c9"; client_id_issued_at = some 1; metadata = "" }

put_client-has_client_capacity_sample :
    is_some (put_client 5000 newcomer (has_client_capacity 5000 with_tokens).0)
    ≡ (has_client_capacity 5000 with_tokens).1
unfolding has_client_capacity sweep_expired sweep_clients init get retain remove size
put_client-has_client_capacity_sample =
    put_client-has_client_capacity 5000 newcomer with_tokens refl refl

abbrev unused_client : Client
unused_client = record { client_id = "c3"; client_id_issued_at = some 1; metadata = "" }

abbrev with_unused : Store
with_unused = record with_tokens { clients = ("c3", unused_client) ∷ [] }

get_client-refused_sample :
    (client_expired 86401000 "c3" unused_client with_unused ≡ true)
    × (get (get_client 86401000 "c3" with_unused).0.clients "c3" ≡ none)
    × (get (get_client 86401000 "c3" with_unused).0.access_tokens "a1" ≡ some (token_of "c1" none)
        → ("c1" == "c3") ≡ false)
    × (get (get_client 86401000 "c3" with_unused).0.refresh_tokens "a1" ≡ some (token_of "c1" none)
        → ("c1" == "c3") ≡ false)
unfolding get_client client_expired has_active_artifacts init get values
get_client-refused_sample =
    get_client-refused 86401000 "c3" unused_client with_unused "a1" (token_of "c1" none) refl refl

sweep_expired-live_sample :
    ((r : AuthCodeRecord)
      → get (sweep_expired 20 with_tokens).auth_codes "a1" ≡ some r
      → 20 < r.expires_at)
    × ((r : ConsentRecord)
        → get (sweep_expired 20 with_tokens).consents "a1" ≡ some r
        → 20 < r.expires_at)
    × ((r : TokenRecord)
        → get (sweep_expired 20 with_tokens).access_tokens "a1" ≡ some r
        → 20 < r.expires_at)
    × ((r : TokenRecord)
        → get (sweep_expired 20 with_tokens).refresh_tokens "a1" ≡ some r
        → 20 < r.expires_at)
sweep_expired-live_sample = sweep_expired-live 20 with_tokens "a1"
