-- ===== src/Client/Tests.antt =====
-- Requests on concrete networks.
use avito_mcp.Prelude.{ℕ, zero, suc, ◌≤◌, ◌≡◌, refl, true, false, none, some}
use avito_mcp.Client.{
  Options, Round, State, Outcome, thrown, api_error, transport, missing_credentials, network,
  parsed, response, unreachable, default_retry, init, turn, do_request, jitter, releases_slot,
}
use avito_mcp.Client.Turns.{do_request_ends}
use avito_mcp.Client.Dispatch.{do_request-Settled, Settled}

abbrev post : Options
post = record { is_get = false; retry = none; auth = true }

abbrev answered : ℕ → Round
answered status = record {
  prepared = none;
  send_at = 0;
  fetched = response status none parsed;
  aborted = false;
  deadline_fired = false;
  refreshed = none;
  pause_at = 0;
  random = 500;
}

abbrev lost : Round
lost = record (answered 0) { fetched = unreachable }

-- a token that has run out, and then a connection that breaks
abbrev expired_then_lost : ℕ → Round
expired_then_lost zero = answered 401
expired_then_lost (suc n) = lost

abbrev sent_twice : State
sent_twice = record {
  allow_refresh = false;
  retries_429 = 0;
  retries_5xx = 0;
  dispatches = 2;
  rejections = 1;
  dispatched = true;
}

broken_post :
    do_request default_retry post 30000 expired_then_lost 6 0 init
    ≡ some (sent_twice, thrown (transport network))
unfolding do_request turn init
broken_post = refl

-- a read that meets 429 until the retries are used up
busy_get :
    do_request default_retry (record post { is_get = true }) 60000 (λ n. answered 429) 6 0 init
    ≡ some (
      record {
        allow_refresh = true;
        retries_429 = 3;
        retries_5xx = 0;
        dispatches = 4;
        rejections = 0;
        dispatched = true;
      },
      thrown (api_error 429 none),
    )
unfolding do_request turn init jitter
busy_get = refl

half_way_jitter : jitter 1000 200 500 ≡ 1000
unfolding jitter
half_way_jitter = refl

kept_slot : releases_slot false (thrown missing_credentials) ≡ false
unfolding releases_slot
kept_slot = refl

do_request_ends_example :
    (t : State) × (out : Outcome) × (do_request default_retry post 30000 expired_then_lost 6 0 init
      ≡ some (t, out))
    × (t.dispatches ≤ 6)
do_request_ends_example = do_request_ends default_retry post 30000 expired_then_lost

do_request-Settled_sample : Settled sent_twice (thrown (transport network))
do_request-Settled_sample =
    do_request-Settled default_retry post 30000 expired_then_lost 6 sent_twice
      (thrown (transport network)) refl broken_post
