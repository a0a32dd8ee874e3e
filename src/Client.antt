-- ===== src/Client.antt =====
-- The request loop of core/client.ts: retries, the refresh after a 401, deadlines and the latch that tells
-- whether a request was handed to the network. What a turn of the loop meets outside is a `Round`.
pub mod Turns
pub mod Dispatch
mod Tests
use avito_mcp.Prelude.{
  ℕ, zero, suc, ◌+◌, ◌-◌, ◌*◌, ◌^◌, ◌/◌, Bool, true, false, ◌&&◌, ◌||◌, Option, none, some, min,
  get_or, ltb, leb, eqb, if◌then◌else◌,
}

-- `RetryConfig`; the ratio of the jitter is in thousandths
pub record RetryConfig : Type 0 where
  pub retry_429_base_ms : ℕ
  pub max_429_retries : ℕ
  pub retry_5xx_backoff_ms : ℕ
  pub max_5xx_retries : ℕ
  pub max_retry_after_ms : ℕ
  pub retry_jitter_ratio : ℕ

abbrev pub default_retry : RetryConfig
default_retry = record {
  retry_429_base_ms = 1000;
  max_429_retries = 3;
  retry_5xx_backoff_ms = 500;
  max_5xx_retries = 1;
  max_retry_after_ms = 30000;
  retry_jitter_ratio = 200;
}

-- what `RequestOptions` says of retries and of the Authorization header
pub record Options : Type 0 where
  pub is_get : Bool
  pub retry : Option Bool
  pub auth : Bool

pub data Cause : Type 0 where
  cancelled timed_out network : Cause

-- The errors of a request. `unexpected` stands for every other one, such as a header or a body that is not
-- supported.
pub data Failure : Type 0 where
  api_error : (status : ℕ) → (retry_after : Option ℕ) → Failure
  transport : Cause → Failure
  response_limit : Failure
  missing_credentials : Failure
  unexpected : Failure

pub data Body : Type 0 where
  parsed too_large broken : Body

pub data Fetched : Type 0 where
  unreachable : Fetched
  response : (status : ℕ) → (retry_after : Option ℕ) → Body → Fetched

-- What one turn meets: how the headers and the body come out, the clock before the request and before a
-- pause, what the network says, whether the caller's signal or the deadline has fired when an error is
-- caught, how a refresh of the token ends, and a random number in thousandths.
pub record Round : Type 0 where
  pub prepared : Option Failure
  pub send_at : ℕ
  pub fetched : Fetched
  pub aborted : Bool
  pub deadline_fired : Bool
  pub refreshed : Option Failure
  pub pause_at : ℕ
  pub random : ℕ

-- The variables of the loop, how often `onDispatch` and `onRejected` were called, and the latch that the
-- caller keeps by them.
pub record State : Type 0 where
  pub allow_refresh : Bool
  pub retries_429 : ℕ
  pub retries_5xx : ℕ
  pub dispatches : ℕ
  pub rejections : ℕ
  pub dispatched : Bool

pub data Outcome : Type 0 where
  returned : (status : ℕ) → Outcome
  thrown : Failure → Outcome

pub data Turn : Type 0 where
  again : State → Turn
  done : State → Outcome → Turn

unfoldable pub init : State
init = record {
  allow_refresh = true;
  retries_429 = 0;
  retries_5xx = 0;
  dispatches = 0;
  rejections = 0;
  dispatched = false;
}

-- `jitter`, in exact arithmetic and rounded
unfoldable pub jitter : (delay_ms ratio random : ℕ) → ℕ
jitter delay_ms ratio random =
    let spread = min ratio 1000 in
    (delay_ms * 1000 * (1000 - spread) + delay_ms * random * spread * 2 + 500000) / 1000000

abbrev cause_of : Round → Cause → Cause
cause_of r cause = if r.aborted then cancelled else if r.deadline_fired then timed_out else cause

-- the `catch` of the loop
abbrev pub caught : Round → Failure → Failure
caught r (api_error status retry_after) = api_error status retry_after
caught r response_limit = response_limit
caught r (transport cause) = transport (cause_of r cause)
caught r missing_credentials = transport (cause_of r network)
caught r unexpected = transport (cause_of r network)

-- `sleepBeforeDeadline`, and the next turn
abbrev pause : (deadline delay_ms : ℕ) → Round → State → Turn
pause deadline delay_ms r s =
    if leb deadline r.pause_at || leb (deadline - r.pause_at) delay_ms
    then done s (thrown (caught r (transport timed_out)))
    else again s

abbrev is_ok : ℕ → Bool
is_ok status = leb 200 status && ltb status 300

abbrev pub is_5xx : ℕ → Bool
is_5xx status = leb 500 status && ltb status 600

abbrev finish : ℕ → Option ℕ → Body → Round → State → Turn
finish status retry_after parsed r s =
    done s (if is_ok status then returned status else thrown (api_error status retry_after))
finish status retry_after too_large r s = done s (thrown response_limit)
finish status retry_after broken r s = done s (thrown (caught r (transport network)))

abbrev reject : State → State
reject s = record s { rejections = suc s.rejections; dispatched = false; allow_refresh = false }

abbrev refresh : Round → Option Failure → State → Turn
refresh r none s = again s
refresh r (some f) s = done s (thrown (caught r f))

abbrev backoff_429 : RetryConfig → Option ℕ → State → ℕ
backoff_429 c (some seconds) s = min (seconds * 1000) c.max_retry_after_ms
backoff_429 c none s = c.retry_429_base_ms * 2 ^ s.retries_429

abbrev pub retryable : Options → Bool
retryable o = get_or o.retry o.is_get

abbrev receive : RetryConfig → Options → (deadline : ℕ) → Round → Fetched → State → Turn
receive c o deadline r unreachable s = done s (thrown (caught r (transport network)))
receive c o deadline r (response status retry_after body) s =
    if eqb status 401 && s.allow_refresh && o.auth
    then refresh r r.refreshed (reject s)
    else if retryable o && eqb status 429 && ltb s.retries_429 c.max_429_retries
    then pause deadline (jitter (backoff_429 c retry_after s) c.retry_jitter_ratio r.random) r
        (record s { retries_429 = suc s.retries_429 })
    else if retryable o && is_5xx status && ltb s.retries_5xx c.max_5xx_retries
    then pause deadline (jitter c.retry_5xx_backoff_ms c.retry_jitter_ratio r.random) r
        (record s { retries_5xx = suc s.retries_5xx })
    else finish status retry_after body r s

abbrev dispatch : State → State
dispatch s = record s { dispatches = suc s.dispatches; dispatched = true }

abbrev send : RetryConfig → Options → (deadline : ℕ) → Round → Option Failure → State → Turn
send c o deadline r (some f) s = done s (thrown f)
send c o deadline r none s =
    if leb deadline r.send_at
    then done s (thrown (transport timed_out))
    else receive c o deadline r r.fetched (dispatch s)

-- one turn of the loop in `doRequest`
unfoldable pub turn : RetryConfig → Options → (deadline : ℕ) → Round → State → Turn
turn c o deadline r s = send c o deadline r r.prepared s

abbrev pub go_on : Turn → (State → Option (State × Outcome)) → Option (State × Outcome)
go_on (again s) next = next s
go_on (done s out) next = some (s, out)

-- The loop, of which the nth turn meets `rounds n`; `none` means that the fuel ran out.
unfoldable pub do_request :
    RetryConfig
    → Options
    → (deadline : ℕ) → (rounds : ℕ → Round) → (fuel : ℕ) → (n : ℕ) → State
    → Option (State × Outcome)
do_request c o deadline rounds zero n s = none
do_request c o deadline rounds (suc fuel) n s =
    go_on (turn c o deadline (rounds n) s) (do_request c o deadline rounds fuel (suc n))

-- the `catch` of `request`: the slot is released only if the caller has cancelled
unfoldable pub releases_slot : (aborted : Bool) → Outcome → Bool
releases_slot aborted (returned status) = false
releases_slot aborted (thrown f) = aborted
