-- ===== src/RateLimiter.antt =====
-- core/rate-limiter.ts with a state directory: the shared counter of one domain. A lock body is one step;
-- the clock is in whole seconds, and a sleep lasts as long as it was asked to.
pub mod Budget
mod Tests
use avito_mcp.Prelude.{
  ℕ, ◌+◌, ◌-◌, Bool, true, false, not, ◌&&◌, Option, none, some, ltb, leb, eqb, get_or, is_some,
  min, zero, suc, if◌then◌else◌,
}

-- `RateSnapshot`, without the name of its domain
pub record RateSnapshot : Type 0 where
  pub limit : Option ℕ
  pub remaining : Option ℕ
  pub reset_at : Option ℕ
  pub observed_at : ℕ

-- what one turn in the lock comes to
pub data Outcome : Type 0 where
  delayed : (seconds : ℕ) → Outcome
  passed : (reserved : Bool) → Outcome

abbrev pub max_safe_integer : ℕ
max_safe_integer = 9007199254740991

-- a new snapshot of the response headers
unfoldable pub observe : ℕ → Option ℕ → Option ℕ → Option ℕ → RateSnapshot
observe now limit remaining reset_at = record {
  limit = limit;
  remaining = remaining;
  reset_at = reset_at;
  observed_at = now;
}

-- a reset time of 0 is no time to wait for
abbrev wait_for : ℕ → Option ℕ → ℕ
wait_for now none = 1
wait_for now (some r) = if not (eqb r 0) && ltb now r then r - now else 1

abbrev pub spend : ℕ → RateSnapshot → ℕ → RateSnapshot × Outcome
spend now s remaining =
    if ltb 1 remaining
    then (record s { remaining = some (remaining - 1) }, passed true)
    else (s, delayed (wait_for now s.reset_at))

abbrev pub turn : ℕ → RateSnapshot → Option ℕ → Option ℕ → RateSnapshot × Outcome
turn now s none reset_at = (s, passed false)
turn now s (some remaining) none =
    if ltb s.observed_at now
    then (record s { remaining = none; observed_at = now }, passed false)
    else spend now s remaining
turn now s (some remaining) (some r) =
    if leb r now
    then (record s { remaining = some (get_or s.limit 1 - 1); observed_at = now }, passed true)
    else spend now s remaining

-- the body of the lock in `waitIfNeeded`, on a file that is there
unfoldable pub reserve : ℕ → RateSnapshot → RateSnapshot × Outcome
reserve now s = turn now s s.remaining s.reset_at

abbrev given_back : RateSnapshot → Option ℕ → RateSnapshot
given_back s none = s
given_back s (some remaining) = record s {
  remaining = some (min (get_or s.limit max_safe_integer) (remaining + 1));
}

-- the body of the lock in `release`
unfoldable pub release : RateSnapshot → RateSnapshot
release s = given_back s s.remaining

abbrev pub go_on : ℕ → Outcome → ℕ
go_on now (delayed seconds) = now + min seconds 30
go_on now (passed reserved) = now

abbrev pub answer :
    RateSnapshot → ℕ → Outcome → Option (RateSnapshot × ℕ × Bool) → Option (RateSnapshot × ℕ × Bool)
answer s now (passed reserved) rest = some (s, now, reserved)
answer s now (delayed seconds) rest = rest

-- The loop of `waitIfNeeded` for a caller that is not cancelled, where no other process writes: the
-- snapshot and the time at its end, and whether a slot was reserved.
unfoldable pub wait_if_needed : (fuel : ℕ) → ℕ → RateSnapshot → Option (RateSnapshot × ℕ × Bool)
wait_if_needed zero now s = none
wait_if_needed (suc fuel) now s =
    answer (reserve now s).0 now (reserve now s).1
      (wait_if_needed fuel (go_on now (reserve now s).1) (reserve now s).0)
