-- ===== src/RateLimiter/Tests.antt =====
-- A counter of core/rate-limiter.ts that is nearly spent.
use avito_mcp.Prelude.{◌+◌, ◌≤◌, ◌≡◌, refl, true, some, List, [], ◌∷◌, min, arith}
use avito_mcp.RateLimiter.{RateSnapshot, reserve, release, observe, wait_if_needed}
use avito_mcp.RateLimiter.Budget.{
  Op, reserves, releases, granted, released, IsWithin, in_time, reserve-release-IsWithin,
  granted-released, wait_if_needed-in_time,
}

abbrev two_left : RateSnapshot
two_left = observe 100 (some 60) (some 2) (some 170)

abbrev ops : List Op
ops = reserves 101 ∷ reserves 102 ∷ releases ∷ reserves 103 ∷ []

two_granted : granted ops two_left ≡ 2
unfolding granted reserve release observe
two_granted = refl

reserve-release-IsWithin_sample :
    IsWithin (reserve 101 two_left).0.limit (reserve 101 two_left).0.remaining
    × IsWithin (release two_left).limit (release two_left).remaining
unfolding observe
reserve-release-IsWithin_sample = reserve-release-IsWithin 101 two_left (omega arith)

granted-released_example : granted ops two_left + min 1 2 ≤ 2 + released ops
unfolding observe
granted-released_example =
    granted-released 170 2 ops two_left refl refl (omega arith, (omega arith, (omega arith, tt)))

abbrev one_left : RateSnapshot
one_left = observe 100 (some 60) (some 1) (some 170)

wait_if_needed-in_time_sample : in_time 170 (wait_if_needed 80 101 one_left) ≡ true
unfolding observe
wait_if_needed-in_time_sample =
    wait_if_needed-in_time 80 101 170 170 1 one_left refl refl (omega arith) (omega arith)
      (omega arith) (omega arith)
