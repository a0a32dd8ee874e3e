-- ===== src/Pending/RateLimit/Retry.antt =====
-- When `checkConfirmationRateLimit` of core/pending-actions.ts allows a refused principal again.
use mathlib.Core.List.{append-nil}
use avito_mcp.Prelude.{
  ℕ, String, ◌+◌, ◌-◌, ◌≤◌, ◌<◌, ◌≡◌, true, false, List, [], ◌∷◌, arith, length, length-filter-le,
  filter, max,
}
use avito_mcp.Pending.{Store, ConfirmationRateLimitResult}
use avito_mcp.Pending.RateLimit.{
  in_window, first, attempts_of, check_confirmation_rate_limit, attempts-prune, attempts-check,
}

module _ {ℓ} {E : Type ℓ} (p : String) (now max_attempts window_ms : ℕ) (s : Store E) where
  abbrev answer : Store E × ConfirmationRateLimitResult
  answer = check_confirmation_rate_limit p now max_attempts window_ms s

  check-allowed :
      length (filter (in_window now window_ms) (attempts_of s p)) < max 1 max_attempts
      → answer.1.allowed ≡ true
  unfolding check_confirmation_rate_limit
  check-allowed h = ground (arith, attempts-prune now window_ms s.confirmation_attempts p)

  check-refused :
      answer.1.allowed ≡ false
      → (max 1 max_attempts ≤ length (filter (in_window now window_ms) (attempts_of s p)))
        × (answer.1.retry_after_ms
            ≡ max 1 (first (filter (in_window now window_ms) (attempts_of s p)) + window_ms - now))
  unfolding check_confirmation_rate_limit
  check-refused h = ground (arith, attempts-prune now window_ms s.confirmation_attempts p)

-- the oldest attempt has left the window
oldest_leaves :
    (later window_ms limit : ℕ) (ts : List ℕ)
    → length ts ≤ limit
    → 1 ≤ limit
    → first ts + window_ms ≤ later
    → length (filter (in_window later window_ms) ts) < limit
oldest_leaves later window_ms limit [] h k e = omega arith
oldest_leaves later window_ms limit (t ∷ ts) h k e =
    ground (arith, length-filter-le (in_window later window_ms) ts)

-- A refused principal that waits for the `retryAfterMs` it was told, with no call in between, is
-- allowed, if it never had more attempts remembered than the limit.
pub retry_after-allowed {ℓ} :
    {E : Type ℓ} (p : String) (now max_attempts window_ms : ℕ) (s : Store E)
    → length (attempts_of s p) ≤ max 1 max_attempts
    → (check_confirmation_rate_limit p now max_attempts window_ms s).1.allowed ≡ false
    → (check_confirmation_rate_limit p
        (now + (check_confirmation_rate_limit p now max_attempts window_ms s).1.retry_after_ms)
        max_attempts
        window_ms
        (check_confirmation_rate_limit p now max_attempts window_ms s).0).1.allowed
      ≡ true
retry_after-allowed p now max_attempts window_ms s h refused =
    let r = answer p now max_attempts window_ms s in
    let live = filter (in_window now window_ms) (attempts_of s p) in
    let told = (check-refused p now max_attempts window_ms s refused).1 in
    check-allowed p (now + r.1.retry_after_ms) max_attempts window_ms r.0 (
      rw (attempts-check max_attempts window_ms p now s p, refused, append-nil live)
        (oldest_leaves (now + r.1.retry_after_ms) window_ms (max 1 max_attempts) live
          (omega (arith, length-filter-le (in_window now window_ms) (attempts_of s p)))
          (omega arith) (omega (arith, told))))
