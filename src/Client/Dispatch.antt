-- ===== src/Client/Dispatch.antt =====
-- What the latch of core/client.ts and core/tool-factory.ts says at the end of a request.
use avito_mcp.Prelude.{
  ℕ, zero, suc, ◌+◌, ◌≤◌, ◌≡◌, refl, true, false, ◌&&◌, Option, none, some, arith, bit, if_cases,
  eqb, ltb,
}
use mathlib.Core.Path.{subst}
use avito_mcp.Client.{
  RetryConfig, Options, Round, State, Outcome, returned, thrown, Turn, again, done, init, turn,
  do_request, go_on, Fetched, unreachable, response, refresh, finish, Body, parsed, too_large,
  broken, receive, send, reject, dispatch, Failure, retryable, is_5xx,
}

-- Between two turns: whatever was sent was answered with 401, which is allowed once, and the latch is open.
abbrev Balanced : State → Type 0
Balanced s =
    (s.dispatched ≡ false)
    × (s.dispatches ≡ s.rejections)
    × (s.rejections + bit s.allow_refresh ≤ 1)

-- At the end the latch says whether something was sent that no 401 has answered.
abbrev pub Settled : State → Outcome → Type 0
Settled s (returned status) =
    (s.dispatched ≡ true) × (s.dispatches ≡ suc s.rejections) × (s.rejections ≤ 1)
Settled s (thrown f) = (s.dispatches ≡ s.rejections + bit s.dispatched) × (s.rejections ≤ 1)

abbrev Settles : Option (State × Outcome) → Type 0
Settles none = zero ≡ zero
Settles (some (s, out)) = Settled s out

abbrev Keeps : Turn → Type 0
Keeps (again s) = Balanced s
Keeps (done s out) = Settled s out

module _ (c : RetryConfig) (o : Options) (deadline : ℕ) where
  finish-Keeps :
      (status : ℕ) (retry_after : Option ℕ) (body : Body) (r : Round) (s : State)
      → Balanced s
      → Keeps (finish status retry_after body r (dispatch s))
  finish-Keeps status retry_after parsed r s (unsent, all, once) = ground (arith, unsent, all, once)
  finish-Keeps status retry_after too_large r s (unsent, all, once) =
      ground (arith, unsent, all, once)
  finish-Keeps status retry_after broken r s (unsent, all, once) = ground (arith, unsent, all, once)

  refresh-Keeps : (r : Round) (e : Option Failure) (s : State) → Balanced s → Keeps (refresh r e s)
  refresh-Keeps r none s b = b
  refresh-Keeps r (some f) s (unsent, all, once) = ground (arith, unsent, all, once)

  receive-Keeps :
      (r : Round) (answer : Fetched) (s : State)
      → retryable o ≡ false
      → Balanced s
      → Keeps (receive c o deadline r answer (dispatch s))
  receive-Keeps r unreachable s once (unsent, all, first) = ground (arith, unsent, all, first)
  receive-Keeps r (response status retry_after body) s once (unsent, all, first) =
      if_cases Keeps (eqb status 401 && s.allow_refresh && o.auth) _ _
        (λ h.
          refresh-Keeps r r.refreshed (reject (dispatch s)) (ground (arith, h, unsent, all, first)))
        (λ _.
          if_cases Keeps (retryable o && eqb status 429 && ltb s.retries_429 c.max_429_retries) _ _
            (λ h. ground (arith, h, once))
            (λ _.
              if_cases Keeps (retryable o && is_5xx status && ltb s.retries_5xx c.max_5xx_retries) _
                _ (λ h. ground (arith, h, once))
                (λ _. finish-Keeps status retry_after body r s (unsent, all, first))))

  send-Keeps :
      (r : Round) (e : Option Failure) (s : State)
      → retryable o ≡ false
      → Balanced s
      → Keeps (send c o deadline r e s)
  send-Keeps r (some f) s once (unsent, all, first) = ground (arith, unsent, all, first)
  send-Keeps r none s once (unsent, all, first) =
      ground (arith, receive-Keeps r r.fetched s once (unsent, all, first), unsent, all, first)

  turn-Keeps :
      (r : Round) (s : State) → retryable o ≡ false → Balanced s → Keeps (turn c o deadline r s)
  unfolding turn
  turn-Keeps r s once b = send-Keeps r r.prepared s once b

  go_on-Settled :
      (rounds : ℕ → Round) (fuel n : ℕ) (u : Turn) (t : State) (out : Outcome)
      → Keeps u
      → ((s : State)
          → Balanced s
          → do_request c o deadline rounds fuel n s ≡ some (t, out)
          → Settled t out)
      → go_on u (do_request c o deadline rounds fuel n) ≡ some (t, out)
      → Settled t out
  go_on-Settled rounds fuel n (again s) t out k rest e = rest s k e
  go_on-Settled rounds fuel n (done s end) t out k rest e = subst Settles e k

  loop-Settled :
      (rounds : ℕ → Round) (fuel n : ℕ) (s t : State) (out : Outcome)
      → retryable o ≡ false
      → Balanced s
      → do_request c o deadline rounds fuel n s ≡ some (t, out)
      → Settled t out
  unfolding do_request
  loop-Settled rounds zero n s t out once b e = ground (arith, e)
  loop-Settled rounds (suc fuel) n s t out once b e =
      go_on-Settled rounds fuel (suc n) (turn c o deadline (rounds n) s) t out
        (turn-Keeps (rounds n) s once b) (λ s k. loop-Settled rounds fuel (suc n) s t out once k) e

  -- A request that is not retryable was sent once more than it was answered with 401 if the latch is set
  -- when it ends, and exactly as often if it is not, so a request that fails with an open latch has had
  -- 401 for everything that was sent; there is at most one 401, and a request that returns has the latch
  -- set.
  pub do_request-Settled :
      (rounds : ℕ → Round) (fuel : ℕ) (t : State) (out : Outcome)
      → retryable o ≡ false
      → do_request c o deadline rounds fuel 0 init ≡ some (t, out)
      → Settled t out
  unfolding init
  do_request-Settled rounds fuel t out once e =
      loop-Settled rounds fuel 0 init t out once (refl, refl, omega arith) e
