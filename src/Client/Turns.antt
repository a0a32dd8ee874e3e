-- ===== src/Client/Turns.antt =====
-- How long the loop of core/client.ts goes on.
use avito_mcp.Prelude.{
  ℕ, zero, suc, ◌+◌, ◌-◌, ◌≤◌, ◌<◌, ◌≡◌, refl, ap, Option, none, some, arith, bit, if_cases, eqb,
  ltb, ◌&&◌,
}
use avito_mcp.Client.{
  thrown, RetryConfig, Options, Round, State, Outcome, Turn, again, done, init, turn, do_request,
  go_on, Fetched, unreachable, response, pause, refresh, finish, Body, parsed, too_large, broken,
  receive, send, reject, dispatch, Failure, retryable, is_5xx, jitter, backoff_429,
}

-- how many turns may come after this one
abbrev pub left : RetryConfig → State → ℕ
left c s =
    bit s.allow_refresh + (c.max_429_retries - s.retries_429) + (c.max_5xx_retries - s.retries_5xx)

-- A turn uses up one of those that are left, or it is the last one; either way it sends once at most.
abbrev Shrinks : RetryConfig → State → Turn → Type 0
Shrinks c s (again t) = (left c t < left c s) × (t.dispatches ≤ suc s.dispatches)
Shrinks c s (done t out) = t.dispatches ≤ suc s.dispatches

module _ (c : RetryConfig) (o : Options) (deadline : ℕ) where
  pause-Shrinks :
      (delay_ms : ℕ) (r : Round) (s t : State)
      → left c t < left c s
      → t.dispatches ≤ suc s.dispatches
      → Shrinks c s (pause deadline delay_ms r t)
  pause-Shrinks delay_ms r s t fewer once = ground (arith, fewer, once)

  finish-Shrinks :
      (status : ℕ) (retry_after : Option ℕ) (body : Body) (r : Round) (s t : State)
      → t.dispatches ≤ suc s.dispatches
      → Shrinks c s (finish status retry_after body r t)
  finish-Shrinks status retry_after parsed r s t once = once
  finish-Shrinks status retry_after too_large r s t once = once
  finish-Shrinks status retry_after broken r s t once = once

  refresh-Shrinks :
      (r : Round) (e : Option Failure) (s t : State)
      → left c t < left c s
      → t.dispatches ≤ suc s.dispatches
      → Shrinks c s (refresh r e t)
  refresh-Shrinks r none s t fewer once = (fewer, once)
  refresh-Shrinks r (some f) s t fewer once = once

  receive-Shrinks :
      (r : Round) (answer : Fetched) (s : State)
      → Shrinks c s (receive c o deadline r answer (dispatch s))
  receive-Shrinks r unreachable s = ground arith
  receive-Shrinks r (response status retry_after body) s =
      let t = dispatch s in
      if_cases (Shrinks c s) (eqb status 401 && s.allow_refresh && o.auth) _ _
        (λ h. refresh-Shrinks r r.refreshed s (reject t) (ground (arith, h)) (omega arith))
        (λ _.
          if_cases (Shrinks c s)
            (retryable o && eqb status 429 && ltb s.retries_429 c.max_429_retries) _ _
            (λ h.
              pause-Shrinks (jitter (backoff_429 c retry_after t) c.retry_jitter_ratio r.random) r s
                (record t { retries_429 = suc s.retries_429 }) (ground (arith, h)) (omega arith))
            (λ _.
              if_cases (Shrinks c s)
                (retryable o && is_5xx status && ltb s.retries_5xx c.max_5xx_retries) _ _
                (λ h.
                  pause-Shrinks (jitter c.retry_5xx_backoff_ms c.retry_jitter_ratio r.random) r s
                    (record t { retries_5xx = suc s.retries_5xx }) (ground (arith, h))
                    (omega arith))
                (λ _. finish-Shrinks status retry_after body r s t (omega arith))))

  send-Shrinks :
      (r : Round) (e : Option Failure) (s : State) → Shrinks c s (send c o deadline r e s)
  send-Shrinks r (some f) s = ground arith
  send-Shrinks r none s = ground (arith, receive-Shrinks r r.fetched s)

  turn-Shrinks : (r : Round) (s : State) → Shrinks c s (turn c o deadline r s)
  unfolding turn
  turn-Shrinks r s = send-Shrinks r r.prepared s

  -- the loop has an end from `s`, and it has sent at most `n` times more
  abbrev pub Ends : (fuel n : ℕ) → State → Option (State × Outcome) → Type 0
  Ends fuel n s e =
      (t : State) × (out : Outcome) × (e ≡ some (t, out)) × (t.dispatches ≤ n + s.dispatches)

  go_on-Ends :
      (rounds : ℕ → Round) (fuel n : ℕ) (s : State) (u : Turn)
      → Shrinks c s u
      → left c s < suc fuel
      → ((t : State)
          → left c t < fuel
          → Ends fuel (suc (left c t)) t (do_request c o deadline rounds fuel n t))
      → Ends (suc fuel) (suc (left c s)) s (go_on u (do_request c o deadline rounds fuel n))
  go_on-Ends rounds fuel n s (done t out) once enough rest = (t, out, refl, omega (arith, once))
  go_on-Ends rounds fuel n s (again t) (fewer, once) enough rest =
      let (v, out, e, m) = rest t (omega (arith, fewer, enough)) in
      (v, out, e, omega (arith, fewer, once, m))

  -- The loop comes to an end before it has made more turns than one more than `left` counts.
  loop-Ends :
      (rounds : ℕ → Round) (fuel n : ℕ) (s : State)
      → left c s < fuel
      → Ends fuel (suc (left c s)) s (do_request c o deadline rounds fuel n s)
  unfolding do_request
  loop-Ends rounds zero n s enough = ground (arith, enough)
  loop-Ends rounds (suc fuel) n s enough =
      go_on-Ends rounds fuel (suc n) s (turn c o deadline (rounds n) s) (turn-Shrinks (rounds n) s)
        enough (λ t fewer. loop-Ends rounds fuel (suc n) t fewer)

  -- Whatever the network, the token endpoint and the clock do, a request ends: with as many turns as the
  -- two limits of the configuration allow together and two more there is a result, and the request was
  -- sent at most that often.
  pub do_request_ends :
      (rounds : ℕ → Round)
      → (t : State) × (out : Outcome) × (do_request c o deadline rounds
            (2 + c.max_429_retries + c.max_5xx_retries)
            0
            init
          ≡ some (t, out))
        × (t.dispatches ≤ 2 + c.max_429_retries + c.max_5xx_retries)
  unfolding init
  do_request_ends rounds =
      let bound = 2 + c.max_429_retries + c.max_5xx_retries in
      let (t, out, e, m) = loop-Ends rounds bound 0 init (omega arith) in
      (t, out, e, omega (arith, m))

  -- an error that is met before anything is sent is thrown at once
  pub do_request-prepared :
      (rounds : ℕ → Round) (fuel : ℕ) (f : Failure)
      → (rounds 0).prepared ≡ some f
      → do_request c o deadline rounds (suc fuel) 0 init ≡ some (init, thrown f)
  unfolding do_request turn
  do_request-prepared rounds fuel f e =
      ap (λ p. go_on (send c o deadline (rounds 0) p init) (do_request c o deadline rounds fuel 1))
        e
