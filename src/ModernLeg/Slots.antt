-- ===== src/ModernLeg/Slots.antt =====
-- The two counts of http/mcp-http.ts and the exchanges that are running.
use avito_mcp.Prelude.{
  ℕ, zero, suc, String, ◌-◌, ◌≤◌, ◌<◌, ◌≡◌, ◌↔◌, ◌⊎◌, refl, ap, Bool, false, not, ◌&&◌, Option,
  none, some, List, [], ◌∷◌, ◌++◌, arith, leb, if_cases, get_or,
}
use avito_mcp.Json.{Json}
use avito_mcp.ModernLeg.{
  Exchange, State, Refusal, Era, Request, init, one_less, one_more, admitted, admit_modern_exchange,
  exchange_at, mark_released, released_one, release, dispatch_by_era, begin_close, Answer, Route,
  routed, answer_of, modern, dual, legacy_message, modern_request, modern_notification, reject,
  exchanged, is_listen_request,
}

abbrev is_open : Exchange → Bool
is_open x = not x.released

abbrev is_open_stream : Exchange → Bool
is_open_stream x = x.is_stream && not x.released

-- how many of them satisfy the test
abbrev pub count : (Exchange → Bool) → List Exchange → ℕ
count p [] = 0
count p (x ∷ xs) = one_more (p x) (count p xs)

-- the exchanges that were admitted and not yet released, and the streams among them
abbrev pub open_exchanges : State → ℕ
open_exchanges s = count is_open s.exchanges

abbrev pub open_streams : State → ℕ
open_streams s = count is_open_stream s.exchanges

-- `finally` and the `close` event of the response are both an `ends`
pub data Event : Type 0 where
  arrives : (era : Era) → (publishable_uris : List String) → (q : Request) → Event
  ends : (i : ℕ) → Event
  begins_close : Event

unfoldable pub step : State → Event → State
step s (arrives era publishable_uris q) = (dispatch_by_era era publishable_uris q s).0
step s (ends i) = release i s
step s begins_close = begin_close s

unfoldable pub run : State → List Event → State
run s [] = s
run s (e ∷ es) = run (step s e) es

count-append :
    (p : Exchange → Bool) (xs : List Exchange) (x : Exchange)
    → count p (xs ++ x ∷ []) ≡ one_more (p x) (count p xs)
count-append p [] x = refl
count-append p (y ∷ ys) x = ground (arith, count-append p ys x)

count_open-mark_released :
    (i : ℕ) (xs : List Exchange) (x : Exchange)
    → exchange_at i xs ≡ some x
    → x.released ≡ false
    → suc (count is_open (mark_released i xs)) ≡ count is_open xs
count_open-mark_released i [] x e r = ground (arith, e)
count_open-mark_released zero (y ∷ ys) x e r =
    ground (arith, e, r, ap (λ o. (get_or o x).released) e)
count_open-mark_released (suc i) (y ∷ ys) x e r =
    ground (arith, count_open-mark_released i ys x e r)

count_open_stream-mark_released :
    (i : ℕ) (xs : List Exchange) (x : Exchange)
    → exchange_at i xs ≡ some x
    → x.released ≡ false
    → one_more x.is_stream (count is_open_stream (mark_released i xs)) ≡ count is_open_stream xs
count_open_stream-mark_released i [] x e r = ground (arith, e)
count_open_stream-mark_released zero (y ∷ ys) x e r =
    ground (arith, e, r, ap (λ o. (get_or o x).released) e, ap (λ o. (get_or o x).is_stream) e)
count_open_stream-mark_released (suc i) (y ∷ ys) x e r =
    ground (arith, count_open_stream-mark_released i ys x e r)

-- the counts are those of the exchanges that run, and within the limits
abbrev IsCounted : (m k : ℕ) → State → Type 0
IsCounted m k s =
    ((s.max_inflight ≡ m) × (s.max_streams ≡ k))
    × ((s.modern_inflight ≡ open_exchanges s) × (s.modern_streams ≡ open_streams s))
    × ((s.modern_inflight ≤ m) × (s.modern_streams ≤ k))

admits_iff :
    (is_stream : Bool) (s : State)
    → ((admit_modern_exchange is_stream s).1 ≡ none) ↔ (
        (s.closing ≡ false)
        × ((is_stream ≡ false) ⊎ (s.modern_streams < s.max_streams))
        × (s.modern_inflight < s.max_inflight))
unfolding admit_modern_exchange
admits_iff is_stream s = (
  λ e. ground (arith, e),
  λ (closing, stream, inflight). ground (arith, closing, stream, inflight),
)

module _ (m k : ℕ) where
  admitted-IsCounted :
      (is_stream : Bool) (s : State)
      → (is_stream && leb s.max_streams s.modern_streams) ≡ false
      → leb s.max_inflight s.modern_inflight ≡ false
      → IsCounted m k s
      → IsCounted m k (admitted is_stream s)
  admitted-IsCounted is_stream s stream inflight (limits, (running, streams), rooms) =
      let x : Exchange = record { is_stream = is_stream; released = false } in
      let open_lem = count-append is_open s.exchanges x in
      let stream_lem = count-append is_open_stream s.exchanges x in
      (
        limits,
        (ground (arith, running, open_lem), ground (arith, streams, stream_lem)),
        (ground (arith, inflight, limits, rooms), ground (arith, stream, limits, rooms)),
      )

  admit-IsCounted :
      (is_stream : Bool) (s : State)
      → IsCounted m k s
      → IsCounted m k (admit_modern_exchange is_stream s).0
  unfolding admit_modern_exchange
  admit-IsCounted is_stream s c =
      if_cases {A = State × Option Refusal} (λ r. IsCounted m k r.0) s.closing _ _ (λ _. c)
        (λ _.
          if_cases {A = State × Option Refusal} (λ r. IsCounted m k r.0)
            (is_stream && leb s.max_streams s.modern_streams) _ _ (λ _. c)
            (λ stream.
              if_cases {A = State × Option Refusal} (λ r. IsCounted m k r.0)
                (leb s.max_inflight s.modern_inflight) _ _ (λ _. c)
                (λ inflight. admitted-IsCounted is_stream s stream inflight c)))

  freed-IsCounted :
      (i : ℕ) (x : Exchange) (s : State)
      → exchange_at i s.exchanges ≡ some x
      → x.released ≡ false
      → IsCounted m k s
      → IsCounted m k (record s {
        modern_inflight = s.modern_inflight - 1;
        modern_streams = one_less x.is_stream s.modern_streams;
        exchanges = mark_released i s.exchanges;
      })
  freed-IsCounted i x s e r (limits, (running, streams), rooms) =
      let open_lem = count_open-mark_released i s.exchanges x e r in
      let stream_lem = count_open_stream-mark_released i s.exchanges x e r in
      (
        limits,
        (ground (arith, running, open_lem), ground (arith, streams, stream_lem)),
        (ground (arith, rooms), ground (arith, rooms)),
      )

  released_one-IsCounted :
      (i : ℕ) (o : Option Exchange) (s : State)
      → exchange_at i s.exchanges ≡ o
      → IsCounted m k s
      → IsCounted m k (released_one i o s)
  released_one-IsCounted i none s e c = c
  released_one-IsCounted i (some x) s e c =
      if_cases (IsCounted m k) x.released _ _ (λ _. c) (λ r. freed-IsCounted i x s e r c)

  answer_of-IsCounted :
      (body : Json) (r : State × Option Refusal)
      → IsCounted m k r.0
      → IsCounted m k (answer_of body r).0
  answer_of-IsCounted body (s, none) c = c
  answer_of-IsCounted body (s, some refusal) c = c

  exchanged-IsCounted :
      (uris : List String) (body : Json) (s : State)
      → IsCounted m k s
      → IsCounted m k (exchanged uris body s).0
  exchanged-IsCounted uris body s c =
      answer_of-IsCounted _ (admit_modern_exchange (is_listen_request body) s)
        (admit-IsCounted (is_listen_request body) s c)

  routed-IsCounted :
      (era : Era) (uris : List String) (route : Route) (version : Option String) (body : Json)
      (s : State)
      → IsCounted m k s
      → IsCounted m k (routed era uris route version body s).0
  routed-IsCounted modern uris legacy_message version body s c = c
  routed-IsCounted dual uris legacy_message version body s c = c
  routed-IsCounted dual uris modern_request none body s c = c
  routed-IsCounted dual uris modern_request (some v) body s c = exchanged-IsCounted uris body s c
  routed-IsCounted dual uris modern_notification version body s c =
      exchanged-IsCounted uris body s c
  routed-IsCounted dual uris reject version body s c = exchanged-IsCounted uris body s c
  routed-IsCounted modern uris modern_request none body s c = c
  routed-IsCounted modern uris modern_request (some v) body s c = exchanged-IsCounted uris body s c
  routed-IsCounted modern uris modern_notification version body s c =
      exchanged-IsCounted uris body s c
  routed-IsCounted modern uris reject version body s c = exchanged-IsCounted uris body s c

  dispatch-IsCounted :
      (era : Era) (uris : List String) (q : Request) (s : State)
      → IsCounted m k s
      → IsCounted m k (dispatch_by_era era uris q s).0
  unfolding dispatch_by_era
  dispatch-IsCounted era uris q s c =
      if_cases {A = State × Answer} (λ r. IsCounted m k r.0) q.is_post _ _
        (λ _. routed-IsCounted era uris q.route q.protocol_version q.body s c)
        (λ _. if_cases {A = State × Answer} (λ r. IsCounted m k r.0) _ _ _ (λ _. c) (λ _. c))

  step-IsCounted : (s : State) (e : Event) → IsCounted m k s → IsCounted m k (step s e)
  unfolding step release begin_close
  step-IsCounted s (arrives era uris q) c = dispatch-IsCounted era uris q s c
  step-IsCounted s (ends i) c = released_one-IsCounted i (exchange_at i s.exchanges) s refl c
  step-IsCounted s begins_close c = c

  run-IsCounted : (s : State) (es : List Event) → IsCounted m k s → IsCounted m k (run s es)
  unfolding run
  run-IsCounted s [] c = c
  run-IsCounted s (e ∷ es) c = run-IsCounted (step s e) es (step-IsCounted s e c)

  init-IsCounted : IsCounted m k (init m k)
  unfolding init
  init-IsCounted = ((refl, refl), (refl, refl), (ground arith, ground arith))

  -- In every history, however the ends of exchanges interleave and however often each comes, at most the
  -- configured number of admitted exchanges run at once, and at most the configured number of streams.
  pub open_exchanges-run-le :
      (es : List Event)
      → (open_exchanges (run (init m k) es) ≤ m) × (open_streams (run (init m k) es) ≤ k)
  open_exchanges-run-le es =
      let (limits, (running, streams), (room, stream_room)) =
        run-IsCounted (init m k) es init-IsCounted in
      (omega (arith, running, room), omega (arith, streams, stream_room))

  -- After every history no slot is lost: a request is admitted exactly when the endpoint is not closing, fewer
  -- than the configured number of exchanges run, and, for a stream, fewer than the configured number of
  -- streams.
  pub admit_modern_exchange_iff :
      (es : List Event) (is_stream : Bool)
      → ((admit_modern_exchange is_stream (run (init m k) es)).1 ≡ none) ↔ (
          ((run (init m k) es).closing ≡ false)
          × ((is_stream ≡ false) ⊎ (open_streams (run (init m k) es) < k))
          × (open_exchanges (run (init m k) es) < m))
  admit_modern_exchange_iff es is_stream =
      let c = run-IsCounted (init m k) es init-IsCounted in
      let p = admits_iff is_stream (run (init m k) es) in
      (λ e. ground (arith, c, p.0 e), λ free. p.1 (ground (arith, c, free)))
