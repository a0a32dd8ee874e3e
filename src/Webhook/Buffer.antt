-- ===== src/Webhook/Buffer.antt =====
-- The ring buffer of core/webhook-store.ts against the full history of deliveries.
use mathlib.Core.List.{append_assoc, append-nil}
use avito_mcp.Prelude.{
  ℕ, zero, suc, ◌+◌, ◌-◌, ◌≤◌, ◌≡◌, refl, sym, ap, ◌∙◌, List, [], ◌∷◌, ◌++◌, map, arith, length,
  drop, length-append, length-drop, ltb, inl, inr, Bool-cases, is_some, if◌then◌else◌, String,
  Option,
}
use avito_mcp.Webhook.{
  Store, Delivery, WebhookEvent, LogLine, init, event_of, record_event, deliver, stats, trim,
  persisted,
}

module _ {ℓ} {A : Type ℓ} where
  abbrev pub last_n : ℕ → List A → List A
  last_n n xs = drop (length xs - n) xs

  drop-append : (k : ℕ) (xs ys : List A) → k ≤ length xs → drop k (xs ++ ys) ≡ drop k xs ++ ys
  drop-append zero xs ys h = refl
  drop-append (suc k) [] ys h = absurd (omega arith)
  drop-append (suc k) (x ∷ xs) ys h = drop-append k xs ys (omega arith)

  drop-nil : (k : ℕ) → drop {A = A} k [] ≡ []
  drop-nil zero = refl
  drop-nil (suc k) = refl

  drop-drop : (a b : ℕ) (xs : List A) → drop a (drop b xs) ≡ drop (b + a) xs
  drop-drop a zero xs = ap (λ k. drop k xs) (omega arith)
  drop-drop a (suc b) [] = drop-nil a ∙ sym (drop-nil (suc b + a))
  drop-drop a (suc b) (x ∷ xs) =
      drop-drop a b xs
      ∙ ap (λ k. drop k (x ∷ xs)) (let e : suc (b + a) ≡ suc b + a = omega arith in e)

  -- Trimming after each append keeps the same suffix as trimming once.
  pub last_n-append : (n : ℕ) (xs ys : List A) → last_n n (last_n n xs ++ ys) ≡ last_n n (xs ++ ys)
  last_n-append n xs ys = rw (← drop-append (length xs - n) xs ys (omega arith)) (
      drop-drop _ (length xs - n) (xs ++ ys)
      ∙ ap (λ k. drop k (xs ++ ys))
          (omega (arith, length-drop (length xs - n) (xs ++ ys), length-append xs ys)))

trim-last_n : (n : ℕ) (xs : List WebhookEvent) → trim n xs ≡ last_n n xs
trim-last_n n xs = elim (Bool-cases (ltb n (length xs))) [
  | inl over ↦ rw over
  | inr fits ↦ rw (fits, (let e : length xs - n ≡ 0 = ground arith in e))
]

abbrev pub line_of : Delivery → LogLine
line_of d = persisted (event_of d)

module _ (s : Store) (d : Delivery) where
  events-record_event :
      (record_event s d).events ≡ last_n s.buffer_size (s.events ++ event_of d ∷ [])
  unfolding record_event
  events-record_event = ground (arith, trim-last_n s.buffer_size (s.events ++ event_of d ∷ []))

  buffer_size-record_event : (record_event s d).buffer_size ≡ s.buffer_size
  unfolding record_event
  buffer_size-record_event = ground arith

  total-record_event : (record_event s d).total ≡ s.total + 1
  unfolding record_event
  total-record_event = ground arith

  log_file-record_event : (record_event s d).log_file ≡ s.log_file
  unfolding record_event
  log_file-record_event = ground arith

  append_queue-record_event :
      (record_event s d).append_queue
      ≡ (if is_some s.log_file then s.append_queue ++ line_of d ∷ [] else s.append_queue)
  unfolding record_event
  append_queue-record_event = ground arith

-- `past` is what has been recorded before.
events-deliver :
    (n : ℕ) (s : Store) (past : List WebhookEvent) (ds : List Delivery)
    → s.buffer_size ≡ n
    → s.events ≡ last_n n past
    → (deliver s ds).events ≡ last_n n (past ++ map event_of ds)
unfolding deliver
events-deliver n s past [] b h = rw append-nil h
events-deliver n s past (d ∷ ds) b h =
    let e = event_of d in
    rw (← append_assoc past (e ∷ []) (map event_of ds)) (
      events-deliver n (record_event s d) (past ++ e ∷ []) ds (buffer_size-record_event s d ∙ b) (
        events-record_event s d
        ∙ ap (λ k. last_n k (s.events ++ e ∷ [])) b
        ∙ ap (λ es. last_n n (es ++ e ∷ [])) h
        ∙ last_n-append n past (e ∷ [])))

total-deliver : (s : Store) (ds : List Delivery) → (deliver s ds).total ≡ s.total + length ds
unfolding deliver
total-deliver s [] = omega arith
total-deliver s (d ∷ ds) =
    omega (arith, total-deliver (record_event s d) ds, total-record_event s d)

append_queue-deliver :
    (s : Store) (ds : List Delivery)
    → (deliver s ds).append_queue
      ≡ (if is_some s.log_file then s.append_queue ++ map line_of ds else s.append_queue)
unfolding deliver
append_queue-deliver s [] = rw append-nil (ground arith)
append_queue-deliver s (d ∷ ds) = ground (
  arith,
  append_queue-deliver (record_event s d) ds,
  append_queue-record_event s d,
  log_file-record_event s d,
  append_assoc s.append_queue (line_of d ∷ []) (map line_of ds),
)

-- After any deliveries to a new store the buffer holds the last `buffer_size` of their events, in
-- the order of arrival, and the counter of `stats` has counted all of them.
pub deliver-init :
    (n : ℕ) (log : Option String) (ds : List Delivery)
    → ((deliver (init n log) ds).events ≡ last_n n (map event_of ds))
      × ((stats (deliver (init n log) ds)).total_received ≡ length ds)
unfolding init stats
deliver-init n log ds = (
  events-deliver n (init n log) [] ds refl (sym (drop-nil (0 - n))),
  omega (arith, total-deliver (init n log) ds),
)

-- With a log file every delivery is queued for the log, also those that the buffer has dropped, in
-- the order of arrival and without the raw payload; without one nothing is queued.
pub append_queue-deliver-init :
    (n : ℕ) (log : Option String) (ds : List Delivery)
    → (deliver (init n log) ds).append_queue ≡ (if is_some log then map line_of ds else [])
unfolding init
append_queue-deliver-init n log ds = append_queue-deliver (init n log) ds
