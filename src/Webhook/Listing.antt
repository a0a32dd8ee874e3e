-- ===== src/Webhook/Listing.antt =====
-- `list` of core/webhook-store.ts: which events it returns.
use avito_mcp.Prelude.{
  ℕ, zero, suc, String, ◌≤◌, ◌≡◌, ◌↔◌, refl, true, Option, none, some, List, [], ◌∷◌, reverse,
  arith, filter, length, take, In, In-filter, In-reverse, In-take, eq_iff, ap, ◌∙◌,
}
use avito_mcp.Webhook.{
  Store, WebhookEvent, Query, since_ok, chat_ok, same_text, limited, list_events,
}

-- What a query asks of an event.
pub record Matches (q : Query) (e : WebhookEvent) : Type 0 where
  pub recent : (t : ℕ) → q.since ≡ some t → t ≤ e.received_at
  pub in_chat : (c : String) → q.chat_id ≡ some c → e.chat_id ≡ some c

since_ok_iff :
    (o : Option ℕ) (e : WebhookEvent)
    → (since_ok o e ≡ true) ↔ ((t : ℕ) → o ≡ some t → t ≤ e.received_at)
since_ok_iff none e = (λ _ t h. cc, λ _. refl)
since_ok_iff (some u) e = (λ k t h. ground arith, λ k. ground (arith, k u refl))

same_text_iff : (o : Option String) (c : String) → (same_text o c ≡ true) ↔ (o ≡ some c)
same_text_iff none c = (λ h. cc, λ h. cc)
same_text_iff (some t) c = ground (arith, eq_iff t c)

chat_ok_iff :
    (o : Option String) (e : WebhookEvent)
    → (chat_ok o e ≡ true) ↔ ((c : String) → o ≡ some c → e.chat_id ≡ some c)
chat_ok_iff none e = (λ _ t h. cc, λ _. refl)
chat_ok_iff (some u) e = (
  λ k t h. ground (arith, same_text_iff e.chat_id u),
  λ k. (same_text_iff e.chat_id u).1 (k u refl),
)

matching : Store → Query → List WebhookEvent
matching s q = filter (chat_ok q.chat_id) (filter (since_ok q.since) (reverse s.events))

list_events-matching : (s : Store) (q : Query) → list_events s q ≡ limited q.limit (matching s q)
unfolding list_events matching
list_events-matching s q = refl

module _ (s : Store) (q : Query) (e : WebhookEvent) where
  matching_iff : In e (matching s q) ↔ (In e s.events × Matches q e)
  unfolding matching
  matching_iff = (
    λ h.
        let outer = (In-filter (chat_ok q.chat_id) e _).0 h in
        let inner = (In-filter (since_ok q.since) e _).0 outer.0 in
        (
          (In-reverse e s.events).0 inner.0,
          record {
            recent = (since_ok_iff q.since e).0 inner.1;
            in_chat = (chat_ok_iff q.chat_id e).0 outer.1;
          },
        ),
    λ h. (In-filter (chat_ok q.chat_id) e _).1 (
      (In-filter (since_ok q.since) e _).1
          ((In-reverse e s.events).1 h.0, (since_ok_iff q.since e).1 h.1.recent),
      (chat_ok_iff q.chat_id e).1 h.1.in_chat,
    ),
  )

  -- Without a limit, an event is listed exactly when it is retained and matches the query.
  pub list_events_iff : q.limit ≡ none → In e (list_events s q) ↔ (In e s.events × Matches q e)
  list_events_iff unlimited =
      rw (list_events-matching s q ∙ ap (λ l. limited l (matching s q)) unlimited) matching_iff

length-take-le {ℓ} : {A : Type ℓ} (n : ℕ) (xs : List A) → length (take n xs) ≤ n
length-take-le zero xs = omega arith
length-take-le (suc n) [] = omega arith
length-take-le (suc n) (x ∷ xs) = omega (arith, length-take-le n xs)

-- With a limit, at most that many events are listed, and each of them is retained and matches.
pub list_events_limited :
    (s : Store) (q : Query) (n : ℕ)
    → q.limit ≡ some n
    → (length (list_events s q) ≤ n)
      × ((e : WebhookEvent) → In e (list_events s q) → In e s.events × Matches q e)
list_events_limited s q n limit =
    rw (list_events-matching s q ∙ ap (λ l. limited l (matching s q)) limit) (
      length-take-le n (matching s q),
      λ e h. (matching_iff s q e).0 (In-take n e (matching s q) h),
    )
