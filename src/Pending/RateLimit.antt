-- ===== src/Pending/RateLimit.antt =====
-- `checkConfirmationRateLimit` of core/pending-actions.ts: a sliding window for each principal.
pub mod Window
pub mod Retry
use mathlib.Core.List.{append-nil, append_assoc}
use avito_mcp.Prelude.{
  ℕ, String, ◌+◌, ◌-◌, ◌≤◌, ◌<◌, ◌≡◌, refl, Bool, true, false, Option, none, some, List, [], ◌∷◌,
  ◌++◌, ◌&&◌, eq_iff, ap, sym, ◌∙◌, Bool-cases, inl, inr, filter-append, filter-filter, arith, ltb,
  leb, length, length-append, length-filter-le, filter, get_or, max, if◌then◌else◌, ◌==◌,
}
use avito_mcp.JsMap.{JsMap, get, put, retain, map_values, kept, mapped}
use avito_mcp.JsMap.Laws.{get-put, get-retain, get-map_values, get-empty}
use avito_mcp.Pending.{Store, ConfirmationRateLimitResult}

-- `timestamp > now - windowMs`
abbrev pub in_window : ℕ → ℕ → ℕ → Bool
in_window now window_ms timestamp = ltb now (timestamp + window_ms)

abbrev nonempty : List ℕ → Bool
nonempty ts = ltb 0 (length ts)

abbrev pub prune : ℕ → ℕ → JsMap (List ℕ) → JsMap (List ℕ)
prune now window_ms m =
    retain (λ _ ts. nonempty ts) (map_values (filter (in_window now window_ms)) m)

abbrev first : List ℕ → ℕ
first [] = 0
first (t ∷ ts) = t

abbrev pub attempts_of {ℓ} : {E : Type ℓ} → Store E → String → List ℕ
attempts_of s principal = get_or (get s.confirmation_attempts principal) []

module _ {ℓ} {E : Type ℓ} (principal : String) (now max_attempts window_ms : ℕ) where
  unfoldable pub check_confirmation_rate_limit : Store E → Store E × ConfirmationRateLimitResult
  check_confirmation_rate_limit s =
      let pruned = prune now window_ms s.confirmation_attempts in
      let attempts = get_or (get pruned principal) [] in
      if leb (max 1 max_attempts) (length attempts)
      then (
        record s { confirmation_attempts = pruned },
        record { allowed = false; retry_after_ms = max 1 (first attempts + window_ms - now) },
      )
      else (
        record s { confirmation_attempts = put pruned principal (attempts ++ now ∷ []) },
        record { allowed = true; retry_after_ms = 0 },
      )

attempts-prune :
    (now window_ms : ℕ) (m : JsMap (List ℕ)) (p : String)
    → get_or (get (prune now window_ms m) p) []
      ≡ filter (in_window now window_ms) (get_or (get m p) [])
attempts-prune now window_ms m p =
    rw
      (
        get-retain (λ _ ts. nonempty ts) (map_values (filter (in_window now window_ms)) m) p,
        get-map_values (filter (in_window now window_ms)) m p,
      )
      (after (get m p))
  where
    shown : (ts : List ℕ) → get_or (if nonempty ts then some ts else none) [] ≡ ts
    shown [] = refl
    shown (t ∷ ts) = ground arith

    after :
        (o : Option (List ℕ))
        → get_or (kept (λ _ ts. nonempty ts) p (mapped (filter (in_window now window_ms)) o)) []
          ≡ filter (in_window now window_ms) (get_or o [])
    after none = refl
    after (some ts) = shown (filter (in_window now window_ms) ts)

module _ {ℓ} {E : Type ℓ} (max_attempts window_ms : ℕ) where
  abbrev check : String → ℕ → Store E → Store E × ConfirmationRateLimitResult
  check p now = check_confirmation_rate_limit p now max_attempts window_ms

  attempts-check :
      (q : String) (now : ℕ) (s : Store E) (p : String)
      → attempts_of (check q now s).0 p
        ≡ filter (in_window now window_ms) (attempts_of s p)
          ++ (if (check q now s).1.allowed && q == p then now ∷ [] else [])
  unfolding check_confirmation_rate_limit
  attempts-check q now s p =
      let pruned = prune now window_ms s.confirmation_attempts in
      let pushed = get_or (get pruned q) [] ++ now ∷ [] in
      ground (
        arith,
        attempts-prune now window_ms s.confirmation_attempts p,
        attempts-prune now window_ms s.confirmation_attempts q,
        get-put pruned q pushed p,
        eq_iff q p,
        append-nil (filter (in_window now window_ms) (attempts_of s p)),
      )
