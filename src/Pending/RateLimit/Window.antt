-- ===== src/Pending/RateLimit/Window.antt =====
-- How many confirmations `checkConfirmationRateLimit` of core/pending-actions.ts allows in a window.
use mathlib.Core.List.{append-nil, append_assoc}
use avito_mcp.Prelude.{
  ℕ, String, ◌≤◌, ◌<◌, ◌≡◌, refl, Bool, true, false, List, [], ◌∷◌, ◌++◌, ◌&&◌, eq_iff, ap, sym,
  ◌∙◌, Bool-cases, inl, inr, filter-append, filter-filter, arith, length, length-append,
  length-filter-le, filter, get_or, max, if◌then◌else◌, ◌==◌,
}
use avito_mcp.JsMap.{get}
use avito_mcp.JsMap.Laws.{get-empty}
use avito_mcp.Pending.{Store, ConfirmationRateLimitResult}
use avito_mcp.Pending.RateLimit.{
  in_window, attempts_of, check_confirmation_rate_limit, attempts-prune, attempts-check,
}

abbrev pub Times : Type 0
Times = List (String × ℕ)

allowed_cons :
    (b : Bool) (t : ℕ) (ts : List ℕ) → (if b then t ∷ ts else ts) ≡ (if b then t ∷ [] else []) ++ ts
allowed_cons true t ts = refl
allowed_cons false t ts = refl

-- the calls come in the order of the clock
abbrev pub IsOrdered : ℕ → Times → Type 0
IsOrdered t [] = Unit
IsOrdered t ((p, now) ∷ calls) = (t ≤ now) × IsOrdered now calls

abbrev pub last_time : ℕ → Times → ℕ
last_time t [] = t
last_time t ((p, now) ∷ calls) = last_time now calls

in_window_mono :
    (t now window_ms x : ℕ)
    → t ≤ now
    → in_window now window_ms x ≡ true
    → in_window t window_ms x ≡ true
in_window_mono t now window_ms x h k = ground arith

module _ {ℓ} {E : Type ℓ} (max_attempts window_ms : ℕ) where
  abbrev check : String → ℕ → Store E → Store E × ConfirmationRateLimitResult
  check p now = check_confirmation_rate_limit p now max_attempts window_ms

  -- the times at which calls of the principal were allowed
  pub allowed_times : String → Times → Store E → List ℕ
  allowed_times p [] s = []
  allowed_times p ((q, now) ∷ calls) s =
      let rest = allowed_times p calls (check q now s).0 in
      if (check q now s).1.allowed && q == p then now ∷ rest else rest

  allowed-check :
      (q : String) (now : ℕ) (s : Store E)
      → (check q now s).1.allowed ≡ true
      → length (filter (in_window now window_ms) (attempts_of s q)) < max 1 max_attempts
  unfolding check_confirmation_rate_limit
  allowed-check q now s h = ground (arith, attempts-prune now window_ms s.confirmation_attempts q)

  -- `log` holds the times allowed so far; within the window the store remembers just those.
  record Remembers (p : String) (t : ℕ) (log : List ℕ) (s : Store E) : Type 0 where
    same : filter (in_window t window_ms) log ≡ filter (in_window t window_ms) (attempts_of s p)
    bounded : length (filter (in_window t window_ms) log) ≤ max 1 max_attempts

  module _ (p : String) (q : String) (t now : ℕ) (log : List ℕ) (s : Store E) where
    filter-later :
        (ts : List ℕ)
        → t ≤ now
        → filter (in_window now window_ms) (filter (in_window t window_ms) ts)
          ≡ filter (in_window now window_ms) ts
    filter-later ts h =
        filter-filter (in_window now window_ms) (in_window t window_ms) ts
          (λ x k. in_window_mono t now window_ms x h k)

    abbrev added : List ℕ
    added = if (check q now s).1.allowed && q == p then now ∷ [] else []

    log-attempts :
        t ≤ now
        → Remembers p t log s
        → filter (in_window now window_ms) log ≡ filter (in_window now window_ms) (attempts_of s p)
    log-attempts h r =
        sym (filter-later log h)
        ∙ ap (filter (in_window now window_ms)) r.same
        ∙ filter-later (attempts_of s p) h

    same-check :
        t ≤ now
        → Remembers p t log s
        → filter (in_window now window_ms) (log ++ added)
          ≡ filter (in_window now window_ms) (attempts_of (check q now s).0 p)
    same-check h r = rw (
      attempts-check max_attempts window_ms q now s p,
      filter-append (in_window now window_ms) log added,
      filter-append (in_window now window_ms) (filter (in_window now window_ms) (attempts_of s p))
          added,
      filter-filter (in_window now window_ms) (in_window now window_ms) (attempts_of s p)
          (λ x k. k),
      log-attempts h r,
    )

    bounded-check :
        t ≤ now
        → Remembers p t log s
        → length (filter (in_window now window_ms) (log ++ added)) ≤ max 1 max_attempts
    bounded-check h r = elim (Bool-cases ((check q now s).1.allowed && q == p)) [
      | inl e ↦ ground (
        arith,
        ap length (filter-append (in_window now window_ms) log added),
        ap length (log-attempts h r),
        length-append (filter (in_window now window_ms) log)
            (filter (in_window now window_ms) added),
        length-filter-le (in_window now window_ms) added,
        allowed-check q now s,
        eq_iff q p,
      )
      | inr e ↦ ground (
        arith,
        append-nil log,
        ap length (filter-later log h),
        length-filter-le (in_window now window_ms) (filter (in_window t window_ms) log),
        r.bounded,
      )
    ]

  window_run :
      (p : String) (t : ℕ) (log : List ℕ) (calls : Times) (s : Store E)
      → IsOrdered t calls
      → Remembers p t log s
      → length (filter (in_window (last_time t calls) window_ms) (log ++ allowed_times p calls s))
        ≤ max 1 max_attempts
  unfolding allowed_times
  window_run p t log [] s o r = rw append-nil r.bounded
  window_run p t log ((q, now) ∷ calls) s o r =
      rw
        (
          allowed_cons ((check q now s).1.allowed && q == p) now
              (allowed_times p calls (check q now s).0),
          ← append_assoc log (added p q t now log s) (allowed_times p calls (check q now s).0),
        )
        (window_run p now (log ++ added p q t now log s) calls (check q now s).0 o.1 (record {
          same = same-check p q t now log s o.0 r;
          bounded = bounded-check p q t now log s o.0 r;
        }))

-- From a store that remembers no attempt, whatever principals call in the order of the clock: of the
-- calls of one principal that were allowed, at most `max(1, maxAttempts)` lie within the window that
-- ends at the last call.
pub allowed_times-bounded {ℓ} :
    {E : Type ℓ} (max_attempts window_ms : ℕ) (p : String) (calls : Times) (s : Store E)
    → s.confirmation_attempts ≡ []
    → IsOrdered 0 calls
    → length (
        filter
          (in_window (last_time 0 calls) window_ms)
          (allowed_times max_attempts window_ms p calls s))
      ≤ max 1 max_attempts
allowed_times-bounded max_attempts window_ms p calls s empty o =
    window_run max_attempts window_ms p 0 [] calls s o (record {
      same = sym (
          ap (λ m. filter (in_window 0 window_ms) (get_or (get m p) [])) empty
          ∙ ap (λ o. filter (in_window 0 window_ms) (get_or o [])) (get-empty p));
      bounded = omega arith;
    })
