-- ===== src/RateLimiter/Budget.antt =====
-- What the shared counter of core/rate-limiter.ts guarantees.
use avito_mcp.Prelude.{
  ℕ, ◌+◌, ◌-◌, ◌≤◌, ◌<◌, ◌≡◌, refl, ◌∙◌, Bool, true, false, Option, none, some, List, [], ◌∷◌, ◌&&◌,
  arith, get_or, zero, suc, min, leb, if◌then◌else◌,
}
use avito_mcp.RateLimiter.{
  max_safe_integer, RateSnapshot, delayed, passed, turn, reserve, release, wait_if_needed,
}

-- the count is known and within the limit, if there is one
abbrev pub IsWithin : Option ℕ → Option ℕ → Type 0
IsWithin (some limit) (some remaining) = remaining ≤ limit
IsWithin _ _ = Unit

turn-IsWithin :
    (now : ℕ) (s : RateSnapshot) (rem reset : Option ℕ)
    → s.remaining ≡ rem
    → IsWithin s.limit s.remaining
    → IsWithin (turn now s rem reset).0.limit (turn now s rem reset).0.remaining
turn-IsWithin now s none reset e h = h
turn-IsWithin now s (some n) none e h = ground arith
turn-IsWithin now s (some n) (some r) e h = ground arith

-- Neither a reservation nor a release ever takes a count above the observed limit.
pub reserve-release-IsWithin :
    (now : ℕ) (s : RateSnapshot)
    → IsWithin s.limit s.remaining
    → IsWithin (reserve now s).0.limit (reserve now s).0.remaining
      × IsWithin (release s).limit (release s).remaining
unfolding reserve release
reserve-release-IsWithin now s h = (turn-IsWithin now s s.remaining s.reset_at refl h, ground arith)

pub data Op : Type 0 where
  reserves : (now : ℕ) → Op
  releases : Op

abbrev pub granted_by : Op → RateSnapshot → ℕ
granted_by (reserves now) s = elim (reserve now s).1 [
  | delayed d ↦ 0
  | passed reserved ↦ if reserved then 1 else 0
]
granted_by releases s = 0

abbrev pub after : Op → RateSnapshot → RateSnapshot
after (reserves now) s = (reserve now s).0
after releases s = release s

unfoldable pub granted : List Op → RateSnapshot → ℕ
granted [] s = 0
granted (op ∷ ops) s = granted_by op s + granted ops (after op s)

unfoldable pub released : List Op → ℕ
released [] = 0
released (reserves now ∷ ops) = released ops
released (releases ∷ ops) = suc (released ops)

-- every reservation is tried before the counter is reset
abbrev pub AllBefore : ℕ → List Op → Type 0
AllBefore reset [] = Unit
AllBefore reset (reserves now ∷ ops) = (now < reset) × AllBefore reset ops
AllBefore reset (releases ∷ ops) = AllBefore reset ops

reserve-remaining :
    (now reset n : ℕ) (s : RateSnapshot)
    → now < reset
    → s.remaining ≡ some n
    → s.reset_at ≡ some reset
    → ((reserve now s).0.reset_at ≡ some reset)
      × ((reserve now s).0.remaining ≡ some (n - granted_by (reserves now) s))
      × (granted_by (reserves now) s + granted_by (reserves now) s ≤ n)
unfolding reserve
reserve-remaining now reset n s t e r = ground arith

remaining-release :
    (n : ℕ) (s : RateSnapshot)
    → s.remaining ≡ some n
    → ((release s).remaining ≡ some (min (get_or s.limit max_safe_integer) (n + 1)))
      × ((release s).reset_at ≡ s.reset_at)
unfolding release
remaining-release n s e = (ground arith, ground arith)

-- Until a counter is reset, the slots granted are at most what it stood at and what was given back
-- together, and fewer if it stood at one or more.
pub granted-released :
    (reset n : ℕ) (ops : List Op) (s : RateSnapshot)
    → s.remaining ≡ some n
    → s.reset_at ≡ some reset
    → AllBefore reset ops
    → granted ops s + min 1 n ≤ n + released ops
unfolding granted released
granted-released reset n [] s e r h = omega arith
granted-released reset n (reserves now ∷ ops) s e r (t, h) =
    let step = reserve-remaining now reset n s t e r in
    let g = granted_by (reserves now) s in
    ground (arith, step, granted-released reset (n - g) ops (reserve now s).0 step.1 step.0 h)
granted-released reset n (releases ∷ ops) s e r h =
    let given = remaining-release n s e in
    let m = min (get_or s.limit max_safe_integer) (n + 1) in
    omega (arith, granted-released reset m ops (release s) given.0 (given.1 ∙ r) h)

abbrev pub in_time : ℕ → Option (RateSnapshot × ℕ × Bool) → Bool
in_time bound none = false
in_time bound (some (s, t, reserved)) = reserved && leb t bound

-- A caller that waits for a counter with a reset time, which nobody else touches, gets a slot by that
-- time, or at once if it is over: a turn for each second until then, and one more, is enough.
pub wait_if_needed-in_time :
    (fuel now bound reset n : ℕ) (s : RateSnapshot)
    → s.remaining ≡ some n
    → s.reset_at ≡ some reset
    → 0 < fuel
    → reset < now + fuel
    → now ≤ bound
    → reset ≤ bound
    → in_time bound (wait_if_needed fuel now s) ≡ true
unfolding wait_if_needed reserve
wait_if_needed-in_time zero now bound reset n s e r some_fuel enough l b = ground (arith, some_fuel)
wait_if_needed-in_time (suc fuel) now bound reset n s e r some_fuel enough l b =
    ground (arith, wait_if_needed-in_time fuel (now + min (reset - now) 30) bound reset n s e r)
