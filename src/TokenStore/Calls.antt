-- ===== src/TokenStore/Calls.antt =====
-- Several processes over one token file of core/token-store.ts, each for its own account. A process that
-- starts again does so with an empty cache.
use avito_mcp.Prelude.{ℕ, String, Bool, Option, none, List, [], ◌∷◌, eqb, if◌then◌else◌}
use avito_mcp.TokenStore.{TokenRecord, File, missing, Fresh, Store, refresh, get_token, invalidate}

pub data Call : Type 0 where
  gets :
      (now refresh_at : ℕ) → (fetched : Option Fresh) → (fetched_at : ℕ) → (write_ok : Bool) → Call
  refreshes : (now : ℕ) → (fetched : Option Fresh) → (fetched_at : ℕ) → (write_ok : Bool) → Call
  invalidates : Call
  restarts : Call

-- the file, and the cache of each process
pub record World : Type 0 where
  pub file : File
  pub caches : ℕ → Option TokenRecord

unfoldable pub init : World
init = record { file = missing; caches = λ i. none }

-- a call of a process of that account
unfoldable pub step_of : String → Call → Store → Store
step_of account (gets now refresh_at fetched fetched_at ok) s =
    (get_token account now refresh_at fetched fetched_at ok s).0
step_of account (refreshes now fetched fetched_at ok) s =
    (refresh account now fetched fetched_at ok s).0
step_of account invalidates s = (invalidate account s).0
step_of account restarts s = record s { cache = none }

-- `accounts` tells the account of each process
unfoldable pub step : (accounts : ℕ → String) → World → ℕ × Call → World
step accounts w (i, c) =
    let s = step_of (accounts i) c (record { cache = w.caches i; file = w.file }) in
    record { file = s.file; caches = λ j. if eqb i j then s.cache else w.caches j }

unfoldable pub run : (accounts : ℕ → String) → World → List (ℕ × Call) → World
run accounts w [] = w
run accounts w (c ∷ cs) = run accounts (step accounts w c) cs
