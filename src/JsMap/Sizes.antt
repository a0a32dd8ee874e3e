-- ===== src/JsMap/Sizes.antt =====
-- How the operations change the size of a `Map`.
use avito_mcp.Prelude.{String, ◌≡◌, ◌+◌, ◌≤◌, ◌<◌, Bool, true, [], ◌∷◌, arith}
use avito_mcp.JsMap.{JsMap, get, has, put, remove, retain, size}

module _ {ℓ} {V : Type ℓ} where
  pub size-put-has : (m : JsMap V) (k : String) (v : V) → has m k ≡ true → size (put m k v) ≡ size m
  unfolding get put size
  size-put-has [] k v h = ground arith
  size-put-has ((i, w) ∷ m) k v h = ground (arith, size-put-has m k v)

  pub size-put-le : (m : JsMap V) (k : String) (v : V) → size (put m k v) ≤ size m + 1
  unfolding put size
  size-put-le [] k v = omega arith
  size-put-le ((i, w) ∷ m) k v = ground (arith, size-put-le m k v)

  pub size-remove-le : (m : JsMap V) (k : String) → size (remove m k) ≤ size m
  unfolding remove size
  size-remove-le [] k = omega arith
  size-remove-le ((i, w) ∷ m) k = ground (arith, size-remove-le m k)

  pub size-remove-has : (m : JsMap V) (k : String) → has m k ≡ true → size (remove m k) < size m
  unfolding get remove size
  size-remove-has [] k h = ground arith
  size-remove-has ((i, w) ∷ m) k h = ground (arith, size-remove-has m k, size-remove-le m k)

  pub size-retain-le : (keep : String → V → Bool) (m : JsMap V) → size (retain keep m) ≤ size m
  unfolding retain size
  size-retain-le keep [] = omega arith
  size-retain-le keep ((i, w) ∷ m) =
      ground (arith, size-retain-le keep m, size-remove-le (retain keep m) i)
