-- ===== src/OauthStore/Eviction.antt =====
-- `evictOldest` of http/oauth/store.ts makes room.
use avito_mcp.Prelude.{
  ℕ, String, ◌≤◌, ◌<◌, ◌≡◌, refl, true, Option, none, some, [], ◌∷◌, arith, eq_iff, eq_refl, ltb,
  if◌then◌else◌, zero, suc, ◌⊎◌, inl, inr,
}
use avito_mcp.JsMap.{JsMap, get, has, size}
use avito_mcp.JsMap.Sizes.{size-remove-has}
use avito_mcp.JsMap.Laws.{get-remove}
use avito_mcp.OauthStore.{scan, without, evict, evict_oldest}

module _ {V : Type 0} (expires_at : V → ℕ) where
  pub scan-has :
      (best : Option (String × ℕ)) (m : JsMap V) (k : String) (least : ℕ)
      → scan expires_at best m ≡ some (k, least)
      → (best ≡ some (k, least)) ⊎ (has m k ≡ true)
  unfolding get
  scan-has best [] k least e = inl e
  scan-has none ((j, v) ∷ m) k least e =
      ground (arith, eq_refl j, eq_iff j k, scan-has (some (j, expires_at v)) m k least e)
  scan-has (some (i, l)) ((j, v) ∷ m) k least e = ground (
    arith,
    eq_refl j,
    eq_iff j k,
    scan-has (if ltb (expires_at v) l then some (j, expires_at v) else some (i, l)) m k least e,
  )

  scan-some : (b : String × ℕ) (m : JsMap V) → ¬ (scan expires_at (some b) m ≡ none)
  scan-some b [] e = ground arith
  scan-some (i, l) ((j, v) ∷ m) e =
      ground (arith, scan-some (j, expires_at v) m, scan-some (i, l) m)

  size-without_found :
      (m : JsMap V) (o : Option (String × ℕ))
      → ¬ (o ≡ none)
      → ((k : String) (least : ℕ) → o ≡ some (k, least) → has m k ≡ true)
      → size (without expires_at m o) < size m
  size-without_found m none some_one found = ground (arith, some_one)
  size-without_found m (some (k, least)) some_one found = size-remove-has m k (found k least refl)

  size-without :
      (m : JsMap V) → 0 < size m → size (without expires_at m (scan expires_at none m)) < size m
  unfolding size
  size-without [] h = ground arith
  size-without ((k, v) ∷ m) h =
      size-without_found ((k, v) ∷ m) (scan expires_at none ((k, v) ∷ m))
        (scan-some (k, expires_at v) m)
        (λ j least e. ground (arith, scan-has none ((k, v) ∷ m) j least e))

  pub size-evict :
      (fuel limit : ℕ) (m : JsMap V)
      → size m ≤ fuel
      → 0 < limit
      → size (evict expires_at fuel limit m) < limit
  unfolding evict
  size-evict zero limit m enough h = omega (arith, enough, h)
  size-evict (suc fuel) limit m enough h =
      ground (
        arith,
        size-without m,
        size-evict fuel limit (without expires_at m (scan expires_at none m)),
      )

  -- There is always room after an eviction: the rounds that the model allows are enough.
  pub size-evict_oldest :
      (limit : ℕ) (m : JsMap V) → 0 < limit → size (evict_oldest expires_at limit m) < limit
  unfolding evict_oldest
  size-evict_oldest limit m h = size-evict (size m) limit m (omega arith) h

  get-evict :
      (fuel limit : ℕ) (m : JsMap V) (k : String)
      → (get (evict expires_at fuel limit m) k ≡ none)
        ⊎ (get (evict expires_at fuel limit m) k ≡ get m k)
  unfolding evict
  get-evict zero limit m k = inr refl
  get-evict (suc fuel) limit m k = ground (
    arith,
    get-evict fuel limit (without expires_at m (scan expires_at none m)) k,
    get-without m (scan expires_at none m) k,
  )
    where
      get-without :
          (n : JsMap V) (o : Option (String × ℕ)) (j : String)
          → (get (without expires_at n o) j ≡ none) ⊎ (get (without expires_at n o) j ≡ get n j)
      get-without n none j = inr refl
      get-without n (some (i, least)) j = ground (arith, get-remove n i j)

  pub get-evict_oldest :
      (limit : ℕ) (m : JsMap V) (k : String)
      → (get (evict_oldest expires_at limit m) k ≡ none)
        ⊎ (get (evict_oldest expires_at limit m) k ≡ get m k)
  unfolding evict_oldest
  get-evict_oldest limit m k = get-evict (size m) limit m k
