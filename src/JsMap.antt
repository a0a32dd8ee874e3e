-- ===== src/JsMap.antt =====
-- A JavaScript `Map` with text keys, as the stores of core/ and http/ use it: a list of entries in
-- insertion order. Writing to a key that is there keeps its place.
pub mod Laws
pub mod Sizes
use avito_mcp.Prelude.{
  ℕ, String, Bool, Option, none, some, List, [], ◌∷◌, map, length, is_some, ◌==◌, if◌then◌else◌,
}

abbrev pub JsMap {ℓ} : Type ℓ → Type ℓ
JsMap V = List (String × V)

module _ {ℓ} {V : Type ℓ} where
  -- `map.get(k)`
  unfoldable pub get : JsMap V → String → Option V
  get [] k = none
  get ((j, v) ∷ m) k = if j == k then some v else get m k

  -- `map.has(k)`
  abbrev pub has : JsMap V → String → Bool
  has m k = is_some (get m k)

  -- `map.set(k, v)`
  unfoldable pub put : JsMap V → String → V → JsMap V
  put [] k v = (k, v) ∷ []
  put ((j, w) ∷ m) k v = if j == k then (j, v) ∷ m else (j, w) ∷ put m k v

  -- `map.delete(k)`; what it returns is `has` before
  unfoldable pub remove : JsMap V → String → JsMap V
  remove [] k = []
  remove ((j, v) ∷ m) k = if j == k then remove m k else (j, v) ∷ remove m k

  -- `map.size`
  unfoldable pub size : JsMap V → ℕ
  size m = length m

  -- `[...map.values()]`
  unfoldable pub values : JsMap V → List V
  values m = map (λ e. e.1) m

  -- `for (const [k, v] of map) if (!keep(k, v)) map.delete(k)`
  unfoldable pub retain : (String → V → Bool) → JsMap V → JsMap V
  retain keep [] = []
  retain keep ((k, v) ∷ m) = if keep k v then (k, v) ∷ retain keep m else remove (retain keep m) k

  -- `for (const [k, v] of map) map.set(k, f(v))`
  unfoldable pub map_values : (V → V) → JsMap V → JsMap V
  map_values f [] = []
  map_values f ((k, v) ∷ m) = (k, f v) ∷ map_values f m

abbrev pub mapped {ℓ} : {V : Type ℓ} → (V → V) → Option V → Option V
mapped f none = none
mapped f (some v) = some (f v)

abbrev pub kept {ℓ} : {V : Type ℓ} → (String → V → Bool) → String → Option V → Option V
kept keep k none = none
kept keep k (some v) = if keep k v then some v else none
