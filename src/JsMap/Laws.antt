-- ===== src/JsMap/Laws.antt =====
-- What `get` shows after each operation on a `Map`, in a form with no side condition.
use avito_mcp.Prelude.{
  String, ◌≡◌, refl, Bool, none, some, [], ◌∷◌, arith, eq_iff, eq_refl, ◌==◌, if◌then◌else◌,
}
use avito_mcp.JsMap.{JsMap, get, put, remove, retain, kept, mapped, map_values}

module _ {ℓ} {V : Type ℓ} where
  pub get-put :
      (m : JsMap V) (k : String) (v : V) (j : String)
      → get (put m k v) j ≡ (if k == j then some v else get m j)
  unfolding get put
  get-put [] k v j = refl
  get-put ((i, w) ∷ m) k v j = ground (arith, eq_iff i k, eq_iff i j, eq_iff k j, get-put m k v j)

  pub get-remove :
      (m : JsMap V) (k j : String) → get (remove m k) j ≡ (if k == j then none else get m j)
  unfolding get remove
  get-remove [] k j = ground arith
  get-remove ((i, w) ∷ m) k j = ground (arith, eq_iff i k, eq_iff i j, eq_iff k j, get-remove m k j)

  pub get-put_self : (m : JsMap V) (k : String) (v : V) → get (put m k v) k ≡ some v
  get-put_self m k v = ground (arith, get-put m k v k, eq_refl k)

  pub get-remove_self : (m : JsMap V) (k : String) → get (remove m k) k ≡ none
  get-remove_self m k = ground (arith, get-remove m k k, eq_refl k)

  pub get-retain :
      (keep : String → V → Bool) (m : JsMap V) (j : String)
      → get (retain keep m) j ≡ kept keep j (get m j)
  unfolding get retain
  get-retain keep [] j = refl
  get-retain keep ((i, w) ∷ m) j =
      ground (arith, eq_iff i j, get-remove (retain keep m) i j, get-retain keep m j)

  pub get-map_values :
      (f : V → V) (m : JsMap V) (j : String) → get (map_values f m) j ≡ mapped f (get m j)
  unfolding get map_values
  get-map_values f [] j = refl
  get-map_values f ((i, w) ∷ m) j = ground (arith, get-map_values f m j)

  pub get-empty : (j : String) → get {V = V} [] j ≡ none
  unfolding get
  get-empty j = refl

pub ruleset map_laws = (get-put, get-remove, get-retain, get-map_values, get-empty)
