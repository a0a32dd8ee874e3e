-- ===== src/Json/Laws.antt =====
-- Looking up a property of a JSON object after it was written, picked or spread.
use avito_mcp.Prelude.{
  String, ◌≡◌, refl, Bool, false, Option, none, some, arith, ◌==◌, if◌then◌else◌, eq_iff, ap, sym,
  ◌∙◌,
}
use avito_mcp.Json.{
  Json, Properties, no_more, has_property, find_property, set_property, spread, pick,
}

pub find_property-set_property :
    (ps : Properties) (j k : String) (v : Json)
    → find_property (set_property ps j v) k ≡ (if j == k then some v else find_property ps k)
unfolding set_property
find_property-set_property no_more j k v = refl
find_property-set_property (has_property i w ps) j k v =
    ground (arith, eq_iff i j, eq_iff i k, eq_iff j k, find_property-set_property ps j k v)

-- the property of the later object, or else that of the earlier one
abbrev pub later_or : Option Json → Option Json → Option Json
later_or none earlier = earlier
later_or (some v) earlier = some v

-- no key stands twice
abbrev pub IsUnique : Properties → Type 0
IsUnique no_more = Unit
IsUnique (has_property k v ps) = (find_property ps k ≡ none) × IsUnique ps

pub find_property-spread :
    (ps qs : Properties) (k : String)
    → IsUnique qs
    → find_property (spread ps qs) k ≡ later_or (find_property qs k) (find_property ps k)
unfolding spread
find_property-spread ps no_more k u = refl
find_property-spread ps (has_property j v qs) k (once, u) =
    find_property-spread (set_property ps j v) qs k u
    ∙ ap (later_or (find_property qs k)) (find_property-set_property ps j k v)
    ∙ first_of k j (find_property qs k) (find_property ps k)
        (λ e. ap (find_property qs) (sym e) ∙ once)
  where
    first_of :
        (k j : String) (later earlier : Option Json)
        → (j ≡ k → later ≡ none)
        → later_or later (if j == k then some v else earlier)
          ≡ later_or (if j == k then some v else later) earlier
    first_of k j none earlier h = ground (arith, eq_iff j k)
    first_of k j (some w) earlier h = ground (arith, eq_iff j k, h)

pub find_property-pick :
    (p : String → Bool) (ps : Properties) (k : String)
    → find_property (pick p ps) k ≡ (if p k then find_property ps k else none)
unfolding pick
find_property-pick p no_more k = ground arith
find_property-pick p (has_property j v ps) k = ground (arith, eq_iff j k, find_property-pick p ps k)

pub IsUnique-pick : (p : String → Bool) (ps : Properties) → IsUnique ps → IsUnique (pick p ps)
unfolding pick
IsUnique-pick p no_more u = u
IsUnique-pick p (has_property k v ps) (once, u) =
    ground (arith, find_property-pick p ps k, once, IsUnique-pick p ps u)

-- writing a property that is not picked changes nothing
pub pick-set_property :
    (p : String → Bool) (ps : Properties) (k : String) (v : Json)
    → p k ≡ false
    → pick p (set_property ps k v) ≡ pick p ps
unfolding pick set_property
pick-set_property p no_more k v out = ground (arith, out)
pick-set_property p (has_property j w ps) k v out =
    ground (arith, eq_iff j k, out, pick-set_property p ps k v out)
