-- ===== src/Json.antt =====
-- Parsed JSON, the `unknown` of the sources. Numbers are natural numbers: no modelled code computes
-- with a negative or a fractional one.
pub mod Laws
use avito_mcp.Prelude.{ℕ, String, ◌+◌, Bool, Option, none, some, ◌==◌, if◌then◌else◌}

mutual
  -- the properties of an object, in their order
  pub data Properties : Type 0 where
    no_more : Properties
    has_property : (name : String) (value : Json) (others : Properties) → Properties

  -- the items of an array
  pub data Items : Type 0 where
    no_items : Items
    item : (first : Json) (others : Items) → Items

  pub data Json : Type 0 where
    obj : Properties → Json
    arr : Items → Json
    str : String → Json
    num : ℕ → Json
    bool : Bool → Json
    null : Json

-- the first property of that name; a JSON object read by `JSON.parse` has one
abbrev pub find_property : Properties → String → Option Json
find_property no_more k = none
find_property (has_property name v others) k = if name == k then some v else find_property others k

-- `v?.[k]` on a parsed value
abbrev pub field : Json → String → Option Json
field (obj ps) k = find_property ps k
field _ k = none

-- `o[k] = v`
unfoldable pub set_property : Properties → String → Json → Properties
set_property no_more k v = has_property k v no_more
set_property (has_property j w others) k v =
    if j == k then has_property j v others else has_property j w (set_property others k v)

-- `{ ...ps, ...qs }`
unfoldable pub spread : Properties → Properties → Properties
spread ps no_more = ps
spread ps (has_property k v qs) = spread (set_property ps k v) qs

-- the entries whose key passes a test, in their order
unfoldable pub pick : (String → Bool) → Properties → Properties
pick p no_more = no_more
pick p (has_property k v others) = if p k then has_property k v (pick p others) else pick p others

-- `items.length`
unfoldable pub count_items : Items → ℕ
count_items no_items = 0
count_items (item first others) = 1 + count_items others
