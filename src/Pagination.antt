-- ===== src/Pagination.antt =====
-- Cursor pagination of the list operations: core/pagination.ts. The text form of a cursor (base64url of
-- JSON) and the digest of the list are arguments.
pub mod Boundaries
pub mod Walk
mod Tests
use Prim.Native.Char.{code}
use Prim.Native.String.{len}
use avito_mcp.Json.{Json, num, str, field}
use avito_mcp.Prelude.{
  ℕ, String, ◌+◌, ◌-◌, ◌*◌, ◌==◌, Bool, true, false, ◌&&◌, ◌||◌, leb, Option, none, some, List, [],
  ◌∷◌, ltb, eqb, take, drop, map, if◌then◌else◌, zero, suc, ◌++◌,
}

abbrev max_safe_integer : ℕ
max_safe_integer = 9007199254740991

-- `CursorPayload`
pub record CursorPayload : Type 0 where
  pub version : ℕ
  pub method : String
  pub offset : ℕ
  pub fingerprint : String

abbrev pub list_page_bytes : ℕ
list_page_bytes = 48 * 1024

abbrev pub cursor_version : ℕ
cursor_version = 1

-- Where the next pages start, when the present one started at `last` and holds `used` bytes of the
-- items before `index`.
unfoldable pub boundaries_from : (index last used : ℕ) → List ℕ → List ℕ
boundaries_from index last used [] = []
boundaries_from index last used (size ∷ sizes) =
    let full = ltb last index && ltb list_page_bytes (used + size) in
    let rest =
      boundaries_from (suc index) (if full then index else last)
        (if full then size else used + size) sizes in
    if full then index ∷ rest else rest

unfoldable pub page_boundaries : List ℕ → List ℕ
page_boundaries sizes = 0 ∷ boundaries_from 0 0 0 sizes

abbrev step_on : Option ℕ → Option ℕ
step_on none = none
step_on (some k) = some (suc k)

-- `indexOf`, and an element of an array by its index
unfoldable pub index_of : ℕ → List ℕ → Option ℕ
index_of x [] = none
index_of x (y ∷ ys) = if eqb y x then some 0 else step_on (index_of x ys)

unfoldable pub at : List ℕ → ℕ → Option ℕ
at [] k = none
at (x ∷ xs) zero = some x
at (x ∷ xs) (suc k) = at xs k

-- `[A-Za-z0-9_-]`
abbrev in_alphabet : ℕ → Bool
in_alphabet c =
    (leb 65 c && leb c 90)
    || (leb 97 c && leb c 122)
    || (leb 48 c && leb c 57)
    || eqb c 95
    || eqb c 45

unfoldable pub all_in_alphabet : String → Bool
all_in_alphabet String.[] = true
all_in_alphabet (String.◌∷◌ c s) = in_alphabet (code c) && all_in_alphabet s

abbrev payload_of : Option Json → Option Json → Option Json → Option Json → Option CursorPayload
payload_of (some (num v)) (some (str m)) (some (num o)) (some (str f)) =
    if eqb v cursor_version && leb o max_safe_integer
    then some (record { version = v; method = m; offset = o; fingerprint = f })
    else none
payload_of _ _ _ _ = none

abbrev pub payload_in : Option Json → Option CursorPayload
payload_in none = none
payload_in (some j) = payload_of (field j "v") (field j "m") (field j "o") (field j "f")

-- `decodeCursor`; `parse` decodes base64url and parses the JSON, and is `none` where that throws
unfoldable pub decode_cursor : (parse : String → Option Json) → String → Option CursorPayload
decode_cursor parse raw =
    if eqb (len raw) 0 || ltb 512 (len raw)
    then none
    else if all_in_alphabet raw
    then payload_in (parse raw)
    else none

-- `params?.cursor` of a request
pub data Cursor : Type 0 where
  absent : Cursor
  text : String → Cursor
  malformed : Cursor

pub data Error : Type 0 where
  invalid_cursor shape_changed : Error

-- a result: its items, and the cursor of the next page
pub record Page {ℓ} (A : Type ℓ) : Type ℓ where
  pub items : List A
  pub next_cursor : Option String

pub data Response {ℓ} (A : Type ℓ) : Type ℓ where
  failure : Error → Response A
  success : Page A → Response A

-- What the handler uses besides: base64url and JSON both ways, the digest of the serialized list, and
-- the size of an item.
pub record Codec {ℓ} (A : Type ℓ) : Type ℓ where
  pub parse : String → Option Json
  pub print : CursorPayload → String
  pub digest : List A → String
  pub size : A → ℕ

module _ {ℓ} {A : Type ℓ} (codec : Codec A) (method : String) where
  abbrev pub starts_of : List A → List ℕ
  starts_of items = page_boundaries (map codec.size items)

  abbrev pub minted : List A → ℕ → String
  minted items o = codec.print (record {
    version = cursor_version;
    method = method;
    offset = o;
    fingerprint = codec.digest items;
  })

  abbrev pub page_between : List A → ℕ → Option ℕ → Page A
  page_between items from none = record { items = drop from items; next_cursor = none }
  page_between items from (some to) = record {
    items = take (to - from) (drop from items);
    next_cursor = some (minted items to);
  }

  abbrev pub page_at : List A → ℕ → Option ℕ → Response A
  page_at items k none = failure invalid_cursor
  page_at items k (some from) = success (page_between items from (at (starts_of items) (suc k)))

  -- the index of the page that a cursor asks for
  abbrev pub turn_to : List A → Option ℕ → Response A
  turn_to items none = failure invalid_cursor
  turn_to items (some zero) = failure invalid_cursor
  turn_to items (some (suc k)) = page_at items (suc k) (at (starts_of items) (suc k))

  abbrev pub locate : List A → Option CursorPayload → Response A
  locate items none = failure invalid_cursor
  locate items (some p) =
      if (p.method == method) && (p.fingerprint == codec.digest items)
      then turn_to items (index_of p.offset (starts_of items))
      else failure invalid_cursor

  abbrev answer : Cursor → List A → Response A
  answer malformed items = failure invalid_cursor
  answer absent items = page_at items 0 (at (starts_of items) 0)
  answer (text raw) items = locate items (decode_cursor codec.parse raw)

  -- `stored` is the list of the wrapped handler, if its result has one
  unfoldable pub paginate : Cursor → Option (List A) → Response A
  paginate malformed stored = failure invalid_cursor
  paginate cursor none = failure shape_changed
  paginate cursor (some items) = answer cursor items
