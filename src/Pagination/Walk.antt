-- ===== src/Pagination/Walk.antt =====
-- What a client of core/pagination.ts gets that follows the cursors.
use avito_mcp.Prelude.{
  ℕ, String, ◌+◌, ◌-◌, ◌≤◌, ◌<◌, ◌≡◌, refl, Option, none, some, List, [], ◌∷◌, take, drop, length,
  map, zero, suc, ◌++◌, arith, ap, ◌∙◌, sym, eq_refl,
}
use avito_mcp.Pagination.{
  page_boundaries, at, cursor_version, decode_cursor, Cursor, absent, text, malformed, Response,
  failure, success, Codec, starts_of, minted, page_between, page_at, paginate,
}
use avito_mcp.Pagination.Boundaries.{
  page_boundaries-Increasing, length-page_boundaries, at-page_boundaries-le, index_of-at, at-lt,
  at-length,
}

module _ {A : Type 0} where
  take-drop : (n : ℕ) (xs : List A) → take n xs ++ drop n xs ≡ xs
  take-drop zero xs = refl
  take-drop (suc n) [] = refl
  take-drop (suc n) (x ∷ xs) = ap (λ ys. x ∷ ys) (take-drop n xs)

  drop-empty : (n : ℕ) → drop {A = A} n [] ≡ []
  drop-empty zero = refl
  drop-empty (suc n) = refl

  drop-drop : (m n : ℕ) (xs : List A) → drop n (drop m xs) ≡ drop (m + n) xs
  drop-drop zero n xs = ground arith
  drop-drop (suc m) zero [] = ground (arith, drop-empty (suc m + 0))
  drop-drop (suc m) (suc n) [] = ground (arith, drop-empty (suc m + suc n))
  drop-drop (suc m) n (x ∷ xs) =
      drop-drop m n xs
      ∙ ap (λ j. drop j (x ∷ xs)) (let e : suc (m + n) ≡ suc m + n = omega arith in e)

  slice-drop :
      (from to : ℕ) (xs : List A)
      → from ≤ to
      → take (to - from) (drop from xs) ++ drop to xs ≡ drop from xs
  slice-drop from to xs h =
      ap (λ n. take (to - from) (drop from xs) ++ drop n xs)
        (let e : to ≡ from + (to - from) = omega arith in e)
      ∙ ap (λ ys. take (to - from) (drop from xs) ++ ys) (sym (drop-drop from (to - from) xs))
      ∙ take-drop (to - from) (drop from xs)

  length-map : (f : A → ℕ) (xs : List A) → length (map f xs) ≡ length xs
  length-map f [] = refl
  length-map f (x ∷ xs) = ground (arith, length-map f xs)

abbrev next_cursor_of : Option String → Cursor
next_cursor_of none = malformed
next_cursor_of (some raw) = text raw

module _ {A : Type 0} where
  abbrev joined : List A → Option String → Option (List A) → Option (List A)
  joined page none rest = some page
  joined page (some raw) none = none
  joined page (some raw) (some rest) = some (page ++ rest)

  abbrev pub next_of : Response A → Cursor
  next_of (failure e) = malformed
  next_of (success p) = next_cursor_of p.next_cursor

  abbrev pub gather : Response A → Option (List A) → Option (List A)
  gather (failure e) rest = none
  gather (success p) rest = joined p.items p.next_cursor rest

module _ {A : Type 0} (codec : Codec A) (method : String) (items : List A) where
  -- the items of at most `fuel` pages, from the one that a cursor asks for to the last
  unfoldable pub walk : (fuel : ℕ) → Cursor → Option (List A)
  walk zero cursor = none
  walk (suc fuel) cursor =
      gather (paginate codec method cursor (some items))
        (walk fuel (next_of (paginate codec method cursor (some items))))

  -- a cursor that was minted for this list is read back
  abbrev pub ReadsBack : Type 0
  ReadsBack =
      (o : ℕ)
      → o ≤ length items
      → decode_cursor codec.parse (minted codec method items o)
        ≡ some (record {
          version = cursor_version;
          method = method;
          offset = o;
          fingerprint = codec.digest items;
        })

  start-le : (k o : ℕ) → at (starts_of codec method items) k ≡ some o → o ≤ length items
  start-le k o e =
      omega (arith, at-page_boundaries-le (map codec.size items) k o e, length-map codec.size items)

  paginate-minted :
      (o k : ℕ)
      → ReadsBack
      → at (starts_of codec method items) (suc k) ≡ some o
      → paginate codec method (text (minted codec method items o)) (some items)
        ≡ page_at codec method items (suc k) (some o)
  unfolding paginate
  paginate-minted o k reads e = ground (
    arith,
    reads o (start-le (suc k) o e),
    eq_refl method,
    eq_refl (codec.digest items),
    index_of-at 0 (starts_of codec method items) (suc k) o
        (page_boundaries-Increasing (map codec.size items)) e,
  )

  gathered :
      (fuel from : ℕ) (next : Option ℕ)
      → ((to : ℕ) → next ≡ some to → from < to)
      → ((to : ℕ)
          → next ≡ some to
          → walk fuel (text (minted codec method items to)) ≡ some (drop to items))
      → gather
          (success (page_between codec method items from next))
          (walk fuel (next_of (success (page_between codec method items from next))))
        ≡ some (drop from items)
  gathered fuel from none later rest = refl
  gathered fuel from (some to) later rest =
      ap (λ r. gather (success (page_between codec method items from (some to))) r) (rest to refl)
      ∙ ap some (slice-drop from to items (omega (arith, later to refl)))

  walk-page :
      (fuel k from : ℕ) (cursor : Cursor)
      → ReadsBack
      → at (starts_of codec method items) k ≡ some from
      → length (starts_of codec method items) ≤ fuel + k
      → paginate codec method cursor (some items) ≡ page_at codec method items k (some from)
      → walk fuel cursor ≡ some (drop from items)
  unfolding walk
  walk-page zero k from cursor reads e enough p =
      ground (arith, at-length (starts_of codec method items) k from e)
  walk-page (suc fuel) k from cursor reads e enough p =
      let starts = starts_of codec method items in
      ap (λ r. gather r (walk fuel (next_of r))) p
      ∙ gathered fuel from (at starts (suc k))
          (λ to f. at-lt 0 starts k from to (page_boundaries-Increasing (map codec.size items)) e f)
          (λ to f.
            walk-page fuel (suc k) to (text (minted codec method items to)) reads f
              (omega (arith, enough)) (paginate-minted to k reads f))

  -- A client that starts without a cursor and follows each page's cursor gets the whole list, in order
  -- and each item once, with at most one page more than there are items. It is assumed that the text of
  -- a cursor that was minted for this list is read back as what was printed.
  pub walk_complete : (fuel : ℕ) → ReadsBack → length items < fuel → walk fuel absent ≡ some items
  unfolding paginate at page_boundaries
  walk_complete fuel reads enough =
      walk-page fuel 0 0 absent reads refl
        (omega (
          arith,
          length-page_boundaries (map codec.size items),
          length-map codec.size items,
          enough,
        ))
        refl
