-- ===== src/Pagination/Boundaries.antt =====
-- The page partition of core/pagination.ts: where pages start, and how an offset finds its page.
use avito_mcp.Prelude.{
  ℕ, ◌+◌, ◌≤◌, ◌<◌, ◌≡◌, Bool, true, false, some, List, [], ◌∷◌, ltb, length, if◌then◌else◌, zero,
  suc, arith, ◌&&◌, ◌⊎◌, inl, inr,
}
use avito_mcp.Pagination.{boundaries_from, page_boundaries, index_of, at, list_page_bytes}

-- each element is at least `low` and more than the one before it
abbrev pub Increasing : (low : ℕ) → List ℕ → Type 0
Increasing low [] = Unit
Increasing low (x ∷ xs) = (low ≤ x) × Increasing (suc x) xs

Increasing-le : (low high : ℕ) (xs : List ℕ) → low ≤ high → Increasing high xs → Increasing low xs
Increasing-le low high [] l h = tt
Increasing-le low high (x ∷ xs) l (h, hs) = (omega (arith, l, h), hs)

grown :
    (index : ℕ) (full : Bool) (rest : List ℕ)
    → Increasing (suc index) rest
    → Increasing index (if full then index ∷ rest else rest)
grown index true rest h = (omega arith, h)
grown index false rest h = Increasing-le index (suc index) rest (omega arith) h

boundaries_from-Increasing :
    (index last used : ℕ) (sizes : List ℕ)
    → Increasing index (boundaries_from index last used sizes)
unfolding boundaries_from
boundaries_from-Increasing index last used [] = tt
boundaries_from-Increasing index last used (size ∷ sizes) =
    grown index (ltb last index && ltb list_page_bytes (used + size)) _ (
      boundaries_from-Increasing (suc index)
        (if ltb last index && ltb list_page_bytes (used + size) then index else last)
        (if ltb last index && ltb list_page_bytes (used + size) then size else used + size) sizes)

pub page_boundaries-Increasing : (sizes : List ℕ) → Increasing 0 (page_boundaries sizes)
unfolding page_boundaries boundaries_from
page_boundaries-Increasing [] = (omega arith, tt)
page_boundaries-Increasing (size ∷ sizes) =
    (omega arith, boundaries_from-Increasing 1 0 (0 + size) sizes)

length-boundaries_from :
    (index last used : ℕ) (sizes : List ℕ)
    → length (boundaries_from index last used sizes) ≤ length sizes
unfolding boundaries_from
length-boundaries_from index last used [] = omega arith
length-boundaries_from index last used (size ∷ sizes) = ground (
  arith,
  length-boundaries_from (suc index) index size sizes,
  length-boundaries_from (suc index) last (used + size) sizes,
)

pub length-page_boundaries : (sizes : List ℕ) → length (page_boundaries sizes) ≤ suc (length sizes)
unfolding page_boundaries
length-page_boundaries sizes = omega (arith, length-boundaries_from 0 0 0 sizes)

at-ge : (low : ℕ) (xs : List ℕ) (k x : ℕ) → Increasing low xs → at xs k ≡ some x → low ≤ x
unfolding at
at-ge low [] k x h e = ground arith
at-ge low (y ∷ ys) zero x (h, hs) e = ground arith
at-ge low (y ∷ ys) (suc k) x (h, hs) e = omega (arith, h, at-ge (suc y) ys k x hs e)

pub index_of-at :
    (low : ℕ) (xs : List ℕ) (k x : ℕ)
    → Increasing low xs
    → at xs k ≡ some x
    → index_of x xs ≡ some k
unfolding at index_of
index_of-at low [] k x h e = ground arith
index_of-at low (y ∷ ys) zero x (h, hs) e = ground arith
index_of-at low (y ∷ ys) (suc k) x (h, hs) e =
    ground (arith, at-ge (suc y) ys k x hs e, index_of-at (suc y) ys k x hs e)

pub at-lt :
    (low : ℕ) (xs : List ℕ) (k x y : ℕ)
    → Increasing low xs
    → at xs k ≡ some x
    → at xs (suc k) ≡ some y
    → x < y
unfolding at
at-lt low [] k x y h e f = ground arith
at-lt low (z ∷ zs) zero x y (h, hs) e f = ground (arith, at-ge (suc z) zs 0 y hs)
at-lt low (z ∷ zs) (suc k) x y (h, hs) e f = at-lt (suc z) zs k x y hs e f

pub at-length : (xs : List ℕ) (k x : ℕ) → at xs k ≡ some x → k < length xs
unfolding at
at-length [] k x e = ground arith
at-length (y ∷ ys) zero x e = omega arith
at-length (y ∷ ys) (suc k) x e = omega (arith, at-length ys k x e)

at-pushed :
    (index k x : ℕ) (full : Bool) (rest : List ℕ)
    → at (if full then index ∷ rest else rest) k ≡ some x
    → (x ≡ index) ⊎ ((j : ℕ) × (at rest j ≡ some x))
unfolding at
at-pushed index zero x true rest e = inl (ground arith)
at-pushed index (suc k) x true rest e = inr (k, e)
at-pushed index k x false rest e = inr (k, e)

at-boundaries_from-le :
    (index last used : ℕ) (sizes : List ℕ) (k x : ℕ)
    → at (boundaries_from index last used sizes) k ≡ some x
    → x ≤ index + length sizes
unfolding boundaries_from at
at-boundaries_from-le index last used [] k x e = ground arith
at-boundaries_from-le index last used (size ∷ sizes) k x e =
    let full = ltb last index && ltb list_page_bytes (used + size) in
    elim (at-pushed index k x full _ e) [
      | inl here ↦ omega (arith, here)
      | inr (j, f) ↦ omega (
        arith,
        at-boundaries_from-le (suc index) (if full then index else last)
            (if full then size else used + size) sizes j x f,
      )
    ]

pub at-page_boundaries-le :
    (sizes : List ℕ) (k x : ℕ) → at (page_boundaries sizes) k ≡ some x → x ≤ length sizes
unfolding page_boundaries at
at-page_boundaries-le sizes zero x e = ground arith
at-page_boundaries-le sizes (suc k) x e = omega (arith, at-boundaries_from-le 0 0 0 sizes k x e)
