-- ===== src/TokenStore/Renewal.antt =====
-- Which token core/token-store.ts hands out.
use avito_mcp.Prelude.{
  ℕ, String, ◌+◌, ◌<◌, ◌≡◌, ◌⊎◌, inl, inr, refl, Bool, true, Option, none, some, arith, ◌==◌,
  eq_iff, if◌then◌else◌, if_cases, ap, ◌∙◌, is_some,
}
use mathlib.Core.Option.{map as map_option}
use avito_mcp.Json.{null, obj, arr, str, num, bool}
use avito_mcp.TokenStore.{
  TokenRecord, File, missing, unreadable, holds, Fresh, skew_ms, read_file, file_of, Store, is_live,
  new_record, renewed, refresh, get_token, invalidate, dropped,
}

-- A record that was written is read back by the account that wrote it, and by no other.
pub read_file-file_of :
    (fingerprint : String) (r : TokenRecord)
    → read_file fingerprint (file_of r)
      ≡ (if r.account_fingerprint == fingerprint then some r else none)
unfolding read_file file_of
read_file-file_of fingerprint r = ground (arith, eq_iff r.account_fingerprint fingerprint)

-- the token was live when the clock was read, or it is the one that was fetched
abbrev pub IsUsable : String → (now refresh_at fetched_at : ℕ) → Option Fresh → TokenRecord → Type 0
IsUsable fingerprint now refresh_at fetched_at fetched r =
    (now + skew_ms < r.expires_at)
    ⊎ (refresh_at + skew_ms < r.expires_at)
    ⊎ ((fresh : Fresh) × (fetched ≡ some fresh) × (r ≡ new_record fingerprint fetched_at fresh))

module _ (fingerprint : String) (now refresh_at : ℕ) (fetched : Option Fresh) (fetched_at : ℕ)
    (ok : Bool) where
  renewed-fetched :
      (o : Option Fresh) (s : Store) (r : TokenRecord)
      → (renewed fingerprint fetched_at ok o s).1 ≡ some r
      → (fresh : Fresh) × (o ≡ some fresh) × (r ≡ new_record fingerprint fetched_at fresh)
  renewed-fetched none s r h = ground (arith, h)
  renewed-fetched (some fresh) s r h = (fresh, refl, ground (arith, h))

  live_lem :
      (at : ℕ) (o : Option TokenRecord) (r : TokenRecord)
      → is_live at o ≡ true
      → o ≡ some r
      → at + skew_ms < r.expires_at
  live_lem at none r live e = ground (arith, e)
  live_lem at (some q) r live e =
      let same : q ≡ r = ground (arith, e) in
      ground (arith, live, ap (λ (x : TokenRecord). x.expires_at) same)

  refresh-IsUsable :
      (s : Store) (r : TokenRecord)
      → (refresh fingerprint refresh_at fetched fetched_at ok s).1 ≡ some r
      → IsUsable fingerprint now refresh_at fetched_at fetched r
  unfolding refresh
  refresh-IsUsable s r =
      if_cases {A = Store × Option TokenRecord}
        (λ x. x.1 ≡ some r → IsUsable fingerprint now refresh_at fetched_at fetched r)
        (is_live refresh_at (read_file fingerprint s.file)) _ _
        (λ live h. inr (inl (live_lem refresh_at (read_file fingerprint s.file) r live h)))
        (λ _ h. inr (inr (renewed-fetched fetched s r h)))

  -- A token that is handed out had more than a minute to go when the clock was last read for it, or it was
  -- fetched by this very call.
  pub get_token-IsUsable :
      (s : Store) (r : TokenRecord)
      → (get_token fingerprint now refresh_at fetched fetched_at ok s).1 ≡ some r
      → IsUsable fingerprint now refresh_at fetched_at fetched r
  unfolding get_token
  get_token-IsUsable s r =
      let P : Store × Option TokenRecord → Type 0 =
        λ x. x.1 ≡ some r → IsUsable fingerprint now refresh_at fetched_at fetched r in
      if_cases P (is_live now s.cache) _ _ (λ live h. inl (live_lem now s.cache r live h))
        (λ _.
          if_cases P (is_some s.cache) _ _ (λ _ h. refresh-IsUsable s r h)
            (λ _.
              if_cases P (is_live now (read_file fingerprint s.file)) _ _
                (λ live h. inl (live_lem now (read_file fingerprint s.file) r live h))
                (λ _ h. refresh-IsUsable s r h)))

module _ (fingerprint : String) (refresh_at : ℕ) (fetched : Option Fresh) (fetched_at : ℕ)
    (ok : Bool) where
  dropped_lem :
      (file : File)
      → (dropped fingerprint file).1 ≡ true
      → read_file fingerprint (dropped fingerprint file).0 ≡ none
  unfolding read_file
  dropped_lem missing h = refl
  dropped_lem unreadable h = ground (arith, h)
  dropped_lem (holds (obj ps)) h = ground (arith, h)
  dropped_lem (holds (arr items)) h = refl
  dropped_lem (holds (str x)) h = refl
  dropped_lem (holds (num n)) h = refl
  dropped_lem (holds (bool b)) h = refl
  dropped_lem (holds null) h = ground (arith, h)

  renewed-mapped :
      (o : Option Fresh) (s : Store)
      → (renewed fingerprint fetched_at ok o s).1 ≡ map_option (new_record fingerprint fetched_at) o
  renewed-mapped none s = refl
  renewed-mapped (some fresh) s = refl

  -- After a token was invalidated nothing that was remembered or stored is handed out: a refresh gives the
  -- token that it fetches, and fails if fetching fails.
  pub invalidate-refresh :
      (s : Store)
      → (invalidate fingerprint s).1 ≡ true
      → (refresh fingerprint refresh_at fetched fetched_at ok (invalidate fingerprint s).0).1
        ≡ map_option (new_record fingerprint fetched_at) fetched
  unfolding refresh invalidate
  invalidate-refresh s h =
      let t = (invalidate fingerprint s).0 in
      ap
        (λ o.
          (if is_live refresh_at o
            then (record t { cache = o }, o)
            else renewed fingerprint fetched_at ok fetched t).1)
        (dropped_lem s.file h)
      ∙ renewed-mapped fetched t
