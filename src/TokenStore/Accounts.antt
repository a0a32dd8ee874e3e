-- ===== src/TokenStore/Accounts.antt =====
-- Tokens of core/token-store.ts stay with their account.
use avito_mcp.Prelude.{
  ℕ, String, ◌≡◌, refl, Bool, true, false, ◌&&◌, ◌||◌, Option, none, some, arith, ◌==◌, eq_iff,
  eq_refl, if_cases, sym, ◌∙◌, is_some, List, [], ◌∷◌, eqb,
}
use mathlib.Core.Path.{subst}
use avito_mcp.Json.{null, obj, arr, str, num, bool, find_property}
use avito_mcp.TokenStore.{
  is_text, TokenRecord, File, missing, unreadable, holds, Fresh, read_file, file_of, write_file,
  Store, is_live, new_record, renewed, refresh, get_token, invalidate, dropped,
}
use avito_mcp.TokenStore.Calls.{
  Call, gets, refreshes, invalidates, restarts, World, init, step_of, step, run,
}
use avito_mcp.TokenStore.Renewal.{read_file-file_of}

-- whether a call of an account fetched that token
abbrev fetches : Option Fresh → String → Bool
fetches none token = false
fetches (some fresh) token = fresh.access_token == token

abbrev fetched_in : Call → String → Bool
fetched_in (gets now refresh_at fetched fetched_at ok) token = fetches fetched token
fetched_in (refreshes now fetched fetched_at ok) token = fetches fetched token
fetched_in _ token = false

-- whether one of the calls fetched that token for that account
abbrev pub was_fetched : (accounts : ℕ → String) → List (ℕ × Call) → (account token : String) → Bool
was_fetched accounts [] account token = false
was_fetched accounts ((i, c) ∷ cs) account token =
    (accounts i == account) && fetched_in c token || was_fetched accounts cs account token

-- what is kept for an account was fetched for it, as `Issued` says
abbrev IsOwn : (String → String → Type 0) → String → Option TokenRecord → Type 0
IsOwn Issued account none = Unit
IsOwn Issued account (some r) = Issued account r.access_token

abbrev IsFetched : (String → String → Type 0) → String → Option Fresh → Type 0
IsFetched Issued account none = Unit
IsFetched Issued account (some fresh) = Issued account fresh.access_token

abbrev IsCallFetched : (String → String → Type 0) → String → Call → Type 0
IsCallFetched Issued account (gets now refresh_at fetched fetched_at ok) =
    IsFetched Issued account fetched
IsCallFetched Issued account (refreshes now fetched fetched_at ok) =
    IsFetched Issued account fetched
IsCallFetched Issued account _ = Unit

abbrev IsOwnFile : (String → String → Type 0) → File → Type 0
IsOwnFile Issued file = (account : String) → IsOwn Issued account (read_file account file)

module _ (Issued : String → String → Type 0) (account : String) where
  abbrev Keeps : Store × Option TokenRecord → Type 0
  Keeps x = IsOwn Issued account x.0.cache × IsOwnFile Issued x.0.file

  IsOwn-file_of :
      (r : TokenRecord)
      → r.account_fingerprint ≡ account
      → Issued account r.access_token
      → IsOwnFile Issued (file_of r)
  IsOwn-file_of r own issued other = subst (IsOwn Issued other) (sym (read_file-file_of other r)) (
      if_cases (IsOwn Issued other) (r.account_fingerprint == other) _ _
        (λ e.
          subst (λ x. Issued x r.access_token)
            (sym own
              ∙ (let same : r.account_fingerprint ≡ other =
                    ground (arith, e, eq_iff r.account_fingerprint other) in
                  same))
            issued)
        (λ _. tt))

  renewed-Keeps :
      (at : ℕ) (ok : Bool) (fetched : Option Fresh) (s : Store)
      → IsFetched Issued account fetched
      → Keeps (s, none)
      → Keeps (renewed account at ok fetched s)
  unfolding write_file
  renewed-Keeps at ok none s f k = k
  renewed-Keeps at ok (some fresh) s f (c, file) = (
    f,
    if_cases (IsOwnFile Issued) ok _ _ (λ _. IsOwn-file_of (new_record account at fresh) refl f)
        (λ _. file),
  )

  refresh-Keeps :
      (now at : ℕ) (ok : Bool) (fetched : Option Fresh) (s : Store)
      → IsFetched Issued account fetched
      → Keeps (s, none)
      → Keeps (refresh account now fetched at ok s)
  unfolding refresh
  refresh-Keeps now at ok fetched s f (c, file) =
      if_cases Keeps (is_live now (read_file account s.file)) _ _ (λ _. (file account, file))
        (λ _. renewed-Keeps at ok fetched s f (c, file))

  get_token-Keeps :
      (now refresh_at at : ℕ) (ok : Bool) (fetched : Option Fresh) (s : Store)
      → IsFetched Issued account fetched
      → Keeps (s, none)
      → Keeps (get_token account now refresh_at fetched at ok s)
  unfolding get_token
  get_token-Keeps now refresh_at at ok fetched s f (c, file) =
      if_cases Keeps (is_live now s.cache) _ _ (λ _. (c, file))
        (λ _.
          if_cases Keeps (is_some s.cache) _ _
            (λ _. refresh-Keeps refresh_at at ok fetched s f (c, file))
            (λ _.
              if_cases Keeps (is_live now (read_file account s.file)) _ _
                (λ _. (file account, file))
                (λ _. refresh-Keeps refresh_at at ok fetched s f (c, file))))

  dropped-IsOwnFile :
      (file : File) → IsOwnFile Issued file → IsOwnFile Issued (dropped account file).0
  unfolding read_file
  dropped-IsOwnFile missing own = own
  dropped-IsOwnFile unreadable own = own
  dropped-IsOwnFile (holds (obj ps)) own =
      if_cases {A = File × Bool} (λ r. IsOwnFile Issued r.0)
        (is_text (find_property ps "accountFingerprint") account) _ _ (λ _ other. tt) (λ _. own)
  dropped-IsOwnFile (holds (arr items)) own = own
  dropped-IsOwnFile (holds (str x)) own = own
  dropped-IsOwnFile (holds (num n)) own = own
  dropped-IsOwnFile (holds (bool b)) own = own
  dropped-IsOwnFile (holds null) own = own

  step_of-Keeps :
      (c : Call) (s : Store)
      → IsCallFetched Issued account c
      → Keeps (s, none)
      → Keeps (step_of account c s, none)
  unfolding step_of invalidate
  step_of-Keeps (gets now refresh_at fetched at ok) s f k =
      get_token-Keeps now refresh_at at ok fetched s f k
  step_of-Keeps (refreshes now fetched at ok) s f k = refresh-Keeps now at ok fetched s f k
  step_of-Keeps invalidates s f (c, file) = (tt, dropped-IsOwnFile s.file file)
  step_of-Keeps restarts s f (c, file) = (tt, file)

module _ (Issued : String → String → Type 0) (accounts : ℕ → String) where
  -- every cache and the file keep to their accounts
  abbrev pub IsApart : World → Type 0
  IsApart w = ((i : ℕ) → IsOwn Issued (accounts i) (w.caches i)) × IsOwnFile Issued w.file

  abbrev AllFetched : List (ℕ × Call) → Type 0
  AllFetched [] = Unit
  AllFetched ((i, c) ∷ cs) = IsCallFetched Issued (accounts i) c × AllFetched cs

  step-IsApart :
      (w : World) (i : ℕ) (c : Call)
      → IsCallFetched Issued (accounts i) c
      → IsApart w
      → IsApart (step accounts w (i, c))
  unfolding step
  step-IsApart w i c f (caches, file) =
      let s = step_of (accounts i) c (record { cache = w.caches i; file = w.file }) in
      let (own, own_file) =
        step_of-Keeps Issued (accounts i) c (record { cache = w.caches i; file = w.file }) f
          (caches i, file) in
      (
        λ j.
            if_cases (IsOwn Issued (accounts j)) (eqb i j) _ _
              (λ e.
                subst (λ k. IsOwn Issued (accounts k) s.cache)
                  (let same : i ≡ j = ground (arith, e) in same) own)
              (λ _. caches j),
        own_file,
      )

  run-IsApart :
      (w : World) (cs : List (ℕ × Call)) → AllFetched cs → IsApart w → IsApart (run accounts w cs)
  unfolding run
  run-IsApart w [] f apart = apart
  run-IsApart w ((i, c) ∷ cs) (f, fs) apart =
      run-IsApart (step accounts w (i, c)) cs fs (step-IsApart w i c f apart)

  init-IsApart : IsApart init
  unfolding init read_file
  init-IsApart = (λ i. tt, λ account. tt)

module _ (accounts : ℕ → String) where
  -- a longer history has fetched at least as much
  AllFetched-weaken :
      (Issued Issued' : String → String → Type 0) (cs : List (ℕ × Call))
      → ((account token : String) → Issued account token → Issued' account token)
      → AllFetched Issued accounts cs
      → AllFetched Issued' accounts cs
  AllFetched-weaken Issued Issued' [] more f = tt
  AllFetched-weaken Issued Issued' ((i, gets now refresh_at none at ok) ∷ cs) more (f, fs) =
      (tt, AllFetched-weaken Issued Issued' cs more fs)
  AllFetched-weaken Issued Issued' ((i, gets now refresh_at (some fresh) at ok) ∷ cs) more (f, fs) =
      (more (accounts i) fresh.access_token f, AllFetched-weaken Issued Issued' cs more fs)
  AllFetched-weaken Issued Issued' ((i, refreshes now none at ok) ∷ cs) more (f, fs) =
      (tt, AllFetched-weaken Issued Issued' cs more fs)
  AllFetched-weaken Issued Issued' ((i, refreshes now (some fresh) at ok) ∷ cs) more (f, fs) =
      (more (accounts i) fresh.access_token f, AllFetched-weaken Issued Issued' cs more fs)
  AllFetched-weaken Issued Issued' ((i, invalidates) ∷ cs) more (f, fs) =
      (tt, AllFetched-weaken Issued Issued' cs more fs)
  AllFetched-weaken Issued Issued' ((i, restarts) ∷ cs) more (f, fs) =
      (tt, AllFetched-weaken Issued Issued' cs more fs)

  abbrev pub InHistory : List (ℕ × Call) → String → String → Type 0
  InHistory cs account token = was_fetched accounts cs account token ≡ true

  head-IsCallFetched :
      (i : ℕ) (c : Call) (cs : List (ℕ × Call))
      → IsCallFetched (InHistory ((i, c) ∷ cs)) (accounts i) c
  head-IsCallFetched i (gets now refresh_at none at ok) cs = tt
  head-IsCallFetched i (gets now refresh_at (some fresh) at ok) cs =
      ground (arith, eq_refl (accounts i), eq_refl fresh.access_token)
  head-IsCallFetched i (refreshes now none at ok) cs = tt
  head-IsCallFetched i (refreshes now (some fresh) at ok) cs =
      ground (arith, eq_refl (accounts i), eq_refl fresh.access_token)
  head-IsCallFetched i invalidates cs = tt
  head-IsCallFetched i restarts cs = tt

  history-AllFetched : (cs : List (ℕ × Call)) → AllFetched (InHistory cs) accounts cs
  history-AllFetched [] = tt
  history-AllFetched ((i, c) ∷ cs) = (
    head-IsCallFetched i c cs,
    AllFetched-weaken (InHistory cs) (InHistory ((i, c) ∷ cs)) cs
        (λ account token h. ground (arith, h)) (history-AllFetched cs),
  )

  -- Whatever calls the processes make, the token that a process keeps was fetched by a process of the same
  -- account, and so was the token that an account reads from the file: a token never passes to another
  -- account.
  pub run-init-IsApart :
      (cs : List (ℕ × Call)) → IsApart (InHistory cs) accounts (run accounts init cs)
  run-init-IsApart cs =
      run-IsApart (InHistory cs) accounts init cs (history-AllFetched cs)
        (init-IsApart (InHistory cs) accounts)
