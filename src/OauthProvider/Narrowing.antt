-- ===== src/OauthProvider/Narrowing.antt =====
-- The scopes that a refresh of http/oauth/provider.ts asks for, against those of the old token.
use avito_mcp.Prelude.{
  String, ◌≡◌, refl, true, false, not, Option, none, some, List, [], ◌∷◌, arith, any, includes, all,
  ◌==◌, eq_iff, ap, if_cases,
}
use mathlib.Core.Path.{subst}
use avito_mcp.OauthProvider.{required_scope, normalize_scopes}
use avito_mcp.OauthProvider.Exchange.{narrow, narrow_from, narrow_to, narrowed_to}
use avito_mcp.OauthProvider.Grants.{IsScoped, normalize_scopes-IsScoped}

-- no member is another scope than the one that the server knows
abbrev IsOnly : List String → Type 0
IsOnly xs = any (λ x. not (x == required_scope)) xs ≡ false

includes-required :
    (old : List String) (x : String)
    → IsOnly old
    → includes old x ≡ true
    → (x == required_scope) ≡ true
includes-required [] x only h = ground (arith, h)
includes-required (y ∷ ys) x only h = ground (
  arith,
  only,
  h,
  eq_iff y x,
  eq_iff y required_scope,
  eq_iff x required_scope,
  includes-required ys x,
)

-- a list of which each member is in one that has no other scope
within-IsOnly :
    (old xs : List String)
    → IsOnly old
    → any (λ y. not (includes old y)) xs ≡ false
    → IsOnly xs × (all (λ y. includes old y) xs ≡ true)
within-IsOnly old [] only h = (refl, refl)
within-IsOnly old (x ∷ xs) only h =
    ground (arith, only, h, includes-required old x only, within-IsOnly old xs only)

IsOnly-within :
    (old xs : List String)
    → includes old required_scope ≡ true
    → IsOnly xs
    → all (λ x. includes old x) xs ≡ true
IsOnly-within old [] needed only = refl
IsOnly-within old (x ∷ xs) needed only =
    let e : x ≡ required_scope = ground (arith, only, eq_iff x required_scope) in
    ground (arith, ap (includes old) e, needed, IsOnly-within old xs needed, only)

narrow_from-IsScoped :
    (old asked scopes : List String) (o : Option (List String))
    → IsScoped old
    → normalize_scopes (some old) ≡ o
    → narrow_from old asked o ≡ narrowed_to scopes
    → IsScoped scopes × (all (λ x. includes old x) scopes ≡ true)
narrow_from-IsScoped old asked scopes none scoped e h = ground (arith, h)
narrow_from-IsScoped old [] scopes (some all_old) (needed, only) e h =
    let same : all_old ≡ scopes = ground (arith, h) in
    let ok = subst IsScoped same (normalize_scopes-IsScoped (some old) all_old e) in
    (ok, IsOnly-within old scopes needed ok.1)
narrow_from-IsScoped old (x ∷ xs) scopes (some all_old) (needed, only) e h =
    asked_for (normalize_scopes (some (x ∷ xs))) h
  where
    asked_for :
        (o : Option (List String))
        → narrow_to old (x ∷ xs) o ≡ narrowed_to scopes
        → IsScoped scopes × (all (λ y. includes old y) scopes ≡ true)
    asked_for none g = ground (arith, g)
    asked_for (some unique) g =
        if_cases
          (λ n.
            n ≡ narrowed_to scopes → IsScoped scopes × (all (λ y. includes old y) scopes ≡ true))
          (any (λ y. not (includes old y)) (x ∷ xs)) _ _ (λ wide e. ground (arith, e))
          (λ inside e.
            let same : x ∷ xs ≡ scopes = ground (arith, e) in
            let (ok, within) = within-IsOnly old (x ∷ xs) only inside in
            subst (λ ys. IsScoped ys × (all (λ y. includes old y) ys ≡ true)) same
              ((ground (arith, ok), ok), within))
          g

pub narrow-IsScoped :
    (old asked scopes : List String)
    → IsScoped old
    → narrow old asked ≡ narrowed_to scopes
    → IsScoped scopes × (all (λ x. includes old x) scopes ≡ true)
narrow-IsScoped old asked scopes scoped h =
    narrow_from-IsScoped old asked scopes (normalize_scopes (some old)) scoped refl h
