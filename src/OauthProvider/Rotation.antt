-- ===== src/OauthProvider/Rotation.antt =====
-- What a refresh of http/oauth/provider.ts takes away and what it gives.
use avito_mcp.Prelude.{
  ℕ, String, ◌+◌, ◌*◌, ◌<◌, ◌≡◌, ◌⊎◌, inl, inr, refl, true, false, not, ◌&&◌, Option, none, some,
  List, arith, includes, all, ◌==◌, eq_iff, ap, sym, ◌∙◌, if_cases, leb,
}
use mathlib.Core.Path.{subst}
use avito_mcp.JsMap.{get, has}
use avito_mcp.JsMap.Laws.{get-remove_self}
use avito_mcp.OauthStore.{TokenRecord, Store}
use avito_mcp.OauthStore.Tokens.{
  get_refresh_token, delete_access_token, delete_refresh_token, live_refresh,
}
use avito_mcp.OauthProvider.{
  Provider, Secrets, OauthTokens, Grant, granted, denied, Error, issue_tokens, verify_access_token,
  is_expected_resource,
}
use avito_mcp.OauthProvider.Exchange.{
  exchange_refresh_token, exchange_found, refresh_granted, rotate, rotate_access, delete_paired,
  narrow, Narrowed, refused_scopes, narrowed_to,
}
use avito_mcp.OauthProvider.Grants.{IsScoped, issue_tokens-IsIssued, verify-new_access, new_access}
use avito_mcp.OauthProvider.Narrowing.{narrow-IsScoped}

module _ (p : Provider) (now : ℕ) (fresh : Secrets) (client_id token : String)
    (scopes : List String) (resource : Option String) (s : Store) (rec : TokenRecord)
    (found : get s.refresh_tokens token ≡ some rec) where
  -- the access token that an old refresh token is paired with, if it is, is not there
  abbrev IsUnpaired : Option String → Store → Type 0
  IsUnpaired none u = Unit
  IsUnpaired (some a) u = (a ≡ "") ⊎ (get u.access_tokens a ≡ none)

  -- neither token of the old pair is there
  abbrev IsDropped : Store → Type 0
  IsDropped u = (get u.refresh_tokens token ≡ none) × IsUnpaired rec.access_token u

  module _ (P : Store × Grant → Type 0) (refused : (t : Store) (e : Error) → P (t, denied e)) where
    rotate_access-cases :
        (narrowed : List String) (t : Store) (o : Option String)
        → get t.refresh_tokens token ≡ none
        → ((u : Store)
            → get u.refresh_tokens token ≡ none
            → IsUnpaired o u
            → P (issue_tokens p now fresh client_id narrowed u))
        → P (rotate_access p now fresh client_id narrowed t (delete_paired p o t))
    unfolding delete_access_token
    rotate_access-cases narrowed t none gone ok = ok t gone tt
    rotate_access-cases narrowed t (some a) gone ok =
        let next : Option Store → Store × Grant =
          λ o. rotate_access p now fresh client_id narrowed t o in
        if_cases (λ o. P (next o)) (a == "") _ _
          (λ empty. ok t gone (inl (ground (arith, empty, eq_iff a ""))))
          (λ _.
            if_cases (λ o. P (next o)) t.closing _ _ (λ _. refused t _)
              (λ _.
                if_cases (λ o. P (next o)) (has t.access_tokens a) _ _
                  (λ _. ok _ gone (inr (get-remove_self t.access_tokens a)))
                  (λ none_there. ok t gone (inr (ground (arith, none_there))))))

    rotate-cases :
        (narrowed : List String)
        → ((u : Store) → IsDropped u → P (issue_tokens p now fresh client_id narrowed u))
        → P (rotate p now fresh client_id narrowed rec s (delete_refresh_token token s))
    unfolding delete_refresh_token
    rotate-cases narrowed ok =
        let next : Option Store → Store × Grant =
          λ o. rotate p now fresh client_id narrowed rec s o in
        if_cases (λ o. P (next o)) s.closing _ _ (λ _. refused s _)
          (λ _.
            if_cases (λ o. P (next o)) (has s.refresh_tokens token) _ _
              (λ _.
                rotate_access-cases narrowed _ rec.access_token
                  (get-remove_self s.refresh_tokens token)
                  (λ u gone unpaired. ok u (gone, unpaired)))
              (λ none_there. absurd (ground (arith, none_there, found))))

    refresh_granted-cases :
        (n : Narrowed)
        → ((narrowed : List String) (u : Store)
            → n ≡ narrowed_to narrowed
            → IsDropped u
            → P (issue_tokens p now fresh client_id narrowed u))
        → P (refresh_granted p now fresh client_id token resource rec s n)
    refresh_granted-cases (refused_scopes e) ok = refused s e
    refresh_granted-cases (narrowed_to narrowed) ok =
        if_cases P (not (is_expected_resource p resource && is_expected_resource p rec.resource)) _
          _ (λ _. refused s _) (λ _. rotate-cases narrowed (λ u gone. ok narrowed u refl gone))

    -- how an exchange can end
    exchange_refresh_token-cases :
        (rec.client_id ≡ client_id
          → now < rec.expires_at
          → (narrowed : List String) (u : Store) → narrow rec.scopes scopes ≡ narrowed_to narrowed
          → IsDropped u
          → P (issue_tokens p now fresh client_id narrowed u))
        → P (exchange_refresh_token p now fresh client_id token scopes resource s)
    unfolding exchange_refresh_token get_refresh_token
    exchange_refresh_token-cases ok =
        let next : Store × Option TokenRecord → Store × Grant =
          λ r. exchange_found p now fresh client_id token scopes resource r in
        subst (λ o. P (next (live_refresh now token o s))) (sym found)
          (if_cases (λ r. P (next r)) (leb rec.expires_at now) _ _ (λ _. refused _ _)
            (λ live.
              if_cases P (not (rec.client_id == client_id)) _ _ (λ _. refused s _)
                (λ own. refresh_granted-cases (narrow rec.scopes scopes) (
                  ok (ground (arith, own, eq_iff rec.client_id client_id))
                    (ground (arith, live))))))

  -- A refresh grants no scope that the old token did not have, and the access token that it grants is
  -- accepted, for the same client and with just the granted scopes, until its time is over. It is
  -- assumed that the old token had the scope that the server knows and no other, and that the server's
  -- own address is in normal form.
  pub exchange_refresh_token-verify :
      (k : OauthTokens) (later : ℕ)
      → IsScoped rec.scopes
      → p.normalized p.expected_resource ≡ some p.expected_resource
      → later < now + p.ttl_sec * 1000
      → (exchange_refresh_token p now fresh client_id token scopes resource s).1 ≡ granted k
      → let t = (exchange_refresh_token p now fresh client_id token scopes resource s).0 in
        (all (λ x. includes rec.scopes x) k.scope ≡ true)
        × ((verify_access_token p later k.access_token t).1
            ≡ some (new_access p now client_id k.scope))
  exchange_refresh_token-verify k later scoped same live h =
      exchange_refresh_token-cases
        (λ r.
          r.1 ≡ granted k
          → (all (λ x. includes rec.scopes x) k.scope ≡ true)
            × ((verify_access_token p later k.access_token r.0).1
                ≡ some (new_access p now client_id k.scope)))
        (λ t e g. ground (arith, g))
        (λ own not_over narrowed u n gone g.
          let (is_access, is_refresh, is_scope, at, keeps_access, keeps_refresh) =
            issue_tokens-IsIssued p now fresh client_id narrowed u k g in
          let (ok, within) = narrow-IsScoped rec.scopes scopes narrowed scoped n in
          (
            ap (λ xs. all (λ x. includes rec.scopes x) xs) is_scope ∙ within,
            ap
                  (λ j.
                    (verify_access_token p later j
                      (issue_tokens p now fresh client_id narrowed u).0).1)
                  is_access
                ∙ verify-new_access p now client_id narrowed later fresh.access _ same ok at live
                ∙ ap (λ xs. some (new_access p now client_id xs)) (sym is_scope),
          ))
        h

module _ (p : Provider) (now : ℕ) (fresh : Secrets) (client_id token : String)
    (scopes : List String) (resource : Option String) (s : Store) (rec : TokenRecord) (a : String)
    (found : get s.refresh_tokens token ≡ some rec) (paired : rec.access_token ≡ some a)
    (named : (a == "") ≡ false) where
  dropped :
      (o : Option String) (u : Store)
      → o ≡ some a
      → IsUnpaired p now fresh client_id token scopes resource s rec found o u
      → get u.access_tokens a ≡ none
  dropped none u e x = ground (arith, e)
  dropped (some b) u e (inl empty) = ground (arith, e, empty, eq_iff a "", named)
  dropped (some b) u e (inr gone) = ap (get u.access_tokens) (ground (arith, e)) ∙ gone

  -- A refresh that is granted is for the client of the presented token, which had not expired, and takes
  -- away the whole old pair: neither the refresh token nor the access token of the pair is there any more.
  -- It is assumed that the two new secrets are other ones.
  pub exchange_refresh_token-rotates :
      (k : OauthTokens)
      → (fresh.refresh == token) ≡ false
      → (fresh.access == a) ≡ false
      → (exchange_refresh_token p now fresh client_id token scopes resource s).1 ≡ granted k
      → let t = (exchange_refresh_token p now fresh client_id token scopes resource s).0 in
        (rec.client_id ≡ client_id)
        × (now < rec.expires_at)
        × (get t.refresh_tokens token ≡ none)
        × (get t.access_tokens a ≡ none)
  exchange_refresh_token-rotates k other other' h =
      exchange_refresh_token-cases p now fresh client_id token scopes resource s rec found
        (λ r.
          r.1 ≡ granted k
          → (rec.client_id ≡ client_id)
            × (now < rec.expires_at)
            × (get r.0.refresh_tokens token ≡ none)
            × (get r.0.access_tokens a ≡ none))
        (λ t e g. ground (arith, g))
        (λ own live narrowed u n (gone, gone') g.
          let (is_access, is_refresh, is_scope, at, keeps_access, keeps_refresh) =
            issue_tokens-IsIssued p now fresh client_id narrowed u k g in
          (
            own,
            live,
            keeps_refresh token other gone,
            keeps_access a other' (dropped rec.access_token u paired gone'),
          ))
        h
