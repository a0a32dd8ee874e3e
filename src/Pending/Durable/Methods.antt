-- ===== src/Pending/Durable/Methods.antt =====
-- The `…Persistent` methods of core/pending-actions.ts. Each takes the times that it reads, the
-- directory and the calling process, and returns both beside its result.
use avito_mcp.Prelude.{
  ℕ, String, ◌+◌, Bool, true, false, ◌||◌, ◌&&◌, not, Option, none, some, ltb, leb, get_or, max,
  if◌then◌else◌,
}
use avito_mcp.JsMap.{get, has, put, remove}
use avito_mcp.Pending.{
  PendingAction, Input, deleted, ConfirmationFailureResult, not_found, emit, create, get_action,
  delete, take_action, complete, is_active, cleanup_expired, record_failed_confirmation,
}
use avito_mcp.Pending.Durable.{
  Record, Directory, Process, claimed, is_pending, has_path, max_safe_integer, to_record, in_store,
  drop_local, local_or_record,
}

-- `claim_at` is read when the claim is published
abbrev pub claimed_record : ℕ → Record → Record
claimed_record claim_at r = record r { state = some claimed; claimed_at = some claim_at }

module _ {ℓ} {E : Type ℓ} where
  abbrev pub written :
      Bool
      → Directory
      → Process E
      → PendingAction E
      → Directory × Process E × Option (PendingAction E)
  written true dir p a = (put dir a.id (to_record a), p, some a)
  written false dir p a = (dir, drop_local a.id p, none)

  abbrev pub publish :
      Bool
      → Directory
      → Process E
      → Option (PendingAction E)
      → Directory × Process E × Option (PendingAction E)
  publish write_ok dir p none = (dir, p, none)
  publish write_ok dir p (some a) =
      if has_path a.id then written write_ok dir p a else (dir, p, some a)

  -- `none` is a throw: of the limit, or of the write, which takes the action back
  unfoldable pub create_persistent :
      ℕ
      → String
      → Input E
      → Bool
      → Directory
      → Process E
      → Directory × Process E × Option (PendingAction E)
  create_persistent now id input write_ok dir p =
      let (s, made) = create now id input p.store in publish write_ok dir (in_store p s) made

  -- the body that runs under the lock
  unfoldable pub remove_expired :
      ℕ → String → Option Record → Directory → Process E → Directory × Process E × Bool
  remove_expired now id none dir p = (dir, drop_local id p, false)
  remove_expired now id (some r) dir p =
      if not (is_pending r)
      then (dir, p, false)
      else if leb now r.expires_at
      then (dir, p, false)
      else (remove dir id, drop_local id p, true)

  abbrev pub got :
      ℕ
      → String
      → Option Record
      → Directory
      → Process E
      → Directory × Process E × Option (PendingAction E)
  got now id none dir p = (dir, drop_local id p, none)
  got now id (some r) dir p =
      if not (is_pending r)
      then (dir, drop_local id p, none)
      else if ltb r.expires_at now
      then (let (d, q, _) = remove_expired now id (get dir id) dir p in (d, q, none))
      else (dir, p, local_or_record now id p r)

  unfoldable pub get_persistent :
      ℕ → String → Directory → Process E → Directory × Process E × Option (PendingAction E)
  unfolding remove_expired
  get_persistent now id dir p =
      if has_path id
      then got now id (get dir id) dir (in_store p (cleanup_expired now p.store))
      else (let (s, a) = get_action now id p.store in (dir, in_store p s, a))

  abbrev pub dropped :
      ℕ → String → Option Record → Directory → Process E → Directory × Process E × Bool
  dropped now id none dir p = (dir, drop_local id p, false)
  dropped now id (some r) dir p = (
    (if is_pending r then remove dir id else dir),
    drop_local id p,
    leb now r.expires_at && is_pending r,
  )

  unfoldable pub delete_persistent :
      ℕ → String → Directory → Process E → Directory × Process E × Bool
  delete_persistent now id dir p =
      if has_path id
      then dropped now id (get dir id) dir p
      else (let (s, existed) = delete id p.store in (dir, in_store p s, existed))

  abbrev pub handed_out : String → Process E → PendingAction E → Process E
  handed_out id p a = in_store p (
      emit
        (record p.store {
          actions = remove p.store.actions id;
          in_flight = put p.store.in_flight id a;
          failed_confirmation_attempts = remove p.store.failed_confirmation_attempts id;
        })
        deleted a)

  abbrev pub claim_record :
      ℕ
      → ℕ
      → String
      → Record
      → Option (PendingAction E)
      → Directory
      → Process E
      → Directory × Process E × Option (PendingAction E)
  claim_record now claim_at id r none dir p = (remove dir id, drop_local id p, none)
  claim_record now claim_at id r (some a) dir p =
      if ltb a.expires_at now
      then (remove dir id, drop_local id p, none)
      else (put dir id (claimed_record claim_at r), handed_out id p a, some a)

  abbrev pub take_record :
      ℕ
      → ℕ
      → String
      → Option Record
      → Directory
      → Process E
      → Directory × Process E × Option (PendingAction E)
  take_record now claim_at id none dir p =
      (dir, in_store p (record p.store { actions = remove p.store.actions id }), none)
  take_record now claim_at id (some r) dir p =
      if not (is_pending r)
      then (dir, drop_local id p, none)
      else claim_record now claim_at id r (local_or_record now id p r) dir p

  unfoldable pub take_persistent :
      ℕ → ℕ → String → Directory → Process E → Directory × Process E × Option (PendingAction E)
  take_persistent now claim_at id dir p =
      if has_path id
      then take_record now claim_at id (get dir id) dir p
      else (let (s, a) = take_action now id p.store in (dir, in_store p s, a))

  abbrev pub completed :
      String → Option Record → Directory → Process E → Directory × Process E × Bool
  completed id none dir p = (dir, p, false)
  completed id (some r) dir p = if is_pending r then (dir, p, false) else (remove dir id, p, true)

  unfoldable pub complete_persistent : String → Directory → Process E → Directory × Process E × Bool
  complete_persistent id dir p =
      let (s, done) = complete id p.store in
      let q = in_store p s in
      if not (has_path id) || not done then (dir, q, done) else completed id (get dir id) dir q

  abbrev pub active_record :
      ℕ → String → Option Record → Directory → Process E → Directory × Process E × Bool
  active_record now id none dir p = (dir, drop_local id p, false)
  active_record now id (some r) dir p =
      if not (is_pending r)
      then (dir, p, true)
      else if ltb r.expires_at now
      then (let (d, q, _) = remove_expired now id (get dir id) dir p in (d, q, false))
      else (dir, p, true)

  unfoldable pub is_active_persistent :
      ℕ → String → Directory → Process E → Directory × Process E × Bool
  unfolding remove_expired
  is_active_persistent now id dir p =
      if has p.store.in_flight id
      then (dir, p, true)
      else if has_path id
      then active_record now id (get dir id) dir p
      else (let (s, active) = is_active now id p.store in (dir, in_store p s, active))

  -- `none` is the throw on an invalid counter
  abbrev pub counted :
      String
      → ℕ
      → Record
      → ℕ
      → Directory
      → Process E
      → Directory × Process E × Option ConfirmationFailureResult
  counted id max_attempts r failures dir p =
      if leb (max 1 max_attempts) failures
      then (
        remove dir id,
        drop_local id p,
        some (record { found = true; failed_attempts = failures; locked = true }),
      )
      else (
        put dir id (record r { failed_confirmation_attempts = some failures }),
        in_store p (record p.store {
          failed_confirmation_attempts = put p.store.failed_confirmation_attempts id failures;
        }),
        some (record { found = true; failed_attempts = failures; locked = false }),
      )

  abbrev pub failed_record :
      ℕ
      → String
      → ℕ
      → Option Record
      → Directory
      → Process E
      → Directory × Process E × Option ConfirmationFailureResult
  failed_record now id max_attempts none dir p = (dir, drop_local id p, some not_found)
  failed_record now id max_attempts (some r) dir p =
      if not (is_pending r)
      then (dir, drop_local id p, some not_found)
      else if ltb r.expires_at now
      then (remove dir id, drop_local id p, some not_found)
      else if ltb max_safe_integer (get_or r.failed_confirmation_attempts 0)
      then (dir, p, none)
      else counted id max_attempts r (get_or r.failed_confirmation_attempts 0 + 1) dir p

  -- The local sweep and the body under the lock read the clock at different times.
  unfoldable pub record_failed_persistent :
      ℕ
      → ℕ
      → String
      → ℕ
      → Directory
      → Process E
      → Directory × Process E × Option ConfirmationFailureResult
  record_failed_persistent sweep_at now id max_attempts dir p =
      if has_path id
      then failed_record now id max_attempts (get dir id) dir
          (in_store p (cleanup_expired sweep_at p.store))
      else (let (s, r) = record_failed_confirmation sweep_at id max_attempts p.store in
          (dir, in_store p s, some r))
