-- ===== src/Idempotency/Durable.antt =====
-- `runExclusive`, `holdPersistent`, `rememberPersistent` and `releaseHold` of core/idempotency.ts with a
-- state directory. The lock of a key's record is held until the operation has ended, so a run is one
-- step; a process that stops during the operation leaves its reservation behind. What a run changes in
-- the maps of its own process is left out: with a state directory a run reads them only for the room
-- that a result needs, which is the input `recorded`.
pub mod Holds
pub mod Recovery
pub mod Unrecorded
use avito_mcp.Prelude.{
  ℕ, String, ◌+◌, Bool, true, false, not, ◌||◌, ◌&&◌, Option, none, some, ltb, leb, get_or, is_some,
  ◌==◌, if◌then◌else◌,
}
use avito_mcp.JsMap.{JsMap, get, has, put, remove}
use avito_mcp.Idempotency.{
  Entry, HoldReason, Error, conflict, recovery_required, held_error, Request, stored_key,
  is_transport,
}

pub data RecordState : Type 0 where
  in_flight completed indeterminate : RecordState

-- `PersistentRecord`
pub record Record {ℓ} (R : Type ℓ) : Type ℓ where
  pub state : RecordState
  pub key : String
  pub tool_name : String
  pub args_hash : String
  pub created_at : ℕ
  pub expires_at : ℕ
  pub owner_pid : Option ℕ
  pub result : Option R
  pub held_reason : Option String
  pub held_at : Option ℕ
  pub hold_reason : Option HoldReason

-- the records of all processes, by their path
abbrev pub Directory {ℓ} : Type ℓ → Type ℓ
Directory R = JsMap (Record R)

-- how the operation ends; a stop leaves no trace of it
pub data Attempt {ℓ} (R : Type ℓ) : Type ℓ where
  succeeded : R → Attempt R
  outcome_unknown : HoldReason → (message : String) → Attempt R
  failed : Attempt R
  stopped : Attempt R

pub data Outcome {ℓ} (R : Type ℓ) : Type ℓ where
  refused : Error → Outcome R
  replays : Entry R → Outcome R
  executed : Attempt R → Outcome R
  unrecorded : R → Outcome R

-- What a run reads from outside: the clock, before and after the operation, the process id, the answers
-- of the two callbacks, of which one that throws counts as yes, and whether a result can be recorded:
-- `remember` finds room in the process's own ledger, and the write of the file succeeds.
pub record Context : Type 0 where
  pub now : ℕ
  pub done_at : ℕ
  pub pid : ℕ
  pub ttl_ms : ℕ
  pub retain_expired : Bool
  pub replay_allowed : Bool
  pub recorded : Bool

abbrev pub is_in_flight : RecordState → Bool
is_in_flight in_flight = true
is_in_flight _ = false

abbrev pub is_indeterminate : RecordState → Bool
is_indeterminate indeterminate = true
is_indeterminate _ = false

module _ {ℓ} {R : Type ℓ} where
  abbrev entry_of : Record R → R → Entry R
  entry_of r result = record {
    key = r.key;
    tool_name = r.tool_name;
    args_hash = r.args_hash;
    created_at = r.created_at;
    expires_at = r.expires_at;
    result = result;
  }

  -- the result that the record holds, if it may be replayed
  abbrev pub usable : Context → RecordState → Record R → Option R → Option (Entry R)
  usable c completed r (some result) =
      if (leb c.now r.expires_at || c.retain_expired) && c.replay_allowed
      then some (entry_of r result)
      else none
  usable c _ r _ = none

  abbrev pub is_live_hold : ℕ → RecordState → Record R → Bool
  is_live_hold now indeterminate r = is_transport r.hold_reason || leb now r.expires_at
  is_live_hold now _ r = false

  -- the answer without running the operation, if there is one
  abbrev answered : Context → Record R → Option (Entry R) → Option (Outcome R)
  answered c r (some e) = some (replays e)
  answered c r none =
      if is_live_hold c.now r.state r
      then some (refused (held_error r.expires_at r.hold_reason))
      else if is_in_flight r.state
      then some (refused recovery_required)
      else none

  unfoldable pub adjudicate : Context → Request → Option (Record R) → Option (Outcome R)
  adjudicate c q none = none
  adjudicate c q (some r) =
      if r.args_hash == q.args_hash
      then answered c r (usable c r.state r r.result)
      else some (refused conflict)

module _ {ℓ} {R : Type ℓ} where
  -- the record that `holdReservation` writes
  abbrev pub held : ℕ → Record R → HoldReason → String → Record R
  held held_at r reason message = record r {
    state = indeterminate;
    held_at = some held_at;
    held_reason = some message;
    hold_reason = some reason;
    result = none;
  }

  -- `releaseHold`: only a hold is removed
  abbrev lifted : String → Option (Record R) → Directory R → Directory R × Bool
  lifted path none dir = (dir, false)
  lifted path (some r) dir =
      if is_indeterminate r.state then (remove dir path, true) else (dir, false)

  unfoldable pub release_persistent : String → Directory R → Directory R × Bool
  release_persistent path dir = lifted path (get dir path) dir

module _ {ℓ} {R : Type ℓ} (fingerprint : String → String) where
  abbrev pub reservation : Context → Request → Record R
  reservation c q = record {
    state = in_flight;
    key = stored_key fingerprint q.key;
    tool_name = q.tool_name;
    args_hash = q.args_hash;
    created_at = c.now;
    expires_at = c.now + c.ttl_ms;
    owner_pid = some c.pid;
    result = none;
    held_reason = none;
    held_at = none;
    hold_reason = none;
  }

  -- `toPersistent` of the entry that `remember` makes
  abbrev pub remembered : Context → Request → R → Record R
  remembered c q result = record {
    state = completed;
    key = stored_key fingerprint q.key;
    tool_name = q.tool_name;
    args_hash = q.args_hash;
    created_at = c.done_at;
    expires_at = c.done_at + c.ttl_ms;
    owner_pid = none;
    result = some result;
    held_reason = none;
    held_at = none;
    hold_reason = none;
  }

  -- The reservation is written before the operation runs, and what follows depends on its end. Only the
  -- write of a result can fail here.
  abbrev pub after_attempt : Context → Request → String → Attempt R → Directory R → Directory R
  after_attempt c q path (succeeded result) dir =
      if c.recorded then put dir path (remembered c q result) else remove dir path
  after_attempt c q path (outcome_unknown reason message) dir =
      put dir path (held c.done_at (reservation c q) reason message)
  after_attempt c q path failed dir = remove dir path
  after_attempt c q path stopped dir = dir

  -- A result that cannot be recorded is lost to the caller, and takes the branch of a failure.
  abbrev pub outcome_of : Context → Attempt R → Outcome R
  outcome_of c (succeeded result) =
      if c.recorded then executed (succeeded result) else unrecorded result
  outcome_of c attempt = executed attempt

  abbrev pub ran : Context → Request → String → Attempt R → Directory R → Directory R × Outcome R
  ran c q path attempt dir =
      (after_attempt c q path attempt (put dir path (reservation c q)), outcome_of c attempt)

  abbrev pub carried_out :
      Context
      → Request
      → String
      → Attempt R
      → Option (Outcome R)
      → Directory R
      → Directory R × Outcome R
  carried_out c q path attempt (some o) dir = (dir, o)
  carried_out c q path attempt none dir = ran c q path attempt (remove dir path)

  unfoldable pub run_persistent :
      Context → Request → String → Attempt R → Directory R → Directory R × Outcome R
  run_persistent c q path attempt dir =
      carried_out c q path attempt (adjudicate c q (get dir path)) dir

  -- `rememberPersistent`
  unfoldable pub remember_persistent : Context → Request → String → R → Directory R → Directory R
  remember_persistent c q path result dir =
      if c.recorded then put dir path (remembered c q result) else dir

  -- `holdPersistent`; `none` is a throw of a conflict
  abbrev held_over :
      Context
      → Request
      → String
      → HoldReason
      → String
      → Option (Record R)
      → Directory R
      → Option (Directory R)
  held_over c q path reason message none dir =
      some (
        put dir path
          (held c.done_at (record (reservation c q) { owner_pid = none }) reason message))
  held_over c q path reason message (some r) dir =
      if r.args_hash == q.args_hash
      then some (put dir path (held c.done_at r reason message))
      else none

  unfoldable pub hold_persistent :
      Context → Request → String → HoldReason → String → Directory R → Option (Directory R)
  hold_persistent c q path reason message dir = held_over c q path reason message (get dir path) dir
