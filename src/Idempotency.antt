-- ===== src/Idempotency.antt =====
-- core/idempotency.ts: the ledger of one process. `R` is the tool result of the MCP SDK, `W` what the
-- retention callbacks look at outside the ledger. The SHA-256 fingerprint of a key is the parameter
-- `fingerprint`.
pub mod Runs
pub mod Durable
mod Tests
use Prim.Native.String.{◌++◌ as join, len}
use avito_mcp.Prelude.{
  ℕ, String, ◌+◌, Bool, true, false, not, ◌||◌, ◌&&◌, Option, none, some, [], List, ltb, leb,
  get_or, is_some, ◌==◌, if◌then◌else◌,
}
use avito_mcp.JsMap.{JsMap, get, has, put, remove, retain, size}

pub record Entry {ℓ} (R : Type ℓ) : Type ℓ where
  pub key : String
  pub tool_name : String
  pub args_hash : String
  pub created_at : ℕ
  pub expires_at : ℕ
  pub result : R

pub data HoldReason : Type 0 where
  cancelled_after_dispatch transport_failure_after_dispatch : HoldReason

pub record Hold : Type 0 where
  pub key : String
  pub tool_name : String
  pub args_hash : String
  pub held_at : ℕ
  pub expires_at : ℕ
  pub reason : Option HoldReason

-- the promise of a reservation is the operation that is running
pub record Reservation : Type 0 where
  pub args_hash : String

-- what the methods throw
pub data Error : Type 0 where
  conflict : Error
  limit_reached : Error
  recovery_required : Error
  held_error : (held_until : ℕ) → Option HoldReason → Error

-- `none` is a callback that throws
abbrev pub Retain {ℓ} : Type ℓ → Type ℓ → Type ℓ
Retain W R = W → Entry R → Option Bool

pub record Ledger {ℓ} (W R : Type ℓ) : Type ℓ where
  pub ttl_ms : ℕ
  pub max_entries : ℕ
  pub entries : JsMap (Entry R)
  pub reservations : JsMap Reservation
  pub holds : JsMap Hold
  pub retain_expired : JsMap (Retain W R)

-- what identifies a call
pub record Request : Type 0 where
  pub key : String
  pub tool_name : String
  pub args_hash : String

abbrev pub is_transport : Option HoldReason → Bool
is_transport (some transport_failure_after_dispatch) = true
is_transport _ = false

abbrev pub keeps_hold : ℕ → Hold → Bool
keeps_hold now h = is_transport h.reason || leb now h.expires_at

-- a failing callback keeps its entry
abbrev active {ℓ} : {W R : Type ℓ} → W → Entry R → Option (Retain W R) → Bool
active w e none = false
active w e (some f) = get_or (f w e) true

-- the result, or nothing where a conflict is thrown
abbrev matching {ℓ} : {R : Type ℓ} → String → Option (Entry R) → Option (Entry R)
matching args_hash none = none
matching args_hash (some e) = if e.args_hash == args_hash then some e else none

module _ {ℓ} {W R : Type ℓ} where
  unfoldable pub init : ℕ → ℕ → Ledger W R
  init ttl_ms max_entries = record {
    ttl_ms = ttl_ms;
    max_entries = max_entries;
    entries = [];
    reservations = [];
    holds = [];
    retain_expired = [];
  }

  abbrev pub keeps_entry : ℕ → W → Ledger W R → String → Entry R → Bool
  keeps_entry now w l k e = leb now e.expires_at || active w e (get l.retain_expired k)

  abbrev entry_stays : ℕ → W → Ledger W R → String → Option (Entry R) → Bool
  entry_stays now w l k none = true
  entry_stays now w l k (some e) = keeps_entry now w l k e

  unfoldable pub cleanup_expired : ℕ → W → Ledger W R → Ledger W R
  cleanup_expired now w l = record l {
    entries = retain (keeps_entry now w l) l.entries;
    retain_expired = retain (λ k _. entry_stays now w l k (get l.entries k)) l.retain_expired;
    holds = retain (λ _ h. keeps_hold now h) l.holds;
  }

  -- `assertCapacity`: false where it throws
  unfoldable pub has_capacity : String → Ledger W R → Bool
  has_capacity k l =
      has l.entries k
      || has l.reservations k
      || has l.holds k
      || ltb (size l.entries + size l.reservations + size l.holds) l.max_entries

  unfoldable pub size_of : ℕ → W → Ledger W R → Ledger W R × ℕ
  size_of now w l =
      let swept = cleanup_expired now w l in
      (swept, size swept.entries + size swept.reservations + size swept.holds)

  abbrev set_retain : JsMap (Retain W R) → String → Option (Retain W R) → JsMap (Retain W R)
  set_retain m k none = remove m k
  set_retain m k (some f) = put m k f

module _ (fingerprint : String → String) where
  -- `composeKey`
  unfoldable pub compose_key : String → String → String
  compose_key tool_name key = join tool_name (join "::" (fingerprint key))

  unfoldable pub stored_key : String → String
  stored_key key = if leb (len key) 256 then key else join "sha256:" (fingerprint key)

  abbrev pub slot : Request → String
  slot q = compose_key q.tool_name q.key

  module _ {ℓ} {W R : Type ℓ} where
    abbrev pub new_entry : ℕ → Ledger W R → Request → R → Entry R
    new_entry now l q result = record {
      key = stored_key q.key;
      tool_name = q.tool_name;
      args_hash = q.args_hash;
      created_at = now;
      expires_at = now + l.ttl_ms;
      result = result;
    }

    -- `lookup`: the entry, and whether it throws a conflict
    unfoldable pub lookup : ℕ → W → Request → Ledger W R → Ledger W R × Option (Entry R) × Bool
    lookup now w q l =
        let swept = cleanup_expired now w l in
        let found = matching q.args_hash (get swept.entries (slot q)) in
        (swept, found, has swept.entries (slot q) && not (is_some found))

    -- `remember`; `none` is a throw of the limit
    unfoldable pub remember :
        ℕ → ℕ → W → Request → R → Option (Retain W R) → Ledger W R → Ledger W R × Option (Entry R)
    remember sweep_at now w q result retain_opt l =
        let swept = cleanup_expired sweep_at w l in
        if has_capacity (slot q) swept
        then (
          record swept {
            reservations = remove swept.reservations (slot q);
            holds = remove swept.holds (slot q);
            entries = put swept.entries (slot q) (new_entry now swept q result);
            retain_expired = set_retain swept.retain_expired (slot q) retain_opt;
          },
          some (new_entry now swept q result),
        )
        else (swept, none)

    abbrev pub new_hold : ℕ → Ledger W R → Request → Option HoldReason → Hold
    new_hold now l q reason = record {
      key = stored_key q.key;
      tool_name = q.tool_name;
      args_hash = q.args_hash;
      held_at = now;
      expires_at = now + l.ttl_ms;
      reason = reason;
    }

    -- the private `hold`
    unfoldable pub hold : ℕ → Request → Option HoldReason → Ledger W R → Ledger W R
    hold now q reason l = record l {
      entries = remove l.entries (slot q);
      retain_expired = remove l.retain_expired (slot q);
      holds = put l.holds (slot q) (new_hold now l q reason);
    }

    -- the process-local half of `releaseHold`
    unfoldable pub release_hold : Request → Ledger W R → Ledger W R × Bool
    release_hold q l = (record l { holds = remove l.holds (slot q) }, has l.holds (slot q))

    unfoldable pub delete : Request → Ledger W R → Ledger W R × Bool
    delete q l = (
      record l {
        retain_expired = remove l.retain_expired (slot q);
        holds = remove l.holds (slot q);
        entries = remove l.entries (slot q);
      },
      has l.entries (slot q) || has l.holds (slot q),
    )
