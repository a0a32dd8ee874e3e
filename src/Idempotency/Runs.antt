-- ===== src/Idempotency/Runs.antt =====
-- `runExclusive` of core/idempotency.ts without a state directory. It runs in three steps, between
-- which other calls may run: up to the question whether a cached result may be replayed (`arrive`),
-- from the answer to the start of the operation (`resume`), and what follows the operation (`settle`).
pub mod Calls
pub mod Exclusion
pub mod Capacity
pub mod Replay
pub mod Holds
use avito_mcp.Prelude.{ℕ, String, Bool, true, false, Option, none, some, ◌==◌, if◌then◌else◌}
use avito_mcp.JsMap.{get, put, remove}
use avito_mcp.Idempotency.{
  Entry, HoldReason, Hold, Reservation, Error, conflict, limit_reached, held_error, Retain, Ledger,
  Request, cleanup_expired, has_capacity, slot, remember, hold,
}

-- how far a call has come
pub data Progress {ℓ} (R : Type ℓ) : Type ℓ where
  refused : Error → Progress R
  asks : Entry R → Progress R
  replays : Entry R → Progress R
  joins : Progress R
  starts : Progress R

-- how `execute` ends
pub data Ending {ℓ} (R : Type ℓ) : Type ℓ where
  succeeded : R → Ending R
  outcome_unknown : HoldReason → Ending R
  failed : Ending R

module _ {ℓ} {W R : Type ℓ} (fingerprint : String → String) where
  abbrev pub join_or_start : Request → Option Reservation → Ledger W R → Ledger W R × Progress R
  join_or_start q (some r) l =
      if r.args_hash == q.args_hash then (l, joins) else (l, refused conflict)
  join_or_start q none l =
      if has_capacity (slot fingerprint q) l
      then (
        record l {
          reservations =
              put l.reservations (slot fingerprint q) (record { args_hash = q.args_hash });
        },
        starts,
      )
      else (l, refused limit_reached)

  unfoldable pub reserve : Request → Ledger W R → Ledger W R × Progress R
  reserve q l = join_or_start q (get l.reservations (slot fingerprint q)) l

  abbrev pub check_cached : Request → Option (Entry R) → Ledger W R → Ledger W R × Progress R
  check_cached q none l = reserve q l
  check_cached q (some e) l =
      if e.args_hash == q.args_hash then (l, asks e) else (l, refused conflict)

  abbrev pub check_held : Request → Option Hold → Ledger W R → Ledger W R × Progress R
  check_held q none l = check_cached q (get l.entries (slot fingerprint q)) l
  check_held q (some h) l =
      if h.args_hash == q.args_hash
      then (l, refused (held_error h.expires_at h.reason))
      else (l, refused conflict)

  unfoldable pub arrive : ℕ → W → Request → Ledger W R → Ledger W R × Progress R
  arrive now w q l =
      let swept = cleanup_expired now w l in
      check_held q (get swept.holds (slot fingerprint q)) swept

  -- `cached` is the entry that was asked about
  unfoldable pub resume : Request → Entry R → Bool → Ledger W R → Ledger W R × Progress R
  resume q cached true l = (l, replays cached)
  resume q cached false l = reserve q (record l {
    entries = remove l.entries (slot fingerprint q);
    retain_expired = remove l.retain_expired (slot fingerprint q);
  })

  -- the `catch` branch, for a throw of `remember` too
  abbrev drop_reservation : Request → Ledger W R → Ledger W R
  drop_reservation q l = record l { reservations = remove l.reservations (slot fingerprint q) }

  abbrev remembered : Request → Ledger W R × Option (Entry R) → Ledger W R
  remembered q (l, some e) = l
  remembered q (l, none) = drop_reservation q l

  unfoldable pub settle :
      ℕ → ℕ → W → Request → Option (Retain W R) → Ending R → Ledger W R → Ledger W R
  settle sweep_at now w q retain_opt (succeeded result) l =
      remembered q (remember fingerprint sweep_at now w q result retain_opt l)
  settle sweep_at now w q retain_opt (outcome_unknown reason) l =
      hold fingerprint now q (some reason) (drop_reservation q l)
  settle sweep_at now w q retain_opt failed l = drop_reservation q l
