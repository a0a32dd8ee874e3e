-- ===== src/Idempotency/Runs/Calls.antt =====
-- Histories of calls on the ledger of core/idempotency.ts in one process.
use avito_mcp.Prelude.{ℕ, String, Bool, Option, List, [], ◌∷◌}
use avito_mcp.Idempotency.{
  Entry, Retain, Ledger, Request, lookup, remember, hold, HoldReason, release_hold, delete,
  cleanup_expired,
}
use avito_mcp.Idempotency.Runs.{Ending, arrive, resume, settle}

pub data Call {ℓ} (W R : Type ℓ) : Type ℓ where
  arrives : (now : ℕ) → W → Request → Call W R
  resumes : Request → Entry R → (replay_allowed : Bool) → Call W R
  settles : (sweep_at now : ℕ) → W → Request → Option (Retain W R) → Ending R → Call W R
  looks : (now : ℕ) → W → Request → Call W R
  remembers : (sweep_at now : ℕ) → W → Request → R → Option (Retain W R) → Call W R
  -- `holdPersistent` without a state directory
  holds : (now : ℕ) → Request → Option HoldReason → Call W R
  releases : Request → Call W R
  deletes : Request → Call W R
  sweeps : (now : ℕ) → W → Call W R

module _ {ℓ} {W R : Type ℓ} (fingerprint : String → String) where
  unfoldable pub step : Ledger W R → Call W R → Ledger W R
  step l (arrives now w q) = (arrive fingerprint now w q l).0
  step l (resumes q e b) = (resume fingerprint q e b l).0
  step l (settles sweep_at now w q keep ending) = settle fingerprint sweep_at now w q keep ending l
  step l (looks now w q) = (lookup fingerprint now w q l).0
  step l (remembers sweep_at now w q result keep) =
      (remember fingerprint sweep_at now w q result keep l).0
  step l (holds now q reason) = hold fingerprint now q reason l
  step l (releases q) = (release_hold fingerprint q l).0
  step l (deletes q) = (delete fingerprint q l).0
  step l (sweeps now w) = cleanup_expired now w l

  unfoldable pub run : Ledger W R → List (Call W R) → Ledger W R
  run l [] = l
  run l (c ∷ cs) = run (step l c) cs
