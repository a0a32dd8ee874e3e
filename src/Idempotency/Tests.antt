-- ===== src/Idempotency/Tests.antt =====
-- The ledger of core/idempotency.ts at concrete calls, in memory and on disk. The fingerprint of a key
-- is the key itself here, and a tool result is a number.
use avito_mcp.Prelude.{
  ℕ, String, ◌+◌, ◌≤◌, ◌≡◌, refl, true, false, none, some, List, [], ◌∷◌, arith, if◌then◌else◌,
  ◌==◌,
}
use avito_mcp.JsMap.{get, has, put, remove, retain, size}
use avito_mcp.Idempotency.{
  Hold, cancelled_after_dispatch, transport_failure_after_dispatch, conflict, limit_reached, Ledger,
  Request, init, cleanup_expired, has_capacity, compose_key, slot, remember, hold, new_entry,
  new_hold,
}
use avito_mcp.Idempotency.Runs.{
  refused, asks, starts, succeeded, outcome_unknown, failed, arrive, resume, reserve, settle,
}
use avito_mcp.Idempotency.Runs.Calls.{Call, arrives, settles, holds, run, step}
use avito_mcp.Idempotency.Runs.Exclusion.{all_started, all_ended, all_recorded, all_started-bounded}
use avito_mcp.Idempotency.Runs.Capacity.{total, all_unchecked, run-bounded}
use avito_mcp.Idempotency.Runs.Replay.{
  settle_succeeded-arrive, settle_failed-arrive, settle_unknown-arrive, settle_unknown-resume,
}
use avito_mcp.Idempotency.Runs.Holds.{refusal, run-refuses}
use avito_mcp.Idempotency.Durable.{
  outcome_of, Attempt, Directory, Context, outcome_unknown as unknown_end, succeeded as success_end,
  stopped, run_persistent, adjudicate, release_persistent,
}
use avito_mcp.Idempotency.Durable.Recovery.{
  Op, runs, releases as lifts, executions, freed, vacancy, executions-le-freed,
}
use avito_mcp.Idempotency.Durable.Unrecorded.{run-unrecorded}
use avito_mcp.Idempotency.Durable.Holds.{run-stopped, run-outcome_unknown}

abbrev itself : String → String
itself k = k

abbrev pay : Request
pay = record { key = "k1"; tool_name = "cpa_pay"; args_hash = "h" }

abbrev empty_ledger : Ledger ℕ ℕ
empty_ledger = init 100 2

abbrev running : Ledger ℕ ℕ
running = (arrive itself 10 0 pay empty_ledger).0

abbrev two_calls : List (Call ℕ ℕ)
two_calls = arrives 10 0 pay ∷ arrives 11 0 pay ∷ settles 20 20 0 pay none (succeeded 7) ∷ []

is_running : has running.reservations (slot itself pay) ≡ true
unfolding arrive reserve has_capacity init cleanup_expired compose_key get put retain remove size
is_running = refl

started_once : all_started itself (slot itself pay) empty_ledger two_calls ≡ 1
unfolding all_started arrive reserve settle remember step has_capacity init cleanup_expired
    compose_key get put retain remove size
started_once = refl

all_started-bounded_example :
    all_started itself (slot itself pay) empty_ledger two_calls
    ≤ all_ended itself (slot itself pay) two_calls
      + all_recorded itself (slot itself pay) two_calls
      + 1
all_started-bounded_example = all_started-bounded itself (slot itself pay) empty_ledger two_calls

settle_succeeded-arrive_sample :
    (arrive itself 60 0 pay (settle itself 20 20 0 pay none (succeeded 7) running)).1 ≡ (
      if pay.args_hash == pay.args_hash
      then asks (new_entry itself 20 running pay 7)
      else refused conflict)
unfolding arrive get cleanup_expired retain init reserve has_capacity size
settle_succeeded-arrive_sample =
    settle_succeeded-arrive itself 20 20 0 pay 7 none running 60 0 pay is_running refl lives
  where
    lives : 60 ≤ 20 + running.ttl_ms
    lives = omega arith

no_hold : get running.holds (slot itself pay) ≡ none
unfolding arrive reserve has_capacity init cleanup_expired compose_key get put retain remove size
no_hold = refl

no_entry : get running.entries (slot itself pay) ≡ none
unfolding arrive reserve has_capacity init cleanup_expired compose_key get put retain remove size
no_entry = refl

settle_failed-arrive_sample :
    (arrive itself 30 0 pay (settle itself 20 20 0 pay none failed running)).1 ≡ (
      if has_capacity
        (slot itself pay)
        (cleanup_expired 30 0 (settle itself 20 20 0 pay none failed running))
      then starts
      else refused limit_reached)
settle_failed-arrive_sample =
    settle_failed-arrive itself 20 20 0 pay none running 30 0 no_hold no_entry

settle_unknown-arrive_sample :
    (arrive itself 60 0 pay
      (settle itself 20 20 0 pay none (outcome_unknown cancelled_after_dispatch) running)).1
    ≡ refusal (new_hold itself 20 running pay (some cancelled_after_dispatch)) pay
unfolding arrive reserve has_capacity init cleanup_expired compose_key get put retain remove size
settle_unknown-arrive_sample =
    settle_unknown-arrive itself 20 20 0 pay none cancelled_after_dispatch running 60 0 pay refl
      (λ e. omega arith)

settle_unknown-resume_example :
    ((resume itself pay (new_entry itself 5 running pay 7) false (
        settle itself 20 20 0 pay none
          (outcome_unknown transport_failure_after_dispatch)
          running)).1
      ≡ starts)
    × ((arrive itself 9000 0 pay (
          settle itself 20 20 0 pay none
            (outcome_unknown transport_failure_after_dispatch)
            running)).1
        ≡ refusal (new_hold itself 20 running pay (some transport_failure_after_dispatch)) pay)
settle_unknown-resume_example =
    settle_unknown-resume itself 20 20 0 pay none transport_failure_after_dispatch running
      (new_entry itself 5 running pay 7) 9000 0 pay refl (λ e. ground (arith, e))

abbrev transport_hold : Hold
transport_hold = new_hold itself 20 running pay (some transport_failure_after_dispatch)

abbrev held_ledger : Ledger ℕ ℕ
held_ledger =
    settle itself 20 20 0 pay none (outcome_unknown transport_failure_after_dispatch) running

is_held : get held_ledger.holds (slot itself pay) ≡ some transport_hold
unfolding settle hold arrive reserve has_capacity init cleanup_expired compose_key get put retain
    remove size
is_held = refl

run-refuses_example :
    (get (run itself held_ledger (arrives 5000 0 pay ∷ [])).holds (slot itself pay)
      ≡ some transport_hold)
    × ((arrive itself 9000 0 pay (run itself held_ledger (arrives 5000 0 pay ∷ []))).1
        ≡ refusal transport_hold pay)
run-refuses_example =
    run-refuses itself (slot itself pay) transport_hold held_ledger (arrives 5000 0 pay ∷ []) 9000 0
      pay refl is_held (tt, tt) refl

run-bounded_example :
    total (run itself (init 100 2) two_calls) ≤ 2 + all_unchecked itself (init 100 2) two_calls
run-bounded_example = run-bounded itself 100 2 two_calls

-- a confirmed action may be held in a full ledger
abbrev crowded : List (Call ℕ ℕ)
crowded = arrives 10 0 pay ∷ holds 20 (record pay { key = "k2" }) none ∷ []

one_over :
    (total (run itself (init 100 1) crowded) ≡ 2) × (all_unchecked itself (init 100 1) crowded ≡ 1)
unfolding run all_unchecked hold step arrive reserve has_capacity init cleanup_expired compose_key
    get put retain remove size
one_over = (refl, refl)

abbrev at_ten : Context
at_ten = record {
  now = 10;
  done_at = 12;
  pid = 1;
  ttl_ms = 100;
  retain_expired = false;
  replay_allowed = true;
  recorded = true;
}

abbrev no_records : Directory ℕ
no_records = []

abbrev ops : List (Op ℕ)
ops =
    runs at_ten pay "p" (success_end 7)
    ∷ runs (record at_ten { now = 50 }) pay "p" (success_end 8)
    ∷ lifts "p"
    ∷ []

executed_once : executions itself "p" ops no_records ≡ 1
unfolding executions run_persistent adjudicate release_persistent get put remove
executed_once = refl

executions-le-freed_example :
    executions itself "p" ops no_records
    ≤ vacancy (10 + 100) (get no_records "p") + freed itself "p" ops no_records
executions-le-freed_example = executions-le-freed itself "p" 10 100 ops no_records (
  (omega arith, omega arith, omega arith, refl, refl),
  ((omega arith, omega arith, omega arith, refl, refl), (tt, tt)),
)

run-stopped_example :
    executions itself "p" ops (run_persistent itself at_ten pay "p" stopped no_records).0 ≡ 0
unfolding run_persistent adjudicate get put remove
run-stopped_example = run-stopped itself "p" at_ten pay no_records ops refl

abbrev lost : Attempt ℕ
lost = unknown_end transport_failure_after_dispatch "socket hang up"

run-outcome_unknown_example :
    executions itself "p"
      (runs (record at_ten { now = 90000 }) pay "p" (success_end 8) ∷ [])
      (run_persistent itself at_ten pay "p" lost no_records).0
    ≡ 0
unfolding run_persistent adjudicate get put remove
run-outcome_unknown_example =
    run-outcome_unknown itself "p" at_ten pay "socket hang up" no_records
      (runs (record at_ten { now = 90000 }) pay "p" (success_end 8) ∷ []) refl (tt, tt)

abbrev full_ledger : Context
full_ledger = record at_ten { recorded = false }

run-unrecorded_example :
    (run_persistent itself at_ten pay "p"
      (success_end 8)
      (run_persistent itself full_ledger pay "p" (success_end 7) no_records).0).1
    ≡ outcome_of itself at_ten (success_end 8)
unfolding run_persistent adjudicate get put remove
run-unrecorded_example =
    run-unrecorded itself "p" full_ledger at_ten pay 7 (success_end 8) no_records refl
