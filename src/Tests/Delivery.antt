-- ===== src/Tests/Delivery.antt =====
-- The delivery of one webhook: runs, and the theorems at them.
use cueapi_core.Prelude.{
  ℕ, ◌≡◌, refl, true, false, none, some, [], find, first_where, update_where, update_row, arith,
  ◌∷◌,
}
use cueapi_core.Store.{ExecStatus, Execution, CueTask, said, Db, execution_keyed, cue_keyed}
use cueapi_core.Usage.Grace.{check_execution_limit}
use cueapi_core.Usage.Grace.Raises.{check_execution_limit_raises}
use cueapi_core.Usage.Counter.{stored_count, get_monthly_usage}
use cueapi_core.Delivery.Claim.{claim_execution, claimed}
use cueapi_core.Delivery.Race.{claim-claim}
use cueapi_core.Delivery.Outcome.{webhook_sent, handle_failure}
use cueapi_core.Delivery.Task.{
  Reply, Ctx, error_text, deliver_gated, limit_gate, attempt_delivery, deliver_webhook_task,
}
use cueapi_core.Delivery.Settle.{deliver_duplicate, deliver_blocked}
use cueapi_core.Delivery.Settled.{settled}
use cueapi_core.Tests.Memory.{memory_redis, down_redis, no_keys}
use cueapi_core.Tests.Samples.{waiting, done, waiting_db, done_db, job}

abbrev refusal : Reply
refusal = record { success = false; http_status = some 500; text = none }

abbrev refuse : CueTask → ℕ → Reply
refuse p n = refusal

abbrev ctx : Ctx
ctx = record { redis = true; start = 2000; finish = 3000; month = 11; durable = true }

-- The first attempt of a delivery that is refused is retried a minute later.
refused_once :
    let (db, s, effects) = deliver_webhook_task memory_redis refuse ctx job (waiting_db, no_keys) in
    (find 40 db.executions ≡ some (settled memory_redis refuse ctx job 1 (claimed 2000 waiting)))
    × (effects ≡ webhook_sent job 1 ∷ [])
unfolding deliver_webhook_task deliver_gated error_text limit_gate check_execution_limit
    get_monthly_usage stored_count claim_execution attempt_delivery handle_failure first_where
    update_where update_row find
refused_once = (refl, refl)

claim-claim_example :
    claim_execution 2001 40 ExecStatus.pending
      (claim_execution 2000 40 ExecStatus.pending waiting_db).1
    ≡ (false, (claim_execution 2000 40 ExecStatus.pending waiting_db).1)
claim-claim_example = claim-claim 2000 2001 40 ExecStatus.pending waiting_db (λ e. cc)

deliver_duplicate_example :
    deliver_webhook_task memory_redis refuse ctx job (done_db, no_keys)
    ≡ (done_db, (limit_gate memory_redis refuse ctx job (done_db, no_keys)).1, [])
unfolding limit_gate check_execution_limit get_monthly_usage stored_count first_where find
deliver_duplicate_example =
    deliver_duplicate memory_redis refuse ctx job done_db no_keys done (refl, tt) refl (λ e. cc)
      refl

abbrev ready : Execution
ready = record waiting { status = ExecStatus.retry_ready; attempts = 1 }

abbrev ready_db : Db
ready_db = record waiting_db { executions = ready ∷ [] }

-- The month's 300 executions are used up and Redis is down: a job of the delivered execution, which
-- the queue hands out again, turns its success into a failure.
abbrev spent_db : Db
spent_db = record done_db {
  usage_monthly = record { user_id = 7; month_start = 11; execution_count = 300 } ∷ [];
}

deliver_blocked_example :
    let (db, s, effects) = deliver_webhook_task down_redis refuse ctx job (spent_db, tt) in
    (find 40 db.executions
      ≡ some (record done {
        status = ExecStatus.failed;
        error_message = some (said "Monthly execution limit reached");
        last_attempt_at = some 2000;
        updated_at = 2000;
      }))
    × (db.cues ≡ spent_db.cues)
    × (effects ≡ [])
unfolding limit_gate check_execution_limit get_monthly_usage stored_count first_where find
deliver_blocked_example = deliver_blocked down_redis refuse ctx job spent_db tt done refl refl

check_execution_limit_raises_example :
    let (first, s') = check_execution_limit memory_redis 1000 11 7 0 (waiting_db, no_keys) in
    (first
      ≡ some (record {
        allowed = true;
        over_limit = true;
        grace_active = true;
        usage = (get_monthly_usage memory_redis 1000 11 7 (waiting_db, no_keys)).0;
      }))
    × ((check_execution_limit memory_redis 5000 11 7 0 (waiting_db, s')).0 ≡ none)
unfolding get_monthly_usage stored_count first_where
check_execution_limit_raises_example =
    check_execution_limit_raises memory_redis 1000 11 7 0 5000 11 0 waiting_db waiting_db no_keys _
      (omega arith) refl refl (omega arith) (λ e. cc) (omega arith)
