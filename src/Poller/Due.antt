-- ===== src/Poller/Due.antt =====
-- _process_cue_batch and poll_due_cues. `cron` stands for _get_next_run_for_cron, which asks
-- croniter and pytz: the next time after a given one by an expression in a timezone. `uuid` numbers
-- the identifiers that uuid4 draws, one for each round of the loop.
pub mod Dedup
use cueapi_core.Prelude.{
  ℕ, zero, suc, ◌+◌, ◌≡◌, Bool, true, false, not, ◌&&◌, String, Option, none, some, List, [], ◌∷◌,
  ◌++◌, ◌==◌, nat_eq, if◌then◌else◌, or_else, is_some, find, first_where, where_, take, length,
  order_by, ltb, col_le,
}
use mathlib.Core.Option
use cueapi_core.Store.{
  ExecStatus, CueStatus, cue_eq, ScheduleType, schedule_eq, Transport, transport_eq, TaskType,
  Execution, Cue, User, CueTask, cue_task, Db, user_keyed, update_cue, insert_outbox, truthy,
  or_empty,
}

-- executions: the defaults of a new row.
unfoldable pub new_execution : ℕ → ℕ → ℕ → ℕ → Option String → Execution
new_execution now i cue_id scheduled_for triggered_by = record {
  id = i;
  cue_id = cue_id;
  scheduled_for = scheduled_for;
  status = ExecStatus.pending;
  http_status = none;
  response_body = none;
  attempts = 0;
  next_retry = none;
  error_message = none;
  started_at = none;
  delivered_at = none;
  last_attempt_at = none;
  claimed_by_worker = none;
  claimed_at = none;
  outcome_success = none;
  outcome_result = none;
  outcome_error = none;
  outcome_metadata = none;
  outcome_recorded_at = none;
  outcome_state = none;
  last_heartbeat_at = none;
  live_claim_session_token = none;
  live_claimed_at = none;
  triggered_by = triggered_by;
  evidence_external_id = none;
  evidence_result_url = none;
  evidence_result_ref = none;
  evidence_result_type = none;
  evidence_summary = none;
  evidence_validation_state = none;
  evidence_produced_at = none;
  evidence_artifacts = none;
  evidence_metadata = none;
  created_at = now;
  updated_at = now;
}

-- The WHERE clause of the batch.
abbrev pub is_due : ℕ → Cue → Bool
is_due now c = c.status == CueStatus.active && col_le c.next_run now

-- The UNIQUE constraint idx_executions_dedup.
abbrev pub same_run : ℕ → ℕ → Execution → Bool
same_run cue_id scheduled_for e = e.cue_id == cue_id && e.scheduled_for == scheduled_for

-- The payload of the outbox row of a cue that fires.
unfoldable pub deliver_payload : Option User → Cue → ℕ → ℕ → CueTask
deliver_payload user c execution_id scheduled_for = record {
  execution_id = execution_id;
  cue_id = c.id;
  cue_name = c.name;
  user_id = some c.user_id;
  scheduled_for = scheduled_for;
  callback_url = c.callback_url;
  callback_method = c.callback_method;
  callback_headers = or_empty c.callback_headers;
  payload = or_empty c.payload;
  retry_max_attempts = c.retry_max_attempts;
  retry_backoff_minutes = c.retry_backoff_minutes;
  monthly_execution_limit =
      some (or_else (Option.map (λ (u : User). u.monthly_execution_limit) user) 0);
  webhook_secret = or_else (Option.map (λ (u : User). u.webhook_secret) user) "";
}

-- The statements under `if inserted`.
unfoldable pub fire : ℕ → ℕ → ℕ → Cue → Db → Db
fire now i scheduled_for c db =
    let inserted = record db {
      executions = db.executions ++ new_execution now i c.id scheduled_for none ∷ [];
    } in
    let fired =
      update_cue c.id (λ (q : Cue). record q { fired_count = q.fired_count + 1; updated_at = now })
        inserted in
    if c.callback_transport == Transport.worker
    then fired
    else insert_outbox now (some i) (some c.id) TaskType.deliver
        (cue_task (deliver_payload (find c.user_id db.users) c i scheduled_for)) none fired

-- The new next_run: the cron's next time for a recurring cue, NULL for a one-time cue.
unfoldable pub next_run_of : (String → String → ℕ → ℕ) → Cue → ℕ → Option ℕ
next_run_of cron c scheduled_for =
    if c.schedule_type == ScheduleType.recurring && truthy c.schedule_cron
    then some (cron (or_else c.schedule_cron "") c.schedule_timezone scheduled_for)
    else none

-- The body of the loop.
unfoldable pub process_cue : (String → String → ℕ → ℕ) → ℕ → ℕ → Cue → Db → Db
process_cue cron now i c db =
    let scheduled_for = or_else c.next_run 0 in
    let fired = fire now i scheduled_for c db in
    let next =
      if is_some (first_where (same_run c.id scheduled_for) db.executions) then db else fired in
    update_cue c.id
      (λ (q : Cue). record q { next_run = next_run_of cron c scheduled_for; updated_at = now }) next

unfoldable pub process_cues : (String → String → ℕ → ℕ) → ℕ → (ℕ → ℕ) → ℕ → List Cue → Db → Db
process_cues cron now uuid k [] db = db
process_cues cron now uuid k (c ∷ cs) db =
    process_cues cron now uuid (suc k) cs (process_cue cron now (uuid k) c db)

-- The SELECT: due cues by next_run, at most a batch of them.
unfoldable pub due_cues : ℕ → ℕ → Db → List Cue
due_cues now batch_size db =
    take batch_size (order_by (λ (c : Cue). or_else c.next_run 0) (where_ (is_due now) db.cues))

unfoldable pub process_cue_batch : (String → String → ℕ → ℕ) → ℕ → (ℕ → ℕ) → ℕ → Db → ℕ × Db
process_cue_batch cron now uuid batch_size db =
    let due = due_cues now batch_size db in (length due, process_cues cron now uuid 0 due db)

abbrev pub max_drain_iterations : ℕ
max_drain_iterations = 20

-- The drain loop, with the rounds left; the clock and the identifiers are read round by round.
unfoldable pub drain : (String → String → ℕ → ℕ) → (ℕ → ℕ) → (ℕ → ℕ → ℕ) → ℕ → ℕ → ℕ → Db → ℕ × Db
drain cron clock uuid batch_size zero total db = (total, db)
drain cron clock uuid batch_size (suc n) total db =
    let (count, db') = process_cue_batch cron (clock n) (uuid n) batch_size db in
    let rest = drain cron clock uuid batch_size n (total + count) db' in
    if ltb count batch_size then (total + count, db') else rest

unfoldable pub poll_due_cues : (String → String → ℕ → ℕ) → (ℕ → ℕ) → (ℕ → ℕ → ℕ) → ℕ → Db → ℕ × Db
unfolding drain
poll_due_cues cron clock uuid batch_size db =
    drain cron clock uuid batch_size max_drain_iterations 0 db
