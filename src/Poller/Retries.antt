-- ===== src/Poller/Retries.antt =====
-- poll_retries of worker/poller.py: the executions whose backoff is over, handed to the outbox.
pub mod Pairs
use mathlib.Core.Option
use cueapi_core.Prelude.{
  ℕ, ◌+◌, ◌≡◌, Bool, ◌&&◌, Option, none, some, List, [], ◌∷◌, ◌==◌, nat_eq, or_else, find, where_,
  take, col_le, each, String,
}
use cueapi_core.Store.{
  ExecStatus, exec_eq, TaskType, Execution, Cue, User, CueTask, cue_task, Db, execution_keyed,
  cue_keyed, user_keyed, update_execution, insert_outbox, or_empty,
}

-- The WHERE clause.
abbrev pub is_ready : ℕ → Execution → Bool
is_ready now e = e.status == ExecStatus.retrying && col_le e.next_retry now

-- The payload of the outbox row: that of a delivery, without the monthly limit.
unfoldable pub retry_payload : Option User → Cue → ℕ → ℕ → CueTask
retry_payload user c execution_id scheduled_for = record {
  execution_id = execution_id;
  cue_id = c.id;
  cue_name = c.name;
  user_id = some c.user_id;
  scheduled_for = scheduled_for;
  callback_url = c.callback_url;
  callback_method = c.callback_method;
  callback_headers = or_empty c.callback_headers;
  payload = or_empty c.payload;
  retry_max_attempts = c.retry_max_attempts;
  retry_backoff_minutes = c.retry_backoff_minutes;
  monthly_execution_limit = none;
  webhook_secret = or_else (Option.map (λ (u : User). u.webhook_secret) user) "";
}

abbrev pub retry_ready : ℕ → Execution → Execution
retry_ready now e = record e { status = ExecStatus.retry_ready; updated_at = now }

-- The scheduled_for of the row, read again by key.
abbrev pub slot_of : ℕ → List Execution → ℕ
slot_of i t = or_else (Option.map (λ (e : Execution). e.scheduled_for) (find i t)) 0

-- The statements for an execution whose cue is there; one without a cue is skipped.
unfoldable pub hand_over : ℕ → Execution → Option Cue → ℕ × Db → ℕ × Db
hand_over now e none (count, db) = (count, db)
hand_over now e (some c) (count, db) =
    let payload =
      cue_task (retry_payload (find c.user_id db.users) c e.id (slot_of e.id db.executions)) in
    (
      count + 1,
      update_execution e.id (retry_ready now)
          (insert_outbox now (some e.id) (some e.cue_id) TaskType.retry payload none db),
    )

abbrev pub retry_round : ℕ → Execution → ℕ × Db → ℕ × Db
retry_round now e (count, db) = hand_over now e (find e.cue_id db.cues) (count, db)

unfoldable pub poll_retries : ℕ → ℕ → Db → ℕ × Db
poll_retries now batch_size db =
    each (retry_round now) (take batch_size (where_ (is_ready now) db.executions)) (0, db)
