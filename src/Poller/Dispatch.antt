-- ===== src/Poller/Dispatch.antt =====
-- dispatch_outbox and cleanup_outbox of worker/poller.py. The queue is the list of the jobs that arq
-- has accepted; `refusal` gives for a row the error of enqueue_job, and none if it goes through.
pub mod Once
use cueapi_core.Prelude.{
  ℕ, zero, suc, ◌+◌, ◌*◌, ◌-◌, ◌≡◌, Bool, true, false, not, ◌&&◌, ◌||◌, String, Option, none, some,
  List, [], ◌∷◌, ◌++◌, ◌==◌, nat_eq, if◌then◌else◌, or_else, is_null, where_, take, length,
  order_by, ltb, col_le, each, update_row,
}
use cueapi_core.Store.{TaskType, task_eq, TaskPayload, Outbox, Db, outbox_keyed, days, clip}

-- The arq functions by name.
pub data Task : Type 0 where
  deliver_webhook_task retry_webhook_task deliver_message_task retry_message_task : Task

-- A job: the function, its argument, and the row that it comes from.
pub record Job : Type 0 where
  pub task : Task
  pub payload : TaskPayload
  pub row : ℕ

-- The routing by task_type; an unknown one is skipped.
unfoldable pub route : TaskType → Option Task
route TaskType.deliver = some deliver_webhook_task
route TaskType.retry = some retry_webhook_task
route TaskType.deliver_message = some deliver_message_task
route TaskType.retry_message = some retry_message_task
route _ = none

-- The WHERE clause.
abbrev pub is_waiting : ℕ → Outbox → Bool
is_waiting now o = not o.dispatched && (is_null o.scheduled_at || col_le o.scheduled_at now)

abbrev pub row_dispatched : Outbox → Outbox
row_dispatched o = record o { dispatched = true }

abbrev pub row_refused : String → Outbox → Outbox
row_refused error o = record o {
  dispatch_attempts = o.dispatch_attempts + 1;
  last_dispatch_error = some (clip 500 error);
}

abbrev pub update_outbox : ℕ → (Outbox → Outbox) → Db → Db
update_outbox i f db = record db { outbox = update_row i f db.outbox }

-- One row: `task` is its route, `refusal` the error of enqueue_job.
unfoldable pub send : Outbox → Option Task → Option String → List Job × Db → List Job × Db
send o none refusal (jobs, db) = (jobs, db)
send o (some t) none (jobs, db) = (
  jobs ++ record { task = t; payload = o.payload; row = o.id } ∷ [],
  update_outbox o.id row_dispatched db,
)
send o (some t) (some error) (jobs, db) = (jobs, update_outbox o.id (row_refused error) db)

abbrev pub send_round : (Outbox → Option String) → Outbox → List Job × Db → List Job × Db
send_round refusal o (jobs, db) = send o (route o.task_type) (refusal o) (jobs, db)

-- The jobs that the call enqueues, and the database.
unfoldable pub dispatch_outbox : (Outbox → Option String) → ℕ → ℕ → Db → List Job × Db
dispatch_outbox refusal now batch_size db =
    each (send_round refusal)
      (take batch_size
        (order_by (λ (o : Outbox). o.created_at) (where_ (is_waiting now) db.outbox)))
      ([], db)

-- What cleanup_outbox deletes.
abbrev pub is_old : ℕ → ℕ → Outbox → Bool
is_old now retention_days o = o.dispatched && ltb o.created_at (now - days retention_days)

unfoldable pub cleanup_outbox : ℕ → ℕ → Db → ℕ × Db
cleanup_outbox now retention_days db =
    let kept = where_ (λ o. not (is_old now retention_days o)) db.outbox in
    (length (where_ (is_old now retention_days) db.outbox), record db { outbox = kept })
