-- ===== src/Messages/Recover.antt =====
-- recover_stale_message_deliveries of worker/poller.py: messages that a worker has left in delivering.
pub mod Budget
use mathlib.Core.Option
use cueapi_core.Prelude.{
  ℕ, ◌+◌, ◌-◌, Bool, false, ◌&&◌, ◌||◌, String, Option, none, some, List, ◌==◌, nat_eq,
  if◌then◌else◌, ltb, find, where_, take, count_where, each,
}
use cueapi_core.Store.{
  DeliveryState, delivery_eq, TaskType, task_eq, Message, Agent, MessageTask, TaskPayload, cue_task,
  message_task, Outbox, Db, agent_keyed, message_keyed, seconds, insert_outbox, update_message,
}
use cueapi_core.Poller.Recovery.{before}
use cueapi_core.Messages.Attempt.{message_retry_max_attempts, message_retry_ready, message_failed}

abbrev pub is_stale_message : ℕ → Message → Bool
is_stale_message cutoff m =
    m.delivery_state == DeliveryState.delivering && before m.delivering_started_at cutoff

-- `payload['message_id']` of the payload of a message task; that of a cue has none.
abbrev pub is_about : ℕ → TaskPayload → Bool
is_about i (cue_task p) = false
is_about i (message_task p) = p.message_id == i

-- A row whose dispatch counts as an attempt.
abbrev pub is_attempt : ℕ → Outbox → Bool
is_attempt i o =
    (o.task_type == TaskType.deliver_message || o.task_type == TaskType.retry_message)
    && is_about i o.payload
    && o.dispatched

unfoldable pub prior_attempts : ℕ → List Outbox → ℕ
prior_attempts i outbox = count_where (is_attempt i) outbox

abbrev pub webhook_of : Option Agent → Option String
webhook_of none = none
webhook_of (some a) = a.webhook_url

abbrev pub again_payload : ℕ → Option Agent → Message → MessageTask
again_payload prior agent m = record {
  message_id = m.id;
  to_agent_id = m.to_agent_id;
  webhook_url = webhook_of agent;
  attempt = some (prior + 1);
}

-- One message of the loop. The retry is for now: the crash is not the recipient's.
unfoldable pub recover_message : ℕ → Message → ℕ × Db → ℕ × Db
recover_message now m (count, db) =
    let prior = prior_attempts m.id db.outbox in
    let payload = again_payload prior (find m.to_agent_id db.agents) m in
    let retried =
      update_message m.id message_retry_ready
        (insert_outbox now none none TaskType.retry_message (message_task payload) (some now) db) in
    let failed = update_message m.id (message_failed now) db in
    (count + 1, if ltb prior (message_retry_max_attempts + 1) then retried else failed)

-- `start` is the time of the cutoff and `now` that of the statements.
unfoldable pub recover_stale_message_deliveries : ℕ → ℕ → ℕ → Db → ℕ × Db
recover_stale_message_deliveries start now stale_seconds db =
    each (recover_message now)
      (take 100 (where_ (is_stale_message (start - seconds stale_seconds)) db.messages)) (0, db)
