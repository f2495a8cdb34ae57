-- ===== src/Executions/Replay.antt =====
-- POST /{execution_id}/replay. `new_id` is the identifier that uuid4 draws.
pub mod Fresh
use mathlib.Core.Option
use cueapi_core.Prelude.{
  ℕ, Bool, true, false, ◌&&◌, ◌||◌, String, Option, none, some, List, [], ◌∷◌, ◌++◌, ◌==◌,
  if◌then◌else◌, or_else, find,
}
use cueapi_core.Store.{
  ExecStatus, exec_eq, Transport, transport_eq, TaskType, Execution, Cue, User, CueTask, cue_task,
  Db, user_keyed, insert_outbox, truthy, or_empty,
}
use cueapi_core.Poller.Due.{new_execution}
use cueapi_core.Executions.Answer.{Answer, refused, answered, not_found, owned}

-- The statuses of an execution that is over.
abbrev pub is_over : ExecStatus → Bool
is_over s =
    s == ExecStatus.success
    || s == ExecStatus.failed
    || s == ExecStatus.missed
    || s == ExecStatus.outcome_timeout

-- `retry_backoff_minutes or [1, 5, 15]`
abbrev pub backoff_or_default : List ℕ → List ℕ
backoff_or_default [] = 1 ∷ 5 ∷ 15 ∷ []
backoff_or_default (x ∷ xs) = x ∷ xs

unfoldable pub replay_payload : ℕ → Option User → Cue → ℕ → ℕ → CueTask
replay_payload user row c new_id now = record {
  execution_id = new_id;
  cue_id = c.id;
  cue_name = c.name;
  user_id = some user;
  scheduled_for = now;
  callback_url = c.callback_url;
  callback_method = c.callback_method;
  callback_headers = or_empty c.callback_headers;
  payload = or_empty c.payload;
  retry_max_attempts = c.retry_max_attempts;
  retry_backoff_minutes = backoff_or_default c.retry_backoff_minutes;
  monthly_execution_limit = none;
  webhook_secret = or_else (Option.map (λ (u : User). u.webhook_secret) row) "";
}

-- What is added to the tables.
unfoldable pub replay_rows : ℕ → ℕ → ℕ → Cue → Db → Db
replay_rows now user new_id c db =
    let added = record db {
      executions = db.executions ++ new_execution now new_id c.id now (some "replay") ∷ [];
    } in
    let sent =
      insert_outbox now (some new_id) (some c.id) TaskType.deliver
        (cue_task (replay_payload user (find user db.users) c new_id now)) none added in
    if c.callback_transport == Transport.webhook && truthy c.callback_url then sent else added

unfoldable pub replay_row : ℕ → ℕ → ℕ → Option (Execution × Cue) → Db → Answer (ℕ × Db)
replay_row now user new_id none db = not_found
replay_row now user new_id (some (e, c)) db =
    if is_over e.status
    then answered (new_id, replay_rows now user new_id c db)
    else refused 409 "execution_in_flight"

abbrev pub replay_execution : ℕ → ℕ → ℕ → ℕ → Db → Answer (ℕ × Db)
replay_execution now user i new_id db = replay_row now user new_id (owned user i db) db
