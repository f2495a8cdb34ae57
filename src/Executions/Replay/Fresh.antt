-- ===== src/Executions/Replay/Fresh.antt =====
-- What replay_execution adds to the tables.
use cueapi_core.Prelude.{
  ℕ, ◌≡◌, refl, false, ◌&&◌, none, some, [], ◌∷◌, ◌++◌, ◌==◌, if◌then◌else◌, find, arith,
}
use cueapi_core.Store.{
  Transport, transport_eq, TaskType, Execution, Cue, Outbox, cue_task, Db, user_keyed, truthy,
}
use cueapi_core.Poller.Due.{new_execution}
use cueapi_core.Executions.Answer.{refused, answered, owned}
use cueapi_core.Executions.Replay.{
  is_over, replay_payload, replay_rows, replay_row, replay_execution,
}

-- The outbox row of a replay.
abbrev pub replay_outbox : ℕ → ℕ → ℕ → Cue → Db → Outbox
replay_outbox now user new_id c db = record {
  id = db.next_outbox_id;
  execution_id = some new_id;
  cue_id = some c.id;
  task_type = TaskType.deliver;
  payload = cue_task (replay_payload user (find user db.users) c new_id now);
  dispatched = false;
  dispatch_attempts = 0;
  last_dispatch_error = none;
  scheduled_at = none;
  created_at = now;
}

-- An execution that the user may see is replayed exactly if it is over, and otherwise refused with a
-- 409. A replay keeps every execution as it is and adds one that is pending now and marked as a
-- replay, in the same transaction as the outbox row that delivers it, for a webhook cue with a URL,
-- and without one for any other cue.
pub replay_execution_adds :
    (now user i new_id : ℕ) (db : Db) (e : Execution) (c : Cue)
    → owned user i db ≡ some (e, c)
    → (db' : Db) × (db'.executions
        ≡ db.executions ++ new_execution now new_id c.id now (some "replay") ∷ [])
      × (db'.outbox ≡ (
          if c.callback_transport == Transport.webhook && truthy c.callback_url
          then db.outbox ++ replay_outbox now user new_id c db ∷ []
          else db.outbox))
      × (db'.cues ≡ db.cues)
      × (replay_execution now user i new_id db ≡ (
          if is_over e.status then answered (new_id, db') else refused 409 "execution_in_flight"))
unfolding replay_row replay_rows
replay_execution_adds now user i new_id db e c visible =
    (replay_rows now user new_id c db, ground arith, ground arith, ground arith, rw visible refl)
