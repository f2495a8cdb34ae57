-- ===== src/Cues/Fires.antt =====
-- A fire by hand, up to the dispatcher of the outbox.
use mathlib.Core.Option
use cueapi_core.Prelude.{
  ℕ, ◌≤◌, ◌≡◌, refl, ap, ◌∙◌, true, false, ◌&&◌, String, Option, none, some, List, [], ◌∷◌, ◌++◌,
  ◌||◌, is_null, max, or_else, col_le, find, ◌==◌, leb, arith,
}
use cueapi_core.Store.{
  or_empty, ExecStatus, TaskType, cue_task, user_keyed, Execution, Cue, Outbox, User, Db, Transport,
  transport_eq, truthy,
}
use cueapi_core.Executions.Replay.{replay_payload, backoff_or_default}
use cueapi_core.Poller.Due.{new_execution}
use cueapi_core.Poller.Dispatch.{is_waiting}
use cueapi_core.Cues.Manage.{
  LiveSession, fire_cue, fire_own, fire_found, fire_rows, own_cue, build_ipc_delivery_metadata,
  aware, effective_time, gate, has_run,
}

-- The time that a request asks for, but not before now.
abbrev pub not_before : ℕ → Option ℕ → ℕ
not_before now none = now
not_before now (some at) = max now at

effective_time-not_before :
    (now : ℕ) (send_at : Option ℕ)
    → effective_time now (Option.map aware send_at) ≡ some (not_before now send_at)
unfolding effective_time
effective_time-not_before now none = refl
effective_time-not_before now (some at) = ground arith

gate-waits :
    (now t : ℕ) (send_at : Option ℕ)
    → now ≤ t
    → (is_null (gate now (not_before now send_at)) || col_le (gate now (not_before now send_at)) t)
      ≡ leb (not_before now send_at) t
gate-waits now t none later = ground arith
gate-waits now t (some at) later = ground arith

fire_cue-rows :
    (now user i new_id : ℕ) (send_at : Option ℕ) (sessions : List LiveSession) (db : Db) (c : Cue)
    (metadata : Option String)
    → own_cue user i db ≡ some c
    → build_ipc_delivery_metadata c.id sessions ≡ some metadata
    → has_run c.id (not_before now send_at) db ≡ false
    → (fire_cue now user i new_id (Option.map aware send_at) sessions db).1
      ≡ fire_rows now user new_id metadata (not_before now send_at) c db
unfolding fire_cue fire_own fire_found
fire_cue-rows now user i new_id send_at sessions db c metadata owned session free =
    ap (λ o. (fire_own now user new_id (Option.map aware send_at) sessions o db).1) owned
    ∙ ap (λ at. (fire_found now user new_id at c (build_ipc_delivery_metadata c.id sessions) db).1)
        (effective_time-not_before now send_at)
    ∙ ap (λ m. (fire_found now user new_id (some (not_before now send_at)) c m db).1) session
    ∙ rw free refl

-- The webhook cue of a user who fires it, with at most one attached IPC session and no execution for that time
-- yet, and with a time that has a timezone or none, gets one pending execution, for the time asked for, or for
-- now if that has passed; and one outbox row with the call of the cue in its present state, its payload and the
-- user's secret. The dispatcher holds the row back until that time, and has it waiting from then on.
pub fire_cue_waits :
    (now user i new_id t : ℕ) (send_at : Option ℕ) (sessions : List LiveSession) (db : Db) (c : Cue)
    (metadata : Option String)
    → own_cue user i db ≡ some c
    → (c.callback_transport == Transport.webhook && truthy c.callback_url) ≡ true
    → build_ipc_delivery_metadata c.id sessions ≡ some metadata
    → has_run c.id (not_before now send_at) db ≡ false
    → now ≤ t
    → let (answer, db') = fire_cue now user i new_id (Option.map aware send_at) sessions db in
      (e : Execution) × (o : Outbox) × (db'.executions ≡ db.executions ++ e ∷ [])
      × (db'.outbox ≡ db.outbox ++ o ∷ [])
      × (e.id ≡ new_id)
      × (e.cue_id ≡ c.id)
      × (e.status ≡ ExecStatus.pending)
      × (e.scheduled_for ≡ not_before now send_at)
      × (e.triggered_by ≡ some "manual_fire")
      × (e.outcome_metadata ≡ metadata)
      × (o.execution_id ≡ some new_id)
      × (o.cue_id ≡ some c.id)
      × (o.task_type ≡ TaskType.deliver)
      × (o.payload
          ≡ cue_task (record {
            execution_id = new_id;
            cue_id = c.id;
            cue_name = c.name;
            user_id = some user;
            scheduled_for = not_before now send_at;
            callback_url = c.callback_url;
            callback_method = c.callback_method;
            callback_headers = or_empty c.callback_headers;
            payload = or_empty c.payload;
            retry_max_attempts = c.retry_max_attempts;
            retry_backoff_minutes = backoff_or_default c.retry_backoff_minutes;
            monthly_execution_limit = none;
            webhook_secret =
                or_else (Option.map (λ (u : User). u.webhook_secret) (find user db.users)) "";
          }))
      × (is_waiting t o ≡ leb (not_before now send_at) t)
unfolding fire_rows new_execution replay_payload
fire_cue_waits now user i new_id t send_at sessions db c metadata owned webhook session free later =
    let at = not_before now send_at in
    let e = record (new_execution now new_id c.id at (some "manual_fire")) {
      outcome_metadata = metadata;
    } in
    let o : Outbox = record {
      id = db.next_outbox_id;
      execution_id = some new_id;
      cue_id = some c.id;
      task_type = TaskType.deliver;
      payload = cue_task (replay_payload user (find user db.users) c new_id at);
      dispatched = false;
      dispatch_attempts = 0;
      last_dispatch_error = none;
      scheduled_at = gate now at;
      created_at = now;
    } in
    let rows = fire_cue-rows now user i new_id send_at sessions db c metadata owned session free in
    (
      e,
      o,
      ap (λ (d : Db). d.executions) rows ∙ rw webhook refl,
      ap (λ (d : Db). d.outbox) rows ∙ rw webhook refl,
      refl,
      refl,
      refl,
      refl,
      refl,
      refl,
      refl,
      refl,
      refl,
      refl,
      gate-waits now t send_at later,
    )
