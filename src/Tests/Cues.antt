-- ===== src/Tests/Cues.antt =====
-- Cues on small inputs.
use Prim.Native.String.{len}
use mathlib.Core.Option
use cueapi_core.Executions.Replay.{backoff_or_default}
use cueapi_core.Prelude.{
  or_else, ◌+◌, ◌≡◌, ◌≤◌, refl, true, false, none, some, List, [], ◌∷◌, ◌++◌, find, leb,
  count_where, arith, first_where, where_, update_where, update_row,
}
use cueapi_core.Store.{
  or_empty, TaskType, cue_task, User, user_keyed, ExecStatus, ScheduleType, Transport, Cue,
  Execution, Outbox, cue_keyed,
}
use cueapi_core.Executions.Answer.{answered}
use cueapi_core.Cues.Documents.{object, no_fields, field, text, contains_null_byte}
use cueapi_core.Cues.{Outside, Caller, CueCreate, create_cue, new_cue, counts}
use cueapi_core.Cues.Update.{CueUpdate, pause, resume, update_cue}
use cueapi_core.Cues.Manage.{aware, fire_cue, own_cue, build_ipc_delivery_metadata}
use cueapi_core.Cues.Requests.{Request, created, updated, serve_all}
use cueapi_core.Cues.Sound.{IsSound, serve_all-IsSound}
use cueapi_core.Cues.Limit.{create_cue_within_limit}
use cueapi_core.Cues.Fires.{fire_cue_waits}
use cueapi_core.Poller.Dispatch.{is_waiting}
use cueapi_core.Tests.Samples.{empty_db, daily}

abbrev out : Outside
out = record {
  is_safe = λ t. true;
  is_timezone = λ t. true;
  is_cron = λ t. true;
  next_run = λ cron zone now. now + 60;
  dumps = λ j. "{}";
  size = len;
}

abbrev caller : Caller
caller = record {
  id = 7;
  active_cue_limit = 2;
  quota_disabled = false;
  heartbeat_timeout_seconds = 180;
}

abbrev hourly : CueCreate
hourly = record {
  name = "hourly";
  description = none;
  schedule = record {
    schedule_type = "recurring";
    cron = some "0 * * * *";
    at = none;
    timezone = "UTC";
  };
  callback = record { url = some "https://example.com"; method = "POST"; headers = none };
  transport = Transport.webhook;
  payload = object no_fields;
  retry = record { max_attempts = 3; backoff_minutes = 1 ∷ 5 ∷ [] };
  on_failure = none;
  verification = none;
}

abbrev change : CueUpdate
change = record {
  name = none;
  description = none;
  status = some pause;
  schedule = none;
  callback = none;
  payload = none;
  retry = none;
  on_failure = none;
  verification = none;
}

abbrev requests : List Request
requests =
    updated out 50 7 2 (record change { status = some resume })
    ∷ updated out 40 7 2 change
    ∷ created out 30 2 caller hourly empty_db
    ∷ []

null_inside : contains_null_byte (object (field "a" (text "b") no_fields)) ≡ false
unfolding contains_null_byte
null_inside = refl

-- The cue that has been paused and resumed runs a minute after that.
resumed_next :
    Option.map (λ (c : Cue). c.next_run) (find 2 (serve_all requests empty_db).cues)
    ≡ some (some 110)
unfolding find create_cue update_cue update_where update_row first_where count_where
    contains_null_byte
resumed_next = refl

serve_all-IsSound_example : IsSound (serve_all requests empty_db).cues
serve_all-IsSound_example = serve_all-IsSound requests empty_db ((tt, tt), ((refl, refl), tt))

abbrev hourly_row : Cue
hourly_row =
    new_cue 30 2 7 hourly "{}"
      (record { kind = ScheduleType.recurring; cron = some "0 * * * *"; at = none; next = 90 })

hourly_created :
    (create_cue out 30 2 caller hourly empty_db empty_db).0 ≡ answered (false, hourly_row)
unfolding create_cue first_where count_where contains_null_byte
hourly_created = refl

create_cue_within_limit_example :
    count_where (counts 7) (create_cue out 30 2 caller hourly empty_db empty_db).1.cues ≤ 2
create_cue_within_limit_example =
    create_cue_within_limit out 30 2 caller hourly empty_db (false, hourly_row) refl hourly_created

daily_owned : own_cue 7 1 empty_db ≡ some daily
unfolding find
daily_owned = refl

no_session : build_ipc_delivery_metadata 1 [] ≡ some none
unfolding build_ipc_delivery_metadata where_
no_session = refl

fire_cue_waits_example :
    let (answer, db') = fire_cue 500 7 1 90 (some (aware 800)) [] empty_db in
    (e : Execution) × (o : Outbox) × (db'.executions ≡ [] ++ e ∷ [])
    × (db'.outbox ≡ [] ++ o ∷ [])
    × (e.id ≡ 90)
    × (e.cue_id ≡ 1)
    × (e.status ≡ ExecStatus.pending)
    × (e.scheduled_for ≡ 800)
    × (e.triggered_by ≡ some "manual_fire")
    × (e.outcome_metadata ≡ none)
    × (o.execution_id ≡ some 90)
    × (o.cue_id ≡ some 1)
    × (o.task_type ≡ TaskType.deliver)
    × (o.payload
        ≡ cue_task (record {
          execution_id = 90;
          cue_id = 1;
          cue_name = daily.name;
          user_id = some 7;
          scheduled_for = 800;
          callback_url = daily.callback_url;
          callback_method = daily.callback_method;
          callback_headers = or_empty daily.callback_headers;
          payload = or_empty daily.payload;
          retry_max_attempts = daily.retry_max_attempts;
          retry_backoff_minutes = backoff_or_default daily.retry_backoff_minutes;
          monthly_execution_limit = none;
          webhook_secret =
              or_else (Option.map (λ (u : User). u.webhook_secret) (find 7 empty_db.users)) "";
        }))
    × (is_waiting 600 o ≡ leb 800 600)
unfolding first_where
fire_cue_waits_example =
    fire_cue_waits 500 7 1 90 600 (some 800) [] empty_db daily none daily_owned refl no_session refl
      (omega arith)
