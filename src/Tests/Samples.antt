-- ===== src/Tests/Samples.antt =====
-- The rows that the tests share.
use cueapi_core.Prelude.{true, none, some, [], ◌∷◌}
use cueapi_core.Store.{
  ExecStatus, CueStatus, ScheduleType, Transport, Execution, Cue, User, CueTask, Db,
}

-- A daily webhook cue of user 7, due at time 1000, that asks to be paused when it fails for good.
abbrev pub daily : Cue
daily = record {
  id = 1;
  user_id = 7;
  name = "daily";
  description = none;
  status = CueStatus.active;
  schedule_type = ScheduleType.recurring;
  schedule_cron = some "0 9 * * *";
  schedule_at = none;
  schedule_timezone = "UTC";
  callback_url = some "https://example.com";
  callback_method = "POST";
  callback_transport = Transport.webhook;
  callback_headers = none;
  payload = none;
  retry_max_attempts = 3;
  retry_backoff_minutes = 1 ∷ 5 ∷ 15 ∷ [];
  next_run = some 1000;
  last_run = none;
  run_count = 0;
  fired_count = 0;
  on_failure = some (record { email = none; webhook = none; pause = some true });
  verification_mode = none;
  created_at = 0;
  updated_at = 0;
}

abbrev pub owner : User
owner = record {
  id = 7;
  slug = "ada";
  plan = none;
  monthly_execution_limit = 300;
  monthly_message_limit = none;
  webhook_secret = "whsec";
}

-- Its execution for time 1000.
abbrev pub waiting : Execution
waiting = record {
  id = 40;
  cue_id = 1;
  scheduled_for = 1000;
  status = ExecStatus.pending;
  http_status = none;
  response_body = none;
  attempts = 0;
  next_retry = none;
  error_message = none;
  started_at = none;
  delivered_at = none;
  last_attempt_at = none;
  claimed_by_worker = none;
  claimed_at = none;
  outcome_success = none;
  outcome_result = none;
  outcome_error = none;
  outcome_metadata = none;
  outcome_recorded_at = none;
  outcome_state = none;
  last_heartbeat_at = none;
  live_claim_session_token = none;
  live_claimed_at = none;
  triggered_by = none;
  evidence_external_id = none;
  evidence_result_url = none;
  evidence_result_ref = none;
  evidence_result_type = none;
  evidence_summary = none;
  evidence_validation_state = none;
  evidence_produced_at = none;
  evidence_artifacts = none;
  evidence_metadata = none;
  created_at = 1000;
  updated_at = 1000;
}

abbrev pub done : Execution
done = record waiting { status = ExecStatus.success; attempts = 1 }

abbrev pub empty_db : Db
empty_db = record {
  executions = [];
  cues = daily ∷ [];
  outbox = [];
  messages = [];
  agents = [];
  users = owner ∷ [];
  workers = [];
  usage_monthly = [];
  usage_messages_monthly = [];
  next_outbox_id = 1;
}

abbrev pub waiting_db : Db
waiting_db = record empty_db { executions = waiting ∷ [] }

abbrev pub done_db : Db
done_db = record empty_db { executions = done ∷ [] }

abbrev pub job : CueTask
job = record {
  execution_id = 40;
  cue_id = 1;
  cue_name = "daily";
  user_id = some 7;
  scheduled_for = 1000;
  callback_url = some "https://example.com";
  callback_method = "POST";
  callback_headers = "{}";
  payload = "{}";
  retry_max_attempts = 3;
  retry_backoff_minutes = 1 ∷ 5 ∷ 15 ∷ [];
  monthly_execution_limit = some 300;
  webhook_secret = "whsec";
}
