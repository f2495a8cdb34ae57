-- ===== src/Store/Rows.antt =====
-- The rows of the tables, with the columns that the modelled code reads or writes.
use cueapi_core.Prelude.{ℕ, Bool, String, Option, List}
use cueapi_core.Store.Enums.{
  ExecStatus, CueStatus, ScheduleType, Transport, TaskType, DeliveryState, OutcomeState,
  VerificationMode,
}

-- A stored text: as it came, or one of the f-strings of worker/poller.py with its number.
pub data Note : Type 0 where
  said : String → Note
  recovered_from_stale stuck_in_delivering : ℕ → Note

-- cues.on_failure, a JSON object with optional keys.
pub record OnFailure : Type 0 where
  pub email : Option Bool
  pub webhook : Option String
  pub pause : Option Bool

-- executions. `evidence_validation_state` is valid (`true`) or invalid (`false`).
pub record Execution : Type 0 where
  pub id : ℕ
  pub cue_id : ℕ
  pub scheduled_for : ℕ
  pub status : ExecStatus
  pub http_status : Option ℕ
  pub response_body : Option Note
  pub attempts : ℕ
  pub next_retry : Option ℕ
  pub error_message : Option Note
  pub started_at : Option ℕ
  pub delivered_at : Option ℕ
  pub last_attempt_at : Option ℕ
  pub claimed_by_worker : Option String
  pub claimed_at : Option ℕ
  pub outcome_success : Option Bool
  pub outcome_result : Option String
  pub outcome_error : Option String
  pub outcome_metadata : Option String
  pub outcome_recorded_at : Option ℕ
  pub outcome_state : Option OutcomeState
  pub last_heartbeat_at : Option ℕ
  pub live_claim_session_token : Option String
  pub live_claimed_at : Option ℕ
  pub triggered_by : Option String
  pub evidence_external_id : Option String
  pub evidence_result_url : Option String
  pub evidence_result_ref : Option String
  pub evidence_result_type : Option String
  pub evidence_summary : Option String
  pub evidence_validation_state : Option Bool
  pub evidence_produced_at : Option ℕ
  pub evidence_artifacts : Option (List String)
  pub evidence_metadata : Option String
  pub created_at : ℕ
  pub updated_at : ℕ

-- cues
pub record Cue : Type 0 where
  pub id : ℕ
  pub user_id : ℕ
  pub name : String
  pub description : Option String
  pub status : CueStatus
  pub schedule_type : ScheduleType
  pub schedule_cron : Option String
  pub schedule_at : Option ℕ
  pub schedule_timezone : String
  pub callback_url : Option String
  pub callback_method : String
  pub callback_transport : Transport
  pub callback_headers : Option String
  pub payload : Option String
  pub retry_max_attempts : ℕ
  pub retry_backoff_minutes : List ℕ
  pub next_run : Option ℕ
  pub last_run : Option ℕ
  pub run_count : ℕ
  pub fired_count : ℕ
  pub on_failure : Option OnFailure
  pub verification_mode : Option VerificationMode
  pub created_at : ℕ
  pub updated_at : ℕ

-- The payload of an outbox row for a cue.
pub record CueTask : Type 0 where
  pub execution_id : ℕ
  pub cue_id : ℕ
  pub cue_name : String
  pub user_id : Option ℕ
  pub scheduled_for : ℕ
  pub callback_url : Option String
  pub callback_method : String
  pub callback_headers : String
  pub payload : String
  pub retry_max_attempts : ℕ
  pub retry_backoff_minutes : List ℕ
  pub monthly_execution_limit : Option ℕ
  pub webhook_secret : String

-- The payload of an outbox row for a message.
pub record MessageTask : Type 0 where
  pub message_id : ℕ
  pub to_agent_id : ℕ
  pub webhook_url : Option String
  pub attempt : Option ℕ

pub data TaskPayload : Type 0 where
  cue_task : CueTask → TaskPayload
  message_task : MessageTask → TaskPayload

-- dispatch_outbox
pub record Outbox : Type 0 where
  pub id : ℕ
  pub execution_id : Option ℕ
  pub cue_id : Option ℕ
  pub task_type : TaskType
  pub payload : TaskPayload
  pub dispatched : Bool
  pub dispatch_attempts : ℕ
  pub last_dispatch_error : Option String
  pub scheduled_at : Option ℕ
  pub created_at : ℕ

-- messages. `metadata` is the text of message_metadata.
pub record Message : Type 0 where
  pub id : ℕ
  pub user_id : ℕ
  pub from_agent_id : ℕ
  pub to_agent_id : ℕ
  pub thread_id : ℕ
  pub reply_to : Option ℕ
  pub subject : Option String
  pub body : String
  pub preview : String
  pub priority : ℕ
  pub expects_reply : Bool
  pub reply_to_agent_id : Option ℕ
  pub delivery_state : DeliveryState
  pub metadata : String
  pub idempotency_key : Option String
  pub idempotency_fingerprint : Option String
  pub created_at : ℕ
  pub delivered_at : Option ℕ
  pub read_at : Option ℕ
  pub acked_at : Option ℕ
  pub failed_at : Option ℕ
  pub send_at : Option ℕ
  pub delivering_started_at : Option ℕ
  pub expires_at : ℕ
  pub dispatch_priority_bucket : ℕ
  pub correlation_id : Option String

-- agents
pub record Agent : Type 0 where
  pub id : ℕ
  pub user_id : ℕ
  pub slug : String
  pub webhook_url : Option String
  pub webhook_secret : Option String
  pub last_seen_at : Option ℕ
  pub deleted_at : Option ℕ

-- users
pub record User : Type 0 where
  pub id : ℕ
  pub slug : String
  pub plan : Option String
  pub monthly_execution_limit : ℕ
  pub monthly_message_limit : Option ℕ
  pub webhook_secret : String

-- workers
pub record Worker : Type 0 where
  pub user_id : ℕ
  pub worker_id : String
  pub last_heartbeat : ℕ

-- usage_monthly. `month_start` is the number of the month.
pub record UsageMonthly : Type 0 where
  pub user_id : ℕ
  pub month_start : ℕ
  pub execution_count : ℕ

-- usage_messages_monthly
pub record UsageMessagesMonthly : Type 0 where
  pub user_id : ℕ
  pub month_start : ℕ
  pub message_count : ℕ

-- The database: the tables, and the sequence behind dispatch_outbox.id.
pub record Db : Type 0 where
  pub executions : List Execution
  pub cues : List Cue
  pub outbox : List Outbox
  pub messages : List Message
  pub agents : List Agent
  pub users : List User
  pub workers : List Worker
  pub usage_monthly : List UsageMonthly
  pub usage_messages_monthly : List UsageMessagesMonthly
  pub next_outbox_id : ℕ
