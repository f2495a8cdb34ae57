-- ===== src/Messages/Attempt.antt =====
-- One attempt: deliver_message_to_webhook of services/message_delivery.py, and
-- _route_attempt_outcome of worker/tasks.py. `allowed` stands for validate_url_at_delivery, which asks
-- DNS, and `post` for the HTTP call, with what is signed and sent; a call may be answered, fail with
-- an exception of httpx, or raise another exception.
pub mod Settled
use cueapi_core.Prelude.{
  ℕ, zero, suc, ◌+◌, ◌*◌, ◌-◌, min, Bool, true, false, not, ◌&&◌, ◌||◌, String, Option, none, some,
  List, [], ◌∷◌, ◌==◌, nat_eq, if◌then◌else◌, or_else, ltb, leb,
}
use cueapi_core.Store.{
  DeliveryState, TaskType, Message, Agent, MessageTask, message_task, Db, seconds, truthy, nth,
  insert_outbox, update_message,
}
use cueapi_core.Messages.Classify.{
  Category, ErrorType, client_error, missing_webhook_config, ssrf_blocked, Classification, verdict,
  is_success, is_retryable, classify_response, classify_exception, Raised, other_error,
}
use cueapi_core.Messages.RetryAfter.{parse_retry_after}

-- DeliveryAttemptResult
pub record AttemptResult : Type 0 where
  pub classification : Classification
  pub retry_after_header : Option (List ℕ)

-- The body of §5.3 with the headers; the slugs are agent@user.
pub record Request : Type 0 where
  pub url : String
  pub message : Message
  pub from_slug : String × String
  pub to_slug : String × String
  pub to_agent_id : ℕ
  pub secret : String
  pub attempt : ℕ

pub data Answered : Type 0 where
  responds : ℕ → Option (List ℕ) → Answered
  raises : Raised → Answered

abbrev pub refusal : ErrorType → AttemptResult
refusal e = record { classification = verdict Category.terminal e none; retry_after_header = none }

-- Retry-After is read on 429 and 503 only. An exception that is no httpx.RequestError is not caught:
-- none.
unfoldable pub result_of : Answered → Option AttemptResult
result_of (responds status header) = some (record {
  classification = classify_response status;
  retry_after_header = if status == 429 || status == 503 then header else none;
})
result_of (raises other_error) = none
result_of (raises r) =
    some (record { classification = classify_exception r; retry_after_header = none })

unfoldable pub deliver_message_to_webhook :
    (String → Bool)
    → (Request → Answered)
    → Message
    → Agent
    → Agent
    → String
    → ℕ
    → Option AttemptResult
deliver_message_to_webhook allowed post msg from_agent to_agent user_slug attempt =
    let url = or_else to_agent.webhook_url "" in
    let request : Request = record {
      url = url;
      message = msg;
      from_slug = (from_agent.slug, user_slug);
      to_slug = (to_agent.slug, user_slug);
      to_agent_id = to_agent.id;
      secret = or_else to_agent.webhook_secret "";
      attempt = attempt;
    } in
    if not (truthy to_agent.webhook_url) || not (truthy to_agent.webhook_secret)
    then some (refusal missing_webhook_config)
    else if not (allowed url)
    then some (refusal ssrf_blocked)
    else result_of (post request)

-- MESSAGE_RETRY_MAX_ATTEMPTS and MESSAGE_RETRY_BACKOFF_MINUTES
abbrev pub message_retry_max_attempts : ℕ
message_retry_max_attempts = 3

abbrev pub message_retry_backoff_minutes : List ℕ
message_retry_backoff_minutes = 1 ∷ 5 ∷ 15 ∷ []

-- Attempts are counted from 1. Python reads the index -1 of attempt 0 as the last place.
abbrev pub own_min_seconds : ℕ → ℕ
own_min_seconds attempt =
    nth message_retry_backoff_minutes (if attempt == 0 then 2 else min (attempt - 1) 2) 0 * 60

-- The last microsecond of datetime: a later one is an OverflowError.
abbrev pub last_time : ℕ
last_time = 253402300799999999

abbrev pub message_delivered : ℕ → Message → Message
message_delivered now m = record m {
  delivery_state = DeliveryState.delivered;
  delivered_at = some now;
  delivering_started_at = none;
}

abbrev pub message_retry_ready : Message → Message
message_retry_ready m = record m {
  delivery_state = DeliveryState.retry_ready;
  delivering_started_at = none;
}

abbrev pub message_failed : ℕ → Message → Message
message_failed now m = record m {
  delivery_state = DeliveryState.failed;
  failed_at = some now;
  delivering_started_at = none;
}

abbrev pub message_retry_payload : ℕ → Agent → ℕ → MessageTask
message_retry_payload message_id to_agent attempt = record {
  message_id = message_id;
  to_agent_id = to_agent.id;
  webhook_url = to_agent.webhook_url;
  attempt = some attempt;
}

-- The retry that is scheduled, in one transaction with the new state.
unfoldable pub schedule_retry : ℕ → ℕ → Agent → ℕ → ℕ → Db → Db
schedule_retry now message_id to_agent next_attempt scheduled_at db =
    update_message message_id message_retry_ready (
      insert_outbox now none none TaskType.retry_message
        (message_task (message_retry_payload message_id to_agent next_attempt)) (some scheduled_at)
        db)

-- _route_attempt_outcome; none is the OverflowError of a time that is too late.
unfoldable pub route_attempt_outcome : ℕ → ℕ → Agent → ℕ → AttemptResult → Db → Option Db
route_attempt_outcome now message_id to_agent attempt result db =
    let category = result.classification.category in
    let delay = parse_retry_after result.retry_after_header (own_min_seconds attempt) in
    let scheduled_at = now + seconds delay in
    let retried = schedule_retry now message_id to_agent (attempt + 1) scheduled_at db in
    let delivered = update_message message_id (message_delivered now) db in
    let failed = update_message message_id (message_failed now) db in
    if is_success category
    then some delivered
    else if is_retryable category && ltb attempt (message_retry_max_attempts + 1)
    then (if leb scheduled_at last_time then some retried else none)
    else some failed
