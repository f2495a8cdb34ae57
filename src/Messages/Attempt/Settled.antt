-- ===== src/Messages/Attempt/Settled.antt =====
-- _route_attempt_outcome as one statement over its branches.
use cueapi_core.Prelude.{
  ℕ, ◌+◌, ◌≡◌, ◌≤◌, refl, Bool, true, false, ◌&&◌, none, some, [], ◌∷◌, ◌++◌, if◌then◌else◌, ltb,
  leb, arith, update_row, Bool-cases, inl, inr,
}
use cueapi_core.Store.{TaskType, Message, Agent, Outbox, message_task, Db, message_keyed, seconds}
use cueapi_core.Messages.Classify.{is_success, is_retryable, Category}
use cueapi_core.Messages.RetryAfter.{parse_retry_after}
use cueapi_core.Messages.Attempt.{
  AttemptResult, own_min_seconds, last_time, message_delivered, message_retry_ready, message_failed,
  message_retry_payload, schedule_retry, route_attempt_outcome,
}

-- Another attempt is due: the reply is retryable and one of the four attempts is left.
abbrev pub again : ℕ → AttemptResult → Bool
again attempt result = is_retryable result.classification.category && ltb attempt 4

abbrev pub next_time : ℕ → ℕ → AttemptResult → ℕ
next_time now attempt result =
    now + seconds (parse_retry_after result.retry_after_header (own_min_seconds attempt))

-- The row that an attempt leaves.
abbrev pub routed : ℕ → ℕ → AttemptResult → Message → Message
routed now attempt result =
    if is_success result.classification.category
    then message_delivered now
    else if again attempt result
    then message_retry_ready
    else message_failed now

abbrev pub retry_row : ℕ → ℕ → Agent → ℕ → AttemptResult → Db → Outbox
retry_row now message_id to_agent attempt result db = record {
  id = db.next_outbox_id;
  execution_id = none;
  cue_id = none;
  task_type = TaskType.retry_message;
  payload = message_task (message_retry_payload message_id to_agent (attempt + 1));
  dispatched = false;
  dispatch_attempts = 0;
  last_dispatch_error = none;
  scheduled_at = some (next_time now attempt result);
  created_at = now;
}

success-retryable : (c : Category) → is_success c ≡ true → is_retryable c ≡ false
success-retryable c h = ground arith

-- If the time of the next attempt is a time, the outcome of an attempt is committed: a success
-- delivers the message; a retryable failure makes it retry_ready while one of the four attempts is
-- left, and in the same transaction schedules the next attempt after the backoff or the Retry-After,
-- whichever is later; any other failure fails it. No retry is scheduled in the other cases, and no
-- other message changes.
pub route_attempt_outcome_settles :
    (now i : ℕ) (to_agent : Agent) (attempt : ℕ) (result : AttemptResult) (db : Db)
    → next_time now attempt result ≤ last_time
    → (db' : Db) × (route_attempt_outcome now i to_agent attempt result db ≡ some db')
      × (db'.messages ≡ update_row i (routed now attempt result) db.messages)
      × (db'.outbox ≡ (
          if again attempt result
          then db.outbox ++ retry_row now i to_agent attempt result db ∷ []
          else db.outbox))
      × (db'.agents ≡ db.agents)
      × (db'.users ≡ db.users)
unfolding route_attempt_outcome schedule_retry
route_attempt_outcome_settles now i to_agent attempt result db soon =
    let c = result.classification.category in
    let fits : leb (next_time now attempt result) last_time ≡ true = ground arith in
    elim (Bool-cases (is_success c)) [
      | inl ok ↦ rw (ok, success-retryable c ok) (_, refl, refl, refl, refl, refl)
      | inr bad ↦ elim (Bool-cases (again attempt result)) [
        | inl more ↦ rw (bad, more, fits) (_, refl, refl, refl, refl, refl)
        | inr last ↦ rw (bad, last) (_, refl, refl, refl, refl, refl)
      ]
    ]
