-- ===== src/Tests/Lifecycle.antt =====
-- A message that is pushed, read and acked, and is left alone from then on.
use cueapi_core.Prelude.{
  ◌≡◌, refl, inl, inr, false, none, some, [], ◌∷◌, nat_eq, string_eq, find, IsKeyed, update_row,
  update_where,
}
use cueapi_core.Store.{
  DeliveryState, delivery_eq, TaskType, Message, Db, message_task, message_keyed, agent_keyed,
}
use cueapi_core.Executions.Answer.{answered}
use cueapi_core.Messages.Classify.{Category, verdict, service_unavailable}
use cueapi_core.Messages.RetryAfter.{parse_retry_after}
use cueapi_core.Messages.Attempt.{AttemptResult, route_attempt_outcome, schedule_retry}
use cueapi_core.Messages.Push.{claim_message}
use cueapi_core.Messages.Receipts.{get_message_for_user, mark_acked}
use cueapi_core.Messages.Cleanup.{expire_old_messages}
use cueapi_core.Messages.Lifecycle.{
  Moves, state_at, claims, settles, acks, expires, MessageRun, stops, goes_on,
}
use cueapi_core.Messages.Lifecycle.Refines.{IsLeft, messages_refine, messages_terminal}
use cueapi_core.Tests.Messages.{letter, letter_db, recipient}

abbrev unavailable : AttemptResult
unavailable = record {
  classification = verdict Category.retryable service_unavailable (some 503);
  retry_after_header = none;
}

abbrev failed_letter : Message
failed_letter = record letter { delivery_state = DeliveryState.retry_ready }

abbrev waiting_db : Db
waiting_db = record letter_db {
  messages = failed_letter ∷ [];
  outbox =
      record {
        id = 1;
        execution_id = none;
        cue_id = none;
        task_type = TaskType.retry_message;
        payload = message_task (record {
          message_id = 5;
          to_agent_id = 3;
          webhook_url = recipient.webhook_url;
          attempt = some 2;
        });
        dispatched = false;
        dispatch_attempts = 0;
        last_dispatch_error = none;
        scheduled_at = some 60002000;
        created_at = 2000;
      }
      ∷ [];
  next_outbox_id = 2;
}

abbrev acked_letter : Message
acked_letter = record failed_letter { delivery_state = DeliveryState.acked; acked_at = some 4000 }

abbrev acked_db : Db
acked_db = record waiting_db { messages = acked_letter ∷ [] }

letter-IsKeyed : IsKeyed letter_db.messages
unfolding find
letter-IsKeyed = (refl, tt)

claimed_row :
    find 5 (claim_message 1000 5 DeliveryState.queued letter_db).1.messages
    ≡ some (record letter {
      delivery_state = DeliveryState.delivering;
      delivering_started_at = some 1000;
    })
unfolding claim_message update_where find
claimed_row = refl

settled :
    route_attempt_outcome 2000 5 recipient 1 unavailable
      (claim_message 1000 5 DeliveryState.queued letter_db).1
    ≡ some waiting_db
unfolding route_attempt_outcome schedule_retry claim_message update_where update_row
    parse_retry_after
settled = refl

acked : mark_acked 4000 7 5 waiting_db ≡ answered (acked_letter, acked_db)
unfolding mark_acked get_message_for_user find update_row update_where
acked = refl

pushed_run : MessageRun letter_db acked_db
pushed_run = goes_on (claims 1000 5 DeliveryState.queued (inl refl)) (
    goes_on (settles 2000 5 recipient 1 unavailable _ claimed_row refl settled)
      (goes_on (acks 4000 7 5 acked_letter acked) stops))

messages_refine_example : Moves (state_at 5 letter_db) (state_at 5 acked_db)
messages_refine_example = messages_refine pushed_run letter-IsKeyed 5

acked-IsKeyed : IsKeyed acked_db.messages
unfolding find
acked-IsKeyed = (refl, tt)

acked_row : find 5 acked_db.messages ≡ some acked_letter
unfolding find
acked_row = refl

-- The retry comes, and then the expiry.
abbrev after_retry : Db
after_retry = (claim_message 60002000 5 DeliveryState.retry_ready acked_db).1

late_run : MessageRun acked_db (expire_old_messages 9900000000 false after_retry).1
late_run =
    goes_on (claims 60002000 5 DeliveryState.retry_ready (inr refl))
      (goes_on (expires 9900000000 false) stops)

messages_terminal_example :
    IsLeft DeliveryState.acked (state_at 5 (expire_old_messages 9900000000 false after_retry).1)
messages_terminal_example = messages_terminal 5 acked_letter late_run acked-IsKeyed acked_row refl
