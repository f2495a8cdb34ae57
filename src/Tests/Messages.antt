-- ===== src/Tests/Messages.antt =====
-- Messages, their pushes and their retries on a small database.
use cueapi_core.Prelude.{
  ℕ, zero, suc, ◌≡◌, ◌≤◌, refl, true, false, String, none, some, [], ◌∷◌, ◌++◌, find, update_row,
  Bool, min, max, ◌-◌, update_where, if◌then◌else◌, arith, nat_eq, ◌==◌,
}
use cueapi_core.Store.{
  DeliveryState, TaskType, Message, Agent, MessageTask, Db, message_keyed, agent_keyed, user_keyed,
  nth,
}
use cueapi_core.Messages.Classify.{Category, verdict, service_unavailable, classify_response}
use cueapi_core.Messages.Attempt.{
  AttemptResult, Answered, Request, responds, deliver_message_to_webhook, last_time,
  own_min_seconds, result_of, message_retry_backoff_minutes,
}
use cueapi_core.Messages.Attempt.Settled.{routed, next_time, again, retry_row}
use cueapi_core.Messages.RetryAfter.{digit_count, parse_retry_after}
use cueapi_core.Messages.RetryAfter.RoundTrip.{decimal, parse_retry_after-decimal}
use cueapi_core.Messages.Push.{PushCtx, Loaded, claim_message, check_cap, attempt_message}
use cueapi_core.Messages.Push.Settles.{attempt_message_settles}
use cueapi_core.Messages.Push.Holds.{IsOver, Holds}
use cueapi_core.Messages.Push.Ends.{conversation, conversation_ends}
use cueapi_core.Tests.Memory.{memory_redis, no_keys}
use cueapi_core.Tests.Samples.{owner, empty_db}

abbrev pub sender : Agent
sender = record {
  id = 2;
  user_id = 7;
  slug = "sender";
  webhook_url = none;
  webhook_secret = none;
  last_seen_at = none;
  deleted_at = none;
}

abbrev pub recipient : Agent
recipient = record {
  id = 3;
  user_id = 7;
  slug = "recipient";
  webhook_url = some "https://example.com/inbox";
  webhook_secret = some "secret";
  last_seen_at = none;
  deleted_at = none;
}

-- A message of `sender` to `recipient`.
abbrev pub letter : Message
letter = record {
  id = 5;
  user_id = 7;
  from_agent_id = 2;
  to_agent_id = 3;
  thread_id = 5;
  reply_to = none;
  subject = none;
  body = "hello";
  preview = "hello";
  priority = 3;
  expects_reply = false;
  reply_to_agent_id = none;
  delivery_state = DeliveryState.queued;
  metadata = "{}";
  idempotency_key = none;
  idempotency_fingerprint = none;
  created_at = 1000;
  delivered_at = none;
  read_at = none;
  acked_at = none;
  failed_at = none;
  send_at = none;
  delivering_started_at = none;
  expires_at = 9000000000;
  dispatch_priority_bucket = 1;
  correlation_id = none;
}

abbrev pub letter_db : Db
letter_db = record empty_db { messages = letter ∷ []; agents = sender ∷ recipient ∷ [] }

-- A recipient that is down: 503 without Retry-After.
abbrev down : Request → Answered
down r = responds 503 none

abbrev anywhere : String → Bool
anywhere url = true

abbrev unavailable : AttemptResult
unavailable = record {
  classification = verdict Category.retryable service_unavailable (some 503);
  retry_after_header = none;
}

-- Rounds without Redis, and nothing else going on.
abbrev alone : ℕ → PushCtx
alone k = record {
  redis = false;
  cap = 5;
  checked = 1000;
  start = 1000;
  finish = 1000;
  meanwhile = λ db. db;
}

sent_down :
    (k : ℕ) (m : Message)
    → deliver_message_to_webhook anywhere down m sender recipient "ada" (suc k) ≡ some unavailable
unfolding deliver_message_to_webhook result_of classify_response
sent_down k m = refl

minutes_small : (i : ℕ) → nth message_retry_backoff_minutes i 0 ≤ 15
minutes_small zero = omega arith
minutes_small (suc zero) = omega arith
minutes_small (suc (suc zero)) = omega arith
minutes_small (suc (suc (suc i))) = omega arith

own_min_seconds_small : (n : ℕ) → own_min_seconds n ≤ 900
own_min_seconds_small n =
    let small = minutes_small (if n == 0 then 2 else min (n - 1) 2) in omega arith

soon_down : (k : ℕ) → next_time 1000 (suc k) unavailable ≤ last_time
unfolding parse_retry_after
soon_down k = let small = own_min_seconds_small (suc k) in ground arith

goes :
    (k user : ℕ) (task : TaskType) (p : MessageTask) (x : Db × memory_redis.State)
    → (check_cap memory_redis (alone k) user task p x).0 ≡ true
unfolding check_cap
goes k user task p x = refl

letter-Holds : Holds 5 3 recipient sender owner letter_db letter
unfolding find
letter-Holds = record {
  keyed = (refl, tt);
  row = refl;
  to_row = refl;
  from_row = refl;
  user_row = refl;
}

conversation_ends_example :
    (m' : Message) × (find 5
        (conversation memory_redis anywhere down alone
          (λ k db. refl)
          goes
          5
          3
          recipient
          sender
          owner
          "https://example.com/inbox"
          refl
          (λ k m. (unavailable, sent_down k m, soon_down k))
          3
          (letter_db, no_keys)).0.messages
      ≡ some m')
    × IsOver m'.delivery_state
conversation_ends_example =
    conversation_ends memory_redis anywhere down alone (λ k db. refl) goes 5 3 recipient sender
      owner "https://example.com/inbox" refl (λ k m. (unavailable, sent_down k m, soon_down k))
      letter (letter_db, no_keys) letter-Holds refl

-- The recipient acks the message while the call runs.
abbrev acked_meanwhile : Db → Db
acked_meanwhile db = record db {
  messages =
      update_row 5 (λ m. record m { delivery_state = DeliveryState.acked; acked_at = some 1500 })
        db.messages;
}

abbrev acking : PushCtx
acking = record (alone 0) { meanwhile = acked_meanwhile; finish = 2000 }

abbrev loaded : Loaded
loaded = record { msg = letter; to_agent = recipient; from_agent = sender; user = owner }

abbrev acked_letter : Message
acked_letter = record letter {
  delivery_state = DeliveryState.acked;
  acked_at = some 1500;
  delivering_started_at = some 1000;
}

acked_during :
    find 5 (acked_meanwhile (claim_message 1000 5 DeliveryState.queued letter_db).1).messages
    ≡ some acked_letter
unfolding claim_message update_where update_row find
acked_during = refl

soon_acking : next_time 2000 1 unavailable ≤ last_time
unfolding parse_retry_after
soon_acking = ground arith

few_digits : digit_count (decimal 120) ≤ 4300
unfolding digit_count
few_digits = ground arith

-- The ack is lost, and the message is to be tried again.
attempt_message_settles_example :
    let expected = DeliveryState.queued in
    let claimed = (claim_message 1000 5 expected letter_db).1 in
    let during = acked_meanwhile claimed in
    let db' = attempt_message memory_redis anywhere down acking expected loaded 1 letter_db in
    (find 5 db'.messages ≡ some (routed 2000 1 unavailable acked_letter))
    × (db'.outbox ≡ (
        if again 1 unavailable
        then during.outbox ++ retry_row 2000 5 recipient 1 unavailable during ∷ []
        else during.outbox))
    × (db'.agents ≡ during.agents)
    × (db'.users ≡ during.users)
attempt_message_settles_example =
    attempt_message_settles memory_redis anywhere down acking DeliveryState.queued loaded 1
      letter_db letter letter-Holds.keyed letter-Holds.row unavailable acked_letter refl
      (sent_down 0 _) soon_acking acked_during

parse_retry_after-decimal_example : parse_retry_after (some (decimal 120)) 60 ≡ max 60 120
parse_retry_after-decimal_example = parse_retry_after-decimal 120 60 few_digits
