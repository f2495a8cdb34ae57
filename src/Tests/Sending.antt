-- ===== src/Tests/Sending.antt =====
-- A message that is sent twice, with Redis down.
use cueapi_core.Prelude.{
  ◌≡◌, refl, true, false, none, some, [], arith, find, first_where, update_row, nat_eq, string_eq,
  ◌==◌,
}
use cueapi_core.Store.{Message, Db}
use cueapi_core.Executions.Answer.{answered}
use cueapi_core.Messages.Address.{opaque_id, resolve_address}
use cueapi_core.Messages.Quota.{
  MessageRedis, check_per_minute_rate_limit, check_message_quota, get_monthly_message_count,
  stored_message_count, increment_monthly_count, check_priority_high_limits,
  get_user_plan_and_msg_limit,
}
use cueapi_core.Messages.Draft.{
  Draft, Outside, SendCtx, Sent, admit, new_message, insert_message, resolve_reply_to,
}
use cueapi_core.Messages.Create.{rate_limits, dedup, create_message, store_message, send_message}
use cueapi_core.Messages.Create.Once.{create_message_once}
use cueapi_core.Tests.Memory.{none-ne-some}
use cueapi_core.Tests.Messages.{sender, recipient, letter_db}

-- Redis is down: every command raises.
abbrev down_messages : MessageRedis
down_messages = record {
  State = Unit {0};
  get = λ s t k. none;
  set_ex = λ s t k v ttl. none;
  incr = λ s t k. none;
  expire = λ s t k ttl. none;
  remove_until = λ s t k u. none;
  card = λ s t k. none;
  add_entry = λ s t k v. none;
  scores = λ s t k. [];
  card-scores = λ s t k n h. absurd (none-ne-some n h);
  scores-remove_until = λ s s' now t k u le h. absurd (none-ne-some s' h);
  scores-add_entry = λ s s' now k v h. absurd (none-ne-some s' h);
  scores-expire = λ s s' now t k ttl le h. absurd (none-ne-some s' h);
}

-- Users may write to their own agents.
abbrev same_tenant : Outside
same_tenant = record {
  metadata_bytes = λ t. 2;
  first_200 = λ t. t;
  fingerprint = λ to body subject priority reply_to metadata. body;
  authorize = λ u v a b kind key. u == v;
}

abbrev empty_db : Db
empty_db = record letter_db { messages = [] }

abbrev draft : Draft
draft = record {
  to = opaque_id 3;
  body = "hello";
  subject = none;
  reply_to = none;
  priority = 3;
  expects_reply = false;
  reply_to_agent = none;
  metadata = "{}";
  idempotency_key = some "k1";
  correlation_id = none;
  send_at = none;
}

abbrev at_first : SendCtx
at_first = record {
  now = 1000000;
  month = 1;
  message_id = 8;
  ttl_days = 30;
  disable_quota = false;
  durable = true;
}

abbrev later : SendCtx
later = record at_first { now = 2000000; message_id = 9 }

abbrev stored : Message
stored = new_message same_tenant at_first 7 draft sender recipient none 3 none

abbrev sent : Sent
sent = record { message = stored; was_dedup_hit = false; priority_downgraded = false }

abbrev sent_db : Db
sent_db = (create_message down_messages same_tenant at_first 7 draft sender (empty_db, tt)).1

sent_first :
    create_message down_messages same_tenant at_first 7 draft sender (empty_db, tt)
    ≡ (answered sent, sent_db, tt)
unfolding create_message admit resolve_address find rate_limits check_per_minute_rate_limit
    check_priority_high_limits send_message first_where store_message check_message_quota
    get_user_plan_and_msg_limit get_monthly_message_count stored_message_count resolve_reply_to
sent_first = refl

admitted_again : admit same_tenant 7 draft sender sent_db ≡ answered (recipient, none)
unfolding create_message admit resolve_address find update_row rate_limits
    check_per_minute_rate_limit check_priority_high_limits send_message first_where store_message
    check_message_quota get_user_plan_and_msg_limit get_monthly_message_count stored_message_count
    resolve_reply_to increment_monthly_count insert_message
admitted_again = refl

passed_again :
    rate_limits down_messages same_tenant later 7 sender recipient 3 (sent_db, tt)
    ≡ (answered (3, false), tt)
unfolding rate_limits check_per_minute_rate_limit check_priority_high_limits
passed_again = refl

create_message_once_example :
    create_message down_messages same_tenant later 7 draft sender (sent_db, tt)
    ≡ (dedup (some "hello") "hello" stored, sent_db, tt)
create_message_once_example =
    create_message_once down_messages same_tenant 7 at_first later draft draft sender sender
      recipient none 3 false empty_db sent_db tt tt tt tt sent "k1" refl refl refl sent_first refl
      (omega arith) (omega arith) admitted_again passed_again
