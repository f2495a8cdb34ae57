-- ===== src/Tests/Mailbox.antt =====
-- The recovery of messages, the inbox and the cleanup on a small database.
use mathlib.Core.Option
use cueapi_core.Prelude.{
  ℕ, ◌-◌, ◌≡◌, ◌≤◌, refl, true, false, not, Option, none, some, List, [], ◌∷◌, ◌++◌, nat_eq, find,
  IsKeyed, update_row, where_, count_where, update_where, take, length, if◌then◌else◌, arith,
  string_eq,
}
use cueapi_core.Store.{
  DeliveryState, TaskType, Message, Agent, Outbox, message_task, Db, message_keyed, agent_keyed,
  days, seconds, delivery_eq,
}
use cueapi_core.Executions.Answer.{answered}
use cueapi_core.Messages.Address.{opaque_id, get_agent_owned}
use cueapi_core.Messages.Recover.{
  is_stale_message, prior_attempts, recover_stale_message_deliveries,
}
use cueapi_core.Messages.Recover.Budget.{
  recovered, AreNext, has_left, recover_stale_message_deliveries_bounds,
}
use cueapi_core.Messages.Inbox.{
  Query, page, parse_state_filter, default_states, counterpart_id, list_inbox, poll_inbox,
}
use cueapi_core.Messages.Inbox.Polled.{IsPoll, list_inbox_delivers}
use cueapi_core.Messages.Cleanup.{
  is_deletable, ids, is_reply_to, orphaned, cleanup_expired_messages,
}
use cueapi_core.Messages.Cleanup.Batches.{cleanup_expired_messages_deletes}
use cueapi_core.Tests.Messages.{letter, letter_db, sender, recipient}

-- A message that a worker has left since time 1000, after one dispatch.
abbrev stuck_db : Db
stuck_db = record letter_db {
  messages =
      record letter { delivery_state = DeliveryState.delivering; delivering_started_at = some 1000 }
      ∷ [];
  outbox =
      record {
        id = 1;
        execution_id = none;
        cue_id = none;
        task_type = TaskType.deliver_message;
        payload = message_task (record {
          message_id = 5;
          to_agent_id = 3;
          webhook_url = recipient.webhook_url;
          attempt = none;
        });
        dispatched = true;
        dispatch_attempts = 0;
        last_dispatch_error = none;
        scheduled_at = none;
        created_at = 900;
      }
      ∷ [];
  next_outbox_id = 2;
}

few_stuck : length (where_ (is_stale_message (400000000 - seconds 300)) stuck_db.messages) ≤ 100
unfolding where_
few_stuck = ground arith

stuck-IsKeyed : IsKeyed stuck_db.messages
unfolding find
stuck-IsKeyed = (refl, tt)

recover_stale_message_deliveries_bounds_example :
    let (count, db') = recover_stale_message_deliveries 400000000 400000000 300 stuck_db in
    (rows : List Outbox) × (db'.outbox ≡ stuck_db.outbox ++ rows)
    × AreNext 400000000 stuck_db
        (where_
          (has_left stuck_db)
          (where_ (is_stale_message (400000000 - seconds 300)) stuck_db.messages))
        rows
    × (count ≡ length (where_ (is_stale_message (400000000 - seconds 300)) stuck_db.messages))
    × ((j : ℕ)
        → find j db'.messages
          ≡ Option.map
              (λ m.
                if is_stale_message (400000000 - seconds 300) m
                then recovered 400000000 (prior_attempts m.id stuck_db.outbox) m
                else m)
              (find j stuck_db.messages))
recover_stale_message_deliveries_bounds_example =
    recover_stale_message_deliveries_bounds 400000000 400000000 300 stuck_db stuck-IsKeyed few_stuck

-- Two queued messages, one of them for later.
abbrev mail_db : Db
mail_db = record letter_db {
  messages = letter ∷ record letter { id = 6; send_at = some 9000; created_at = 1100 } ∷ [];
}

abbrev whole : Query
whole = record {
  states = none;
  since = none;
  thread_id = none;
  counterpart = none;
  limit = 50;
  offset = 0;
  count_only = false;
}

abbrev delivered_letter : Message
delivered_letter = record letter {
  delivery_state = DeliveryState.delivered;
  delivered_at = some 2000;
}

abbrev polled_db : Db
polled_db = record mail_db {
  messages =
      delivered_letter ∷ record letter { id = 6; send_at = some 9000; created_at = 1100 } ∷ [];
  agents = sender ∷ record recipient { last_seen_at = some 2000 } ∷ [];
}

polled :
    list_inbox 1999 2000 7 (opaque_id 3) whole mail_db
    ≡ answered (page (delivered_letter ∷ []) 1 50 0, polled_db)
unfolding list_inbox get_agent_owned find parse_state_filter poll_inbox where_ count_where
    update_where update_row
polled = refl

list_inbox_delivers_example :
    (agent : Agent) × (states : List DeliveryState) × (other : Option ℕ) × (get_agent_owned 7
        (opaque_id 3)
        true
        mail_db
      ≡ answered agent)
    × (parse_state_filter none default_states ≡ answered states)
    × (counterpart_id none mail_db ≡ answered other)
    × IsPoll 1999 2000 agent.id states whole other mail_db
        (page (delivered_letter ∷ []) 1 50 0, polled_db)
list_inbox_delivers_example =
    list_inbox_delivers 1999 2000 7 (opaque_id 3) whole mail_db polled_db
      (page (delivered_letter ∷ []) 1 50 0) (omega arith) refl polled

-- One message acked long ago, and one that is queued.
abbrev old_db : Db
old_db = record letter_db {
  messages =
      record letter { id = 4; delivery_state = DeliveryState.acked; acked_at = some 1500 }
      ∷ letter
      ∷ [];
}

old-IsKeyed : IsKeyed old_db.messages
unfolding find
old-IsKeyed = (refl, (refl, tt))

cleanup_expired_messages_deletes_example :
    let p = is_deletable (900000000000 - days 7) in
    let n = count_where p old_db.messages in
    cleanup_expired_messages 900000000000 false old_db
    ≡ some (
      record { eligible_count = n; done_count = n },
      ids (take 5 (where_ p old_db.messages)),
      record old_db {
        messages =
            update_where
              (is_reply_to (where_ p old_db.messages))
              orphaned
              (where_ (λ m. not (p m)) old_db.messages);
      },
    )
cleanup_expired_messages_deletes_example =
    cleanup_expired_messages_deletes 900000000000 old_db old-IsKeyed

one_old : count_where (is_deletable (900000000000 - days 7)) old_db.messages ≡ 1
unfolding count_where
one_old = ground arith
