-- ===== src/Messages/Cleanup.antt =====
-- worker/message_cleanup.py: expiry, deletion in batches, and the release of idempotency keys.
pub mod First
pub mod Orphans
pub mod Batches
use mathlib.Core.Option
use cueapi_core.Prelude.{
  ℕ, zero, suc, ◌+◌, ◌-◌, ◌*◌, Bool, true, false, not, ◌&&◌, ◌||◌, Option, none, some, List, [],
  ◌∷◌, ◌==◌, nat_eq, if◌then◌else◌, ltb, col_lt, is_some, is_null, find, where_, count_where,
  update_where, take, length,
}
use cueapi_core.Store.{DeliveryState, delivery_eq, Message, Db, message_keyed, days}
use cueapi_core.Messages.Receipts.{is_terminal}

abbrev pub batch_size : ℕ
batch_size = 1000

-- What the jobs answer: the eligible rows and the rows done.
pub record Cleaned : Type 0 where
  pub eligible_count : ℕ
  pub done_count : ℕ

-- A job with dry_run only counts; otherwise it updates the rows that it counts.
abbrev pub run_cleanup : Bool → (Message → Bool) → (Message → Message) → Db → Cleaned × Db
run_cleanup dry_run p f db =
    let eligible = count_where p db.messages in
    if dry_run then (record { eligible_count = eligible; done_count = 0 }, db) else (
      record { eligible_count = eligible; done_count = eligible },
      record db { messages = update_where p f db.messages },
    )

abbrev pub is_expiring : ℕ → Message → Bool
is_expiring now m = ltb m.expires_at now && not (is_terminal m.delivery_state)

abbrev pub message_expired : Message → Message
message_expired m = record m { delivery_state = DeliveryState.expired }

unfoldable pub expire_old_messages : ℕ → Bool → Db → Cleaned × Db
expire_old_messages now dry_run db = run_cleanup dry_run (is_expiring now) message_expired db

-- The cutoff is seven days ago.
abbrev pub is_deletable : ℕ → Message → Bool
is_deletable cutoff m =
    m.delivery_state == DeliveryState.acked && col_lt m.acked_at cutoff
    || m.delivery_state == DeliveryState.expired && ltb m.expires_at cutoff

abbrev pub ids : List Message → List ℕ
ids [] = []
ids (m ∷ ms) = m.id ∷ ids ms

unfoldable pub delete_rows : List Message → List Message → List Message
delete_rows batch t = where_ (λ m. not (is_some (find m.id batch))) t

abbrev pub is_in : List Message → Option ℕ → Bool
is_in batch none = false
is_in batch (some i) = is_some (find i batch)

abbrev pub is_reply_to : List Message → Message → Bool
is_reply_to batch m = is_in batch m.reply_to

abbrev pub orphaned : Message → Message
orphaned m = record m { reply_to = none }

-- DELETE ... WHERE id IN (batch). The foreign key reply_to is ON DELETE SET NULL.
unfoldable pub delete_batch : List Message → List Message → List Message
unfolding delete_rows
delete_batch batch t = update_where (is_reply_to batch) orphaned (delete_rows batch t)

-- `if not batch_ids: break`
abbrev pub unless_empty :
    List Message → ℕ × List Message → Option (ℕ × List Message) → Option (ℕ × List Message)
unless_empty [] done rest = some done
unless_empty (_ ∷ _) done rest = rest

-- `while True`, on fuel; none stands for a loop that goes on.
unfoldable pub delete_batches : ℕ → ℕ → ℕ → List Message → Option (ℕ × List Message)
unfolding delete_batch
delete_batches zero cutoff total t = none
delete_batches (suc fuel) cutoff total t =
    let batch = take batch_size (where_ (is_deletable cutoff) t) in
    let rest = delete_batches fuel cutoff (total + length batch) (delete_batch batch t) in
    unless_empty batch (total, t) rest

-- The fuel is one round for each message and one to see that none is left.
unfoldable pub cleanup_expired_messages : ℕ → Bool → Db → Option (Cleaned × List ℕ × Db)
cleanup_expired_messages now dry_run db =
    let cutoff = now - days 7 in
    let eligible = count_where (is_deletable cutoff) db.messages in
    let samples = ids (take 5 (where_ (is_deletable cutoff) db.messages)) in
    if dry_run
    then some (record { eligible_count = eligible; done_count = 0 }, samples, db)
    else Option.map
        (λ (total, t). (
          record { eligible_count = eligible; done_count = total },
          samples,
          record db { messages = t },
        ))
        (delete_batches (suc (length db.messages)) cutoff 0 db.messages)

abbrev pub has_old_key : ℕ → Message → Bool
has_old_key cutoff m = is_some m.idempotency_key && ltb m.created_at cutoff

abbrev pub key_freed : Message → Message
key_freed m = record m { idempotency_key = none }

-- The cutoff is 24 hours ago.
unfoldable pub free_old_idempotency_keys : ℕ → Bool → Db → Cleaned × Db
free_old_idempotency_keys now dry_run db =
    run_cleanup dry_run (has_old_key (now - days 1)) key_freed db
