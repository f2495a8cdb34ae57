-- ===== src/Messages/Lifecycle.antt =====
-- The states of a message as the README draws them, and the jobs and handlers that move messages.
pub mod Steps
pub mod Handlers
pub mod Refines
use mathlib.Core.Option
use cueapi_core.Prelude.{
  ℕ, ◌≡◌, ◌⊎◌, Bool, true, false, not, ◌&&◌, ◌||◌, Option, none, some, List, ◌==◌, find,
}
use cueapi_core.Store.{DeliveryState, delivery_eq, Message, Agent, Db, message_keyed}
use cueapi_core.Executions.Answer.{Answer, answered}
use cueapi_core.Messages.Attempt.{AttemptResult, route_attempt_outcome}
use cueapi_core.Messages.Push.{claim_message}
use cueapi_core.Messages.Recover.{recover_stale_message_deliveries}
use cueapi_core.Messages.Address.{Addr}
use cueapi_core.Messages.Receipts.{is_terminal, mark_read, mark_acked}
use cueapi_core.Messages.Inbox.{Query, Listing, list_inbox}
use cueapi_core.Messages.Cleanup.{
  Cleaned, expire_old_messages, cleanup_expired_messages, free_old_idempotency_keys,
}

-- queued → delivering → delivered → read → acked, with the branches.
abbrev is_push : DeliveryState → DeliveryState → Bool
is_push DeliveryState.queued t = t == DeliveryState.delivering
is_push DeliveryState.retry_ready t = t == DeliveryState.delivering
is_push DeliveryState.delivering t =
    t == DeliveryState.delivered || t == DeliveryState.retry_ready || t == DeliveryState.failed
is_push _ t = false

-- The recipient reads and acks, or time runs out: from every state that is not terminal.
abbrev is_end : DeliveryState → DeliveryState → Bool
is_end s t =
    not (is_terminal s)
    && (t == DeliveryState.read || t == DeliveryState.acked || t == DeliveryState.expired)

abbrev is_poll : DeliveryState → DeliveryState → Bool
is_poll s t = s == DeliveryState.queued && t == DeliveryState.delivered

-- One move of a message, or none; a terminal message may vanish.
abbrev pub may_move : Option DeliveryState → Option DeliveryState → Bool
may_move none none = true
may_move none (some t) = false
may_move (some s) none = is_terminal s
may_move (some s) (some t) = s == t || is_push s t || is_poll s t || is_end s t

pub data Moves : Option DeliveryState → Option DeliveryState → Type 0 where
  rests : {s : Option DeliveryState} → Moves s s
  moves : {s t u : Option DeliveryState} → may_move s t ≡ true → Moves t u → Moves s u

abbrev pub state_of : Option Message → Option DeliveryState
state_of none = none
state_of (some m) = some m.delivery_state

abbrev pub state_at : ℕ → Db → Option DeliveryState
state_at j db = state_of (find j db.messages)

-- One step of the messaging service on the messages that are there. The outcome of an attempt comes
-- while its message is still delivering.
pub data MessageStep : Db → Db → Type 0 where
  claims :
      {db : Db} (now i : ℕ) (expected : DeliveryState)
      → (expected ≡ DeliveryState.queued) ⊎ (expected ≡ DeliveryState.retry_ready)
      → MessageStep db (claim_message now i expected db).1
  settles :
      {db db' : Db} (now i : ℕ) (to_agent : Agent) (attempt : ℕ) (result : AttemptResult)
      (m : Message)
      → find i db.messages ≡ some m
      → m.delivery_state ≡ DeliveryState.delivering
      → route_attempt_outcome now i to_agent attempt result db ≡ some db'
      → MessageStep db db'
  recovers :
      {db : Db} (start now stale_seconds : ℕ)
      → MessageStep db (recover_stale_message_deliveries start now stale_seconds db).1
  polls :
      {db db' : Db} (now_gate upd_now user : ℕ) (addr : Addr) (q : Query) (answer : Listing)
      → list_inbox now_gate upd_now user addr q db ≡ answered (answer, db')
      → MessageStep db db'
  reads :
      {db db' : Db} (now user i : ℕ) (m : Message)
      → mark_read now user i db ≡ answered (m, db')
      → MessageStep db db'
  acks :
      {db db' : Db} (now user i : ℕ) (m : Message)
      → mark_acked now user i db ≡ answered (m, db')
      → MessageStep db db'
  expires :
      {db : Db} (now : ℕ) (dry_run : Bool) → MessageStep db (expire_old_messages now dry_run db).1
  deletes :
      {db db' : Db} (now : ℕ) (dry_run : Bool) (cleaned : Cleaned) (samples : List ℕ)
      → cleanup_expired_messages now dry_run db ≡ some (cleaned, samples, db')
      → MessageStep db db'
  frees :
      {db : Db} (now : ℕ) (dry_run : Bool)
      → MessageStep db (free_old_idempotency_keys now dry_run db).1

pub data MessageRun : Db → Db → Type 0 where
  stops : {db : Db} → MessageRun db db
  goes_on : {db db' db'' : Db} → MessageStep db db' → MessageRun db' db'' → MessageRun db db''
