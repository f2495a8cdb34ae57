-- ===== src/Messages/Push.antt =====
-- deliver_message_task and retry_message_task of worker/tasks.py, with the cap on the deliveries of
-- a user at one time.
pub mod Settles
pub mod Holds
pub mod Ends
use mathlib.Core.Option
use cueapi_core.Prelude.{
  ℕ, zero, suc, ◌+◌, Bool, true, false, not, ◌&&◌, String, Option, none, some, List, [], ◌∷◌, ◌==◌,
  nat_eq, if◌then◌else◌, or_else, ltb, ◌>>=◌, is_some, find, first_where, update_where,
}
use cueapi_core.Redis.{Redis, Key, concurrent_key}
use cueapi_core.Store.{
  DeliveryState, delivery_eq, TaskType, Message, Agent, User, MessageTask, message_task, Db,
  message_keyed, agent_keyed, user_keyed, seconds, insert_outbox,
}
use cueapi_core.Messages.Attempt.{
  AttemptResult, Request, Answered, deliver_message_to_webhook, route_attempt_outcome,
}

-- What a task reads besides its payload: whether there is a Redis client, settings
-- (MAX_CONCURRENT_DELIVERIES_PER_USER), the times of the cap check, of the claim and of the outcome,
-- and what other transactions do to the database while the HTTP call runs.
pub record PushCtx : Type 0 where
  pub redis : Bool
  pub cap : ℕ
  pub checked : ℕ
  pub start : ℕ
  pub finish : ℕ
  pub meanwhile : Db → Db

-- _load_message_context: message, recipient, sender, user.
pub record Loaded : Type 0 where
  pub msg : Message
  pub to_agent : Agent
  pub from_agent : Agent
  pub user : User

unfoldable pub load_message_context : ℕ → ℕ → Db → Option Loaded
load_message_context message_id to_agent_id db = do
  msg ← find message_id db.messages
  to_agent ← find to_agent_id db.agents
  url ← to_agent.webhook_url
  from_agent ← find msg.from_agent_id db.agents
  user ← find msg.user_id db.users
  some (record { msg = msg; to_agent = to_agent; from_agent = from_agent; user = user })

-- _claim_message
abbrev pub message_claimable : ℕ → DeliveryState → Message → Bool
message_claimable i expected m = m.id == i && m.delivery_state == expected

abbrev pub message_claimed : ℕ → Message → Message
message_claimed now m = record m {
  delivery_state = DeliveryState.delivering;
  delivering_started_at = some now;
}

unfoldable pub claim_message : ℕ → ℕ → DeliveryState → Db → Bool × Db
claim_message now i expected db = (
  is_some (first_where (message_claimable i expected) db.messages),
  record db {
    messages = update_where (message_claimable i expected) (message_claimed now) db.messages;
  },
)

abbrev pub requeued : ℕ → TaskType → MessageTask → Db → Db
requeued now task p db =
    insert_outbox now none none task (message_task p) (some (now + seconds 30)) db

module _ (R : Redis) where
  open R use {State}

  -- _check_concurrent_cap_or_recycle: whether the task goes on, and whether it is to release the
  -- counter. An exception of Redis lets it through, and it then releases the counter even if it
  -- has not counted.
  unfoldable pub check_cap :
      PushCtx → ℕ → TaskType → MessageTask → Db × State → Bool × Bool × Db × State
  check_cap ctx user task p (db, s) =
      let over = requeued ctx.checked task p db in
      let counted : ℕ → State → Bool × Bool × Db × State = λ current s'.
        elim (ltb ctx.cap current) [
          | true ↦ elim (R.decr s' ctx.checked (concurrent_key user)) [
            | none ↦ (true, true, db, s')
            | some s'' ↦ (false, false, over, s'')
          ]
          | false ↦ (true, true, db, s')
        ] in
      if ctx.redis
      then elim (R.incr s ctx.checked (concurrent_key user)) [
        | none ↦ (true, true, db, s)
        | some (current, s') ↦ elim (R.expire s' ctx.checked (concurrent_key user) (seconds 600)) [
          | none ↦ (true, true, db, s')
          | some s'' ↦ counted current s''
        ]
      ]
      else (true, false, db, s)

  -- _release_concurrent
  unfoldable pub release : PushCtx → ℕ → Bool → State → State
  release ctx user held s =
      if held && ctx.redis then or_else (R.decr s ctx.finish (concurrent_key user)) s else s

  module _ (allowed : String → Bool) (post : Request → Answered) where
    -- What is done between the claim and the release. An exception leaves what is committed.
    unfoldable pub attempt_message : PushCtx → DeliveryState → Loaded → ℕ → Db → Db
    attempt_message ctx expected l attempt db =
        let (won, claimed) = claim_message ctx.start l.msg.id expected db in
        let during = ctx.meanwhile claimed in
        let msg = or_else (find l.msg.id claimed.messages) l.msg in
        let after =
          deliver_message_to_webhook allowed post msg l.from_agent l.to_agent l.user.slug attempt
          >>= λ result.
              route_attempt_outcome ctx.finish l.msg.id l.to_agent attempt result during in
        if won then or_else after during else claimed

    unfoldable pub run_message_task :
        PushCtx
        → DeliveryState
        → TaskType
        → MessageTask
        → ℕ
        → Option Loaded
        → Db × State
        → Db × State
    run_message_task ctx expected task p attempt none (db, s) = (db, s)
    run_message_task ctx expected task p attempt (some l) (db, s) =
        let (goes, held, db', s') = check_cap ctx l.user.id task p (db, s) in
        let finished : Db × State =
          (attempt_message ctx expected l attempt db', release ctx l.user.id held s') in
        if goes then finished else (db', s')

    abbrev pub deliver_message_task : PushCtx → MessageTask → Db × State → Db × State
    deliver_message_task ctx p (db, s) =
        run_message_task ctx DeliveryState.queued TaskType.deliver_message p 1
          (load_message_context p.message_id p.to_agent_id db) (db, s)

    abbrev pub retry_message_task : PushCtx → MessageTask → Db × State → Db × State
    retry_message_task ctx p (db, s) =
        run_message_task ctx DeliveryState.retry_ready TaskType.retry_message p
          (or_else p.attempt 2) (load_message_context p.message_id p.to_agent_id db) (db, s)
