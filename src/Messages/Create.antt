-- ===== src/Messages/Create.antt =====
-- create_message of services/message_service.py. The event that is emitted beside the message is left
-- out.
pub mod Stores
pub mod Once
use mathlib.Core.Option
use cueapi_core.Prelude.{
  ℕ, ◌+◌, ◌-◌, Bool, true, false, not, ◌&&◌, ◌||◌, String, Option, none, some, List, [], ◌∷◌, ◌++◌,
  ◌==◌, nat_eq, string_eq, if◌then◌else◌, or_else, is_some, is_null, ltb, find, first_where,
}
use cueapi_core.Store.{
  DeliveryState, TaskType, Message, Agent, MessageTask, message_task, Db, message_keyed, user_keyed,
  days, insert_outbox, truthy,
}
use cueapi_core.Executions.Answer.{Answer, refused, answered}
use cueapi_core.Messages.Address.{Addr, resolve_address, touch_last_seen}
use cueapi_core.Messages.Receipts.{and_then}
use cueapi_core.Messages.Quota.{
  MessageRedis, get_user_plan_and_msg_limit, check_per_minute_rate_limit,
  check_priority_high_limits, check_message_quota, increment_monthly_count,
}
use cueapi_core.Messages.Draft.{
  Draft, MessageKind, Outside, SendCtx, Sent, resolve_opt, agent_id_of, is_authorized, admit,
  has_key, is_recent, existing, violates, resolve_reply_to, effective_send_at, new_message,
  push_row, insert_message,
}

abbrev pub quota_passed {ℓ} : {S : Type ℓ} → Bool → Answer ℕ × S → S → Answer ℕ × S
quota_passed true checked s = (answered 0, s)
quota_passed false checked s = checked

-- The answer to a key that has been used: the stored fingerprint against that of the request.
abbrev pub dedup : Option String → String → Message → Answer Sent
dedup none fingerprint m = refused 409 "idempotency_key_conflict"
dedup (some f) fingerprint m =
    if f == fingerprint
    then answered (record { message = m; was_dedup_hit = true; priority_downgraded = false })
    else refused 409 "idempotency_key_conflict"

module _ (R : MessageRedis) (O : Outside) where
  open R use {State}

  -- Step 4.5.
  unfoldable pub rate_limits :
      SendCtx → ℕ → Agent → Agent → ℕ → Db × State → Answer (ℕ × Bool) × State
  rate_limits ctx user from_agent to_agent priority (db, s) =
      let (plan, _) = get_user_plan_and_msg_limit user db in
      let (minute, s₁) = check_per_minute_rate_limit R ctx.now user plan s in
      let limited : Answer (ℕ × Bool) × State = elim minute [
        | refused status code ↦ (refused status code, s₁)
        | answered _ ↦
            check_priority_high_limits R ctx.now user from_agent.id to_agent.id priority s₁
      ] in
      if ctx.disable_quota then (answered (priority, false), s) else limited

  -- Steps 6 to 8, once the key is known to be new and the quota has been checked. A row that violates
  -- the unique index raises.
  unfoldable pub store_message :
      SendCtx
      → ℕ
      → Draft
      → Agent
      → Agent
      → Option Agent
      → ℕ
      → Bool
      → Answer ℕ
      → Db × State
      → Answer Sent × Db × State
  store_message ctx user d from_agent to_agent reply_agent priority downgraded (refused status code)
        (db, s) =
      (refused status code, db, s)
  store_message ctx user d from_agent to_agent reply_agent priority downgraded (answered _)
        (db, s) =
      elim (resolve_reply_to d.reply_to db) [
        | refused status code ↦ (refused status code, db, s)
        | answered parent ↦
            let m = new_message O ctx user d from_agent to_agent reply_agent priority parent in
            let stored = insert_message ctx d from_agent to_agent m db in
            let (db', s') =
              increment_monthly_count R ctx.now ctx.month user ctx.durable (stored, s) in
            if violates user d.idempotency_key db.messages
            then (refused 500 "internal_error", db, s)
            else (
              answered
                  (record { message = m; was_dedup_hit = false; priority_downgraded = downgraded }),
              db',
              s',
            )
      ]

  -- Steps 5 to 8.
  unfoldable pub send_message :
      SendCtx
      → ℕ
      → Draft
      → Agent
      → Agent
      → Option Agent
      → ℕ
      → Bool
      → Option Message
      → Db × State
      → Answer Sent × Db × State
  send_message ctx user d from_agent to_agent reply_agent priority downgraded (some e) (db, s) = (
    dedup e.idempotency_fingerprint
        (O.fingerprint to_agent.id d.body d.subject priority d.reply_to d.metadata) e,
    db,
    s,
  )
  send_message ctx user d from_agent to_agent reply_agent priority downgraded none (db, s) =
      let (_, limit) = get_user_plan_and_msg_limit user db in
      let (quota, s') =
        quota_passed ctx.disable_quota (check_message_quota R ctx.now ctx.month user limit (db, s))
          s in
      store_message ctx user d from_agent to_agent reply_agent priority downgraded quota (db, s')

  abbrev pub deduplicated :
      SendCtx
      → ℕ
      → Draft
      → Agent
      → Agent
      → Option Agent
      → ℕ
      → Bool
      → Db × State
      → Answer Sent × Db × State
  deduplicated ctx user d from_agent to_agent reply_agent priority downgraded (db, s) =
      send_message ctx user d from_agent to_agent reply_agent priority downgraded
        (existing (ctx.now - days 1) user d.idempotency_key db.messages) (db, s)

  unfoldable pub create_message :
      SendCtx → ℕ → Draft → Agent → Db × State → Answer Sent × Db × State
  create_message ctx user d from_agent (db, s) = elim (admit O user d from_agent db) [
    | refused status code ↦ (refused status code, db, s)
    | answered (to_agent, reply_agent) ↦
        let (limited, s') = rate_limits ctx user from_agent to_agent d.priority (db, s) in
        elim limited [
          | refused status code ↦ (refused status code, db, s')
          | answered (priority, downgraded) ↦
              deduplicated ctx user d from_agent to_agent reply_agent priority downgraded (db, s')
        ]
  ]
