-- ===== src/Messages/Draft.antt =====
-- The rows that create_message of services/message_service.py reads and writes. The size and the
-- digest of JSON documents (json and hashlib), the first characters of a text and the authorization
-- backend are parameters.
use cueapi_core.Prelude.{
  ℕ, ◌+◌, Bool, true, false, not, ◌&&◌, String, Option, none, some, List, [], ◌∷◌, ◌++◌, ◌==◌,
  nat_eq, string_eq, if◌then◌else◌, is_some, ltb, find, first_where,
}
use cueapi_core.Store.{
  DeliveryState, TaskType, Message, Agent, MessageTask, message_task, Db, message_keyed, user_keyed,
  days, insert_outbox, truthy,
}
use cueapi_core.Executions.Answer.{Answer, refused, answered}
use cueapi_core.Messages.Address.{Addr, resolve_address, touch_last_seen}
use cueapi_core.Messages.Receipts.{and_then}

-- The arguments of a request.
pub record Draft : Type 0 where
  pub to : Addr
  pub body : String
  pub subject : Option String
  pub reply_to : Option ℕ
  pub priority : ℕ
  pub expects_reply : Bool
  pub reply_to_agent : Option Addr
  pub metadata : String
  pub idempotency_key : Option String
  pub correlation_id : Option String
  pub send_at : Option ℕ

pub data MessageKind : Type 0 where
  direct reply_chain : MessageKind

-- What the handler asks of code outside.
pub record Outside : Type 0 where
  pub metadata_bytes : String → ℕ
  pub first_200 : String → String
  -- _compute_fingerprint: recipient, body, subject, priority, reply_to, metadata.
  pub fingerprint : ℕ → String → Option String → ℕ → Option ℕ → String → String
  -- authorize_message: the two users, the two agents, the kind and the key.
  pub authorize : ℕ → ℕ → ℕ → ℕ → MessageKind → Option String → Bool

-- Settings and the clock: the month of the quota, a fresh id, and whether the count is committed.
pub record SendCtx : Type 0 where
  pub now : ℕ
  pub month : ℕ
  pub message_id : ℕ
  pub ttl_days : ℕ
  pub disable_quota : Bool
  pub durable : Bool

-- The message, whether it was there before, and whether its priority was lowered.
pub record Sent : Type 0 where
  pub message : Message
  pub was_dedup_hit : Bool
  pub priority_downgraded : Bool

abbrev pub resolve_opt : Option Addr → Db → Answer (Option Agent)
resolve_opt none db = answered none
resolve_opt (some addr) db = and_then (resolve_address addr db) (λ (a : Agent). answered (some a))

abbrev pub agent_id_of : Option Agent → Option ℕ
agent_id_of none = none
agent_id_of (some a) = some a.id

-- Step 4: the recipient, and the agent that is to get the reply.
abbrev pub is_authorized : Outside → ℕ → Agent → MessageKind → Option String → Option Agent → Bool
is_authorized O user from_agent kind key none = true
is_authorized O user from_agent kind key (some a) =
    O.authorize user a.user_id from_agent.id a.id kind key

-- Steps 1 to 4.
unfoldable pub admit : Outside → ℕ → Draft → Agent → Db → Answer (Agent × Option Agent)
admit O user d from_agent db =
    let key = d.idempotency_key in
    if ltb 10240 (O.metadata_bytes d.metadata)
    then refused 400 "metadata_too_large"
    else if not (from_agent.user_id == user)
    then refused 403 "from_agent_not_owned"
    else if is_some from_agent.deleted_at
    then refused 400 "from_agent_deleted"
    else and_then (resolve_address d.to db) (λ to_agent.
      and_then (resolve_opt d.reply_to_agent db) (λ reply_agent.
        if is_authorized O user from_agent MessageKind.direct key (some to_agent)
          && is_authorized O user from_agent MessageKind.reply_chain key reply_agent
        then answered (to_agent, reply_agent)
        else refused 403 "cross_tenant_messaging_forbidden"))

-- Step 5: `user_id = user AND idempotency_key = key AND created_at > cutoff`, and the unique index,
-- which knows no cutoff.
abbrev pub has_key : ℕ → String → Message → Bool
has_key user key m =
    m.user_id == user && elim m.idempotency_key [ none ↦ false | some k ↦ k == key ]

abbrev pub is_recent : ℕ → ℕ → String → Message → Bool
is_recent cutoff user key m = has_key user key m && ltb cutoff m.created_at

abbrev pub existing : ℕ → ℕ → Option String → List Message → Option Message
existing cutoff user none t = none
existing cutoff user (some key) t = first_where (is_recent cutoff user key) t

abbrev pub violates : ℕ → Option String → List Message → Bool
violates user none t = false
violates user (some key) t = is_some (first_where (has_key user key) t)

-- _resolve_reply_to: thread and parent.
unfoldable pub resolve_reply_to : Option ℕ → Db → Answer (Option (ℕ × ℕ))
resolve_reply_to none db = answered none
resolve_reply_to (some i) db = elim (find i db.messages) [
  | none ↦ refused 404 "reply_to_not_found"
  | some parent ↦ answered (some (parent.thread_id, parent.id))
]

-- A time that has passed is no schedule.
abbrev pub effective_send_at : ℕ → Option ℕ → Option ℕ
effective_send_at now none = none
effective_send_at now (some t) = if ltb now t then some t else none

abbrev pub new_message :
    Outside → SendCtx → ℕ → Draft → Agent → Agent → Option Agent → ℕ → Option (ℕ × ℕ) → Message
new_message O ctx user d from_agent to_agent reply_agent priority parent = record {
  id = ctx.message_id;
  user_id = user;
  from_agent_id = from_agent.id;
  to_agent_id = to_agent.id;
  thread_id = elim parent [ none ↦ ctx.message_id | some (thread, _) ↦ thread ];
  reply_to = elim parent [ none ↦ none | some (_, i) ↦ some i ];
  subject = d.subject;
  body = d.body;
  preview = O.first_200 d.body;
  priority = priority;
  expects_reply = d.expects_reply;
  reply_to_agent_id = agent_id_of reply_agent;
  delivery_state = DeliveryState.queued;
  metadata = d.metadata;
  idempotency_key = d.idempotency_key;
  idempotency_fingerprint =
      if truthy d.idempotency_key
      then some (O.fingerprint to_agent.id d.body d.subject priority d.reply_to d.metadata)
      else none;
  created_at = ctx.now;
  delivered_at = none;
  read_at = none;
  acked_at = none;
  failed_at = none;
  send_at = effective_send_at ctx.now d.send_at;
  delivering_started_at = none;
  expires_at = ctx.now + days ctx.ttl_days;
  dispatch_priority_bucket = priority;
  correlation_id = d.correlation_id;
}

-- The outbox row of the push, for a recipient with a URL.
abbrev pub push_row : SendCtx → Draft → Agent → Db → Db
push_row ctx d to_agent db =
    let payload : MessageTask = record {
      message_id = ctx.message_id;
      to_agent_id = to_agent.id;
      webhook_url = to_agent.webhook_url;
      attempt = none;
    } in
    if is_some to_agent.webhook_url
    then insert_outbox ctx.now none none TaskType.deliver_message (message_task payload)
        (effective_send_at ctx.now d.send_at) db
    else db

-- Step 7, one transaction.
unfoldable pub insert_message : SendCtx → Draft → Agent → Agent → Message → Db → Db
insert_message ctx d from_agent to_agent m db =
    touch_last_seen ctx.now from_agent.id
      (push_row ctx d to_agent (record db { messages = db.messages ++ m ∷ [] }))
