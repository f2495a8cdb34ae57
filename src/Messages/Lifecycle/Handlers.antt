-- ===== src/Messages/Lifecycle/Handlers.antt =====
-- The handlers that move messages.
use mathlib.Core.Option.{some-injective}
use cueapi_core.Prelude.{
  ℕ, ◌≡◌, refl, sym, ap, subst, ◌∙◌, String, true, ◌||◌, Option, none, some, List, ◌==◌, nat_eq,
  find, find-key, arith, Bool-cases, inl, inr, IsKeyed, update_row,
}
use cueapi_core.Store.{DeliveryState, delivery_eq, Message, Agent, Db, message_keyed, agent_keyed}
use cueapi_core.Executions.Answer.{Answer, refused, answered}
use cueapi_core.Messages.Address.{Addr, get_agent_owned}
use cueapi_core.Messages.Receipts.{
  is_terminal, and_then, shown_to, with_recipient, get_message_for_user, message_read,
  message_acked, read_row, ack_row, mark_read, mark_acked,
}
use cueapi_core.Messages.Inbox.{
  Query, parse_state_filter, default_states, counterpart_id, any_state, is_polled, message_polled,
  poll_inbox, list_inbox,
}
use cueapi_core.Messages.Lifecycle.{may_move}
use cueapi_core.Messages.Lifecycle.Steps.{Follows, Follows-refl, update_where-Follows}

-- The tables after a handler: those before, if it has refused.
abbrev pub messages_after {ℓ} : {A : Type ℓ} → Db → Answer (A × Db) → List Message
messages_after db (refused status code) = db.messages
messages_after db (answered (a, db')) = db'.messages

and_then-Follows {ℓ κ} :
    {A : Type ℓ} {B : Type κ} (db : Db) (x : Answer A) (f : A → Answer (B × Db))
    → IsKeyed db.messages
    → ((a : A) → x ≡ answered a → Follows db.messages (messages_after db (f a)))
    → Follows db.messages (messages_after db (and_then x f))
and_then-Follows db (refused status code) f keyed h = Follows-refl db.messages keyed
and_then-Follows db (answered a) f keyed h = h a refl

abbrev message_of : Message → Answer Message → Message
message_of d (refused status code) = d
message_of d (answered m) = m

refused-answered :
    (status : ℕ) (code : String) (m : Message)
    → ◌≡◌ {A = Answer Message} (refused status code) (answered m)
    → ⊥
refused-answered status code m h = cc

shown_to-row :
    (user : ℕ) (x m : Message) (o : Option Agent) → shown_to user x o ≡ answered m → x ≡ m
shown_to-row user x m none h = cc
shown_to-row user x m (some a) h = elim (Bool-cases (x.user_id == user || a.user_id == user)) [
  | inl seen ↦ ap (message_of x) (rw seen at h)
  | inr hidden ↦ absurd (refused-answered 404 "message_not_found" m (rw hidden at h))
]

with_recipient-row :
    (user : ℕ) (db : Db) (o : Option Message) (m : Message)
    → with_recipient user db o ≡ answered m
    → o ≡ some m
with_recipient-row user db none m h = cc
with_recipient-row user db (some x) m h =
    ap (λ y. some y) (shown_to-row user x m (find x.to_agent_id db.agents) h)

get_message_for_user-row :
    (user i : ℕ) (db : Db) (m : Message)
    → get_message_for_user user i db ≡ answered m
    → find m.id db.messages ≡ some m
unfolding get_message_for_user
get_message_for_user-row user i db m h =
    let row = with_recipient-row user db (find i db.messages) m h in
    ap (λ j. find j db.messages) (find-key i db.messages m row) ∙ row

-- A handler's UPDATE of the row that it has read.
pub one-Follows :
    (f : Message → Message) (m : Message) (db : Db)
    → ((x : Message) → (f x).id ≡ x.id)
    → find m.id db.messages ≡ some m
    → may_move (some m.delivery_state) (some (f m).delivery_state) ≡ true
    → IsKeyed db.messages
    → Follows db.messages (update_row m.id f db.messages)
unfolding update_row
one-Follows f m db keeps row moves keyed =
    update_where-Follows (λ x. x.id == m.id) f keeps db.messages keyed
      (λ x here hit.
        let key = (nat_eq.same_iff x.id m.id).0 hit in
        let same : m ≡ x =
          some-injective m x (sym row ∙ ap (λ i. find i db.messages) (sym key) ∙ here) in
        subst (λ y. may_move (some y.delivery_state) (some (f y).delivery_state) ≡ true) same moves)

read_row-Follows :
    (now : ℕ) (m : Message) (db : Db)
    → find m.id db.messages ≡ some m
    → IsKeyed db.messages
    → Follows db.messages (messages_after db (read_row now m db))
read_row-Follows now m db row keyed = elim (Bool-cases (is_terminal m.delivery_state)) [
  | inl over ↦ rw over (Follows-refl db.messages keyed)
  | inr open' ↦ elim (Bool-cases (m.delivery_state == DeliveryState.read)) [
    | inl done ↦ rw (open', done) (Follows-refl db.messages keyed)
    | inr new ↦
        rw (open', new) (one-Follows (message_read now) m db (λ x. refl) row (ground arith) keyed)
  ]
]

ack_row-Follows :
    (now : ℕ) (m : Message) (db : Db)
    → find m.id db.messages ≡ some m
    → IsKeyed db.messages
    → Follows db.messages (messages_after db (ack_row now m db))
ack_row-Follows now m db row keyed = elim (Bool-cases (m.delivery_state == DeliveryState.acked)) [
  | inl done ↦ rw done (Follows-refl db.messages keyed)
  | inr open' ↦ elim (Bool-cases (m.delivery_state == DeliveryState.expired)) [
    | inl over ↦ rw (open', over) (Follows-refl db.messages keyed)
    | inr new ↦
        rw (open', new) (one-Follows (message_acked now) m db (λ x. refl) row (ground arith) keyed)
  ]
]

pub mark_read-Follows :
    (now user i : ℕ) (db : Db)
    → IsKeyed db.messages
    → Follows db.messages (messages_after db (mark_read now user i db))
unfolding mark_read
mark_read-Follows now user i db keyed =
    and_then-Follows db (get_message_for_user user i db) (λ m. read_row now m db) keyed
      (λ m seen. read_row-Follows now m db (get_message_for_user-row user i db m seen) keyed)

pub mark_acked-Follows :
    (now user i : ℕ) (db : Db)
    → IsKeyed db.messages
    → Follows db.messages (messages_after db (mark_acked now user i db))
unfolding mark_acked
mark_acked-Follows now user i db keyed =
    and_then-Follows db (get_message_for_user user i db) (λ m. ack_row now m db) keyed
      (λ m seen. ack_row-Follows now m db (get_message_for_user-row user i db m seen) keyed)

poll_inbox-Follows :
    (now_gate upd_now agent : ℕ) (states : List DeliveryState) (q : Query) (other : Option ℕ)
    (db : Db)
    → IsKeyed db.messages
    → Follows db.messages (poll_inbox now_gate upd_now agent states q other db).1.messages
unfolding poll_inbox
poll_inbox-Follows now_gate upd_now agent states q other db keyed = elim (Bool-cases q.count_only) [
  | inl counts ↦ rw counts (Follows-refl db.messages keyed)
  | inr whole ↦ elim (Bool-cases (any_state DeliveryState.queued states)) [
    | inl asked ↦
        rw (whole, asked)
          (update_where-Follows (is_polled upd_now agent other) (message_polled upd_now) (λ m. refl)
            db.messages keyed (λ m row hit. ground arith))
    | inr out ↦ rw (whole, out) (Follows-refl db.messages keyed)
  ]
]

pub list_inbox-Follows :
    (now_gate upd_now user : ℕ) (addr : Addr) (q : Query) (db : Db)
    → IsKeyed db.messages
    → Follows db.messages (messages_after db (list_inbox now_gate upd_now user addr q db))
unfolding list_inbox
list_inbox-Follows now_gate upd_now user addr q db keyed =
    and_then-Follows db (get_agent_owned user addr true db) _ keyed (λ agent _.
      and_then-Follows db (parse_state_filter q.states default_states) _ keyed (λ states _.
        and_then-Follows db (counterpart_id q.counterpart db) _ keyed
          (λ other _. poll_inbox-Follows now_gate upd_now agent.id states q other db keyed)))
