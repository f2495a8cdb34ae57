-- ===== src/Messages/Receipts.antt =====
-- get_message_for_user, mark_read and mark_acked of services/message_service.py.
use cueapi_core.Prelude.{ℕ, Bool, ◌||◌, Option, none, some, ◌==◌, nat_eq, if◌then◌else◌, find}
use cueapi_core.Store.{
  DeliveryState, delivery_eq, Message, Agent, Db, agent_keyed, message_keyed, update_message,
}
use cueapi_core.Executions.Answer.{Answer, refused, answered}

-- A handler that goes on with what another one answered.
abbrev pub and_then {ℓ κ} : {A : Type ℓ} {B : Type κ} → Answer A → (A → Answer B) → Answer B
and_then (refused status code) f = refused status code
and_then (answered a) f = f a

abbrev pub message_not_found {ℓ} : {A : Type ℓ} → Answer A
message_not_found = refused 404 "message_not_found"

-- The sender, or the owner of the recipient. Both errors are the same answer.
abbrev pub shown_to : ℕ → Message → Option Agent → Answer Message
shown_to user m none = message_not_found
shown_to user m (some to_agent) =
    if m.user_id == user || to_agent.user_id == user then answered m else message_not_found

abbrev pub with_recipient : ℕ → Db → Option Message → Answer Message
with_recipient user db none = message_not_found
with_recipient user db (some m) = shown_to user m (find m.to_agent_id db.agents)

unfoldable pub get_message_for_user : ℕ → ℕ → Db → Answer Message
get_message_for_user user i db = with_recipient user db (find i db.messages)

abbrev pub is_terminal : DeliveryState → Bool
is_terminal s = s == DeliveryState.acked || s == DeliveryState.expired

abbrev pub message_read : ℕ → Message → Message
message_read now m = record m { delivery_state = DeliveryState.read; read_at = some now }

abbrev pub message_acked : ℕ → Message → Message
message_acked now m = record m { delivery_state = DeliveryState.acked; acked_at = some now }

abbrev pub refused_transition {ℓ} : {A : Type ℓ} → Answer A
refused_transition = refused 409 "invalid_state_transition"

-- What the two handlers do with the row.
abbrev pub read_row : ℕ → Message → Db → Answer (Message × Db)
read_row now m db =
    if is_terminal m.delivery_state
    then refused_transition
    else if m.delivery_state == DeliveryState.read
    then answered (m, db)
    else answered (message_read now m, update_message m.id (message_read now) db)

abbrev pub ack_row : ℕ → Message → Db → Answer (Message × Db)
ack_row now m db =
    if m.delivery_state == DeliveryState.acked
    then answered (m, db)
    else if m.delivery_state == DeliveryState.expired
    then refused_transition
    else answered (message_acked now m, update_message m.id (message_acked now) db)

unfoldable pub mark_read : ℕ → ℕ → ℕ → Db → Answer (Message × Db)
mark_read now user i db = and_then (get_message_for_user user i db) (λ m. read_row now m db)

unfoldable pub mark_acked : ℕ → ℕ → ℕ → Db → Answer (Message × Db)
mark_acked now user i db = and_then (get_message_for_user user i db) (λ m. ack_row now m db)
