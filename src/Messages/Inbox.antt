-- ===== src/Messages/Inbox.antt =====
-- services/inbox_service.py: the inbox, whose poll delivers what is queued, and the sent view.
pub mod Polled
use mathlib.Core.Option
use cueapi_core.Prelude.{
  ℕ, zero, suc, Bool, true, false, not, ◌&&◌, ◌||◌, String, Option, none, some, List, [], ◌∷◌, ◌==◌,
  nat_eq, string_eq, if◌then◌else◌, ltb, leb, find, where_, count_where, update_where, take,
}
use cueapi_core.Store.{DeliveryState, delivery_eq, Message, Agent, Db, message_keyed, agent_keyed}
use cueapi_core.Executions.Answer.{Answer, refused, answered}
use cueapi_core.Messages.Address.{Addr, get_agent_owned, resolve_address, touch_last_seen}
use cueapi_core.Messages.Receipts.{and_then}

abbrev pub default_states : List DeliveryState
default_states =
    DeliveryState.queued ∷ DeliveryState.delivering ∷ DeliveryState.retry_ready
    ∷ DeliveryState.delivered ∷ DeliveryState.read ∷ DeliveryState.claimed ∷ DeliveryState.failed
    ∷ []

abbrev pub all_states : List DeliveryState
all_states =
    DeliveryState.queued ∷ DeliveryState.delivering ∷ DeliveryState.retry_ready
    ∷ DeliveryState.delivered ∷ DeliveryState.read ∷ DeliveryState.claimed ∷ DeliveryState.failed
    ∷ DeliveryState.acked ∷ DeliveryState.expired ∷ []

abbrev pub state_name : DeliveryState → String
state_name DeliveryState.queued = "queued"
state_name DeliveryState.delivering = "delivering"
state_name DeliveryState.retry_ready = "retry_ready"
state_name DeliveryState.delivered = "delivered"
state_name DeliveryState.read = "read"
state_name DeliveryState.claimed = "claimed"
state_name DeliveryState.acked = "acked"
state_name DeliveryState.expired = "expired"
state_name DeliveryState.failed = "failed"

-- `s in valid`
unfoldable pub state_named : String → List DeliveryState → Option DeliveryState
state_named name [] = none
state_named name (s ∷ ss) =
    let rest = state_named name ss in if state_name s == name then some s else rest

-- The parts of ?state=, stripped, without the empty ones.
unfoldable pub parse_states : List String → Answer (List DeliveryState)
unfolding state_named
parse_states [] = answered []
parse_states (name ∷ names) =
    let rest = parse_states names in
    elim (state_named name all_states) [
      | none ↦ refused 400 "invalid_state_filter"
      | some s ↦ and_then rest (λ ss. answered (s ∷ ss))
    ]

-- _parse_state_filter
unfoldable pub parse_state_filter :
    Option (List String) → List DeliveryState → Answer (List DeliveryState)
unfolding parse_states
parse_state_filter none default = answered default
parse_state_filter (some names) default = parse_states names

pub record Query : Type 0 where
  pub states : Option (List String)
  pub since : Option ℕ
  pub thread_id : Option ℕ
  pub counterpart : Option Addr
  pub limit : ℕ
  pub offset : ℕ
  pub count_only : Bool

pub data Listing : Type 0 where
  counted : ℕ → Listing
  page : List Message → ℕ → ℕ → ℕ → Listing

-- `state in states`
unfoldable pub any_state : DeliveryState → List DeliveryState → Bool
any_state s [] = false
any_state s (x ∷ xs) = s == x || any_state s xs

-- `send_at IS NULL OR send_at <= now`
abbrev pub is_due : ℕ → Message → Bool
is_due now m = elim m.send_at [ none ↦ true | some t ↦ leb t now ]

abbrev pub is_since : Option ℕ → Message → Bool
is_since none m = true
is_since (some t) m = ltb t m.created_at

-- A filter that is left out when its argument is.
abbrev pub is_opt : Option ℕ → ℕ → Bool
is_opt none i = true
is_opt (some j) i = i == j

-- ORDER BY created_at DESC, id DESC
abbrev pub is_newer : Message → Message → Bool
is_newer a b = ltb b.created_at a.created_at || a.created_at == b.created_at && leb b.id a.id

unfoldable pub insert_newest : Message → List Message → List Message
insert_newest a [] = a ∷ []
insert_newest a (x ∷ xs) =
    let rest = insert_newest a xs in if is_newer a x then a ∷ x ∷ xs else x ∷ rest

unfoldable pub newest_first : List Message → List Message
unfolding insert_newest
newest_first [] = []
newest_first (x ∷ xs) = insert_newest x (newest_first xs)

-- OFFSET
abbrev pub drop {ℓ} : {A : Type ℓ} → ℕ → List A → List A
drop zero xs = xs
drop (suc n) [] = []
drop (suc n) (x ∷ xs) = drop n xs

-- The count, and the page if it is asked for.
unfoldable pub listing : Query → (Message → Bool) → List Message → Listing
unfolding newest_first
listing q p t =
    if q.count_only
    then counted (count_where p t)
    else page (take q.limit (drop q.offset (newest_first (where_ p t)))) (count_where p t) q.limit
        q.offset

abbrev pub counterpart_id : Option Addr → Db → Answer (Option ℕ)
counterpart_id none db = answered none
counterpart_id (some addr) db =
    and_then (resolve_address addr db) (λ (a : Agent). answered (some a.id))

abbrev pub in_inbox : ℕ → ℕ → List DeliveryState → Query → Option ℕ → Message → Bool
in_inbox now_gate agent states q other m =
    m.to_agent_id == agent
    && any_state m.delivery_state states
    && is_due now_gate m
    && is_since q.since m
    && is_opt q.thread_id m.thread_id
    && is_opt other m.from_agent_id

-- What a poll delivers.
abbrev pub is_polled : ℕ → ℕ → Option ℕ → Message → Bool
is_polled upd_now agent other m =
    m.to_agent_id == agent
    && m.delivery_state == DeliveryState.queued
    && is_due upd_now m
    && is_opt other m.from_agent_id

abbrev pub message_polled : ℕ → Message → Message
message_polled now m = record m {
  delivery_state = DeliveryState.delivered;
  delivered_at = some now;
}

-- The inbox of the agent, once the states and the counterpart are known.
unfoldable pub poll_inbox : ℕ → ℕ → ℕ → List DeliveryState → Query → Option ℕ → Db → Listing × Db
unfolding any_state listing
poll_inbox now_gate upd_now agent states q other db =
    let filter = in_inbox now_gate agent states q other in
    let polled =
      update_where (is_polled upd_now agent other) (message_polled upd_now) db.messages in
    let flipped = touch_last_seen upd_now agent (record db { messages = polled }) in
    let db' =
      if any_state DeliveryState.queued states
      then flipped
      else touch_last_seen now_gate agent db in
    if q.count_only
    then (listing q filter db.messages, db)
    else (listing q filter db'.messages, db')

unfoldable pub list_inbox : ℕ → ℕ → ℕ → Addr → Query → Db → Answer (Listing × Db)
list_inbox now_gate upd_now user addr q db = and_then (get_agent_owned user addr true db) (λ agent.
    and_then (parse_state_filter q.states default_states) (λ states.
      and_then (counterpart_id q.counterpart db)
        (λ other. answered (poll_inbox now_gate upd_now agent.id states q other db))))

abbrev pub in_sent : ℕ → ℕ → List DeliveryState → Query → Option ℕ → Message → Bool
in_sent user agent states q other m =
    m.user_id == user
    && m.from_agent_id == agent
    && any_state m.delivery_state states
    && is_since q.since m
    && is_opt q.thread_id m.thread_id
    && is_opt other m.to_agent_id

unfoldable pub list_sent : ℕ → Addr → Query → Db → Answer Listing
unfolding any_state
list_sent user addr q db = and_then (get_agent_owned user addr true db) (λ agent.
    and_then (parse_state_filter q.states all_states) (λ states.
      and_then (counterpart_id q.counterpart db)
        (λ other. answered (listing q (in_sent user agent.id states q other) db.messages))))
