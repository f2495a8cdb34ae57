-- ===== src/Events.antt =====
-- The event bus: models/event.py and models/subscription.py, the events and the subscriptions of agents. The children
-- model services/events_service.py, routers/events.py and worker/subscription_dispatcher.py.
pub mod Emit
pub mod Pull
pub mod Subscribe
pub mod Routes
pub mod Acks
pub mod Policy
pub mod Dispatch
pub mod Runs
use cueapi_core.Prelude.{
  ℕ, Bool, ◌&&◌, String, Option, List, ◌==◌, nat_eq, string_eq, is_null, Keyed, update_where,
}

-- payload["priority"] in an event: it may be missing or anything.
pub data PriorityField : Type 0 where
  absent : PriorityField
  not_int : PriorityField
  below_zero : PriorityField
  whole : ℕ → PriorityField

-- The payload of an event: the keys that the code reads or writes, and the rest as a document.
pub record EventPayload : Type 0 where
  pub priority : PriorityField
  pub body : Option String
  pub body_omitted : Option String
  pub body_size_bytes : Option ℕ
  pub others : String

-- events
pub record Event : Type 0 where
  pub id : ℕ
  pub event_type : String
  pub recipient_agent_id : ℕ
  pub payload : EventPayload
  pub idempotency_key : Option String
  pub emitted_at : ℕ

-- subscriptions
pub record Subscription : Type 0 where
  pub id : ℕ
  pub subscriber_agent_id : ℕ
  pub event_type : String
  pub delivery_target : String
  pub webhook_url : Option String
  pub webhook_secret : Option String
  pub inline_body : Bool
  pub last_dispatched_event_id : Option ℕ
  pub last_dispatched_at : Option ℕ
  pub last_acked_event_id : Option ℕ
  pub consecutive_failures : ℕ
  pub paused_until : Option ℕ
  pub created_at : ℕ
  pub detached_at : Option ℕ

-- The two tables and their sequences.
pub record Bus : Type 0 where
  pub events : List Event
  pub subscriptions : List Subscription
  pub next_event_id : ℕ
  pub next_subscription_id : ℕ

instance abbrev pub event_keyed : Keyed Event
event_keyed = record { key = λ r. r.id }

instance abbrev pub subscription_keyed : Keyed Subscription
subscription_keyed = record { key = λ r. r.id }

abbrev pub update_subscriptions : (Subscription → Bool) → (Subscription → Subscription) → Bus → Bus
update_subscriptions p f bus = record bus { subscriptions = update_where p f bus.subscriptions }

abbrev pub is_active_of : ℕ → Subscription → Bool
is_active_of agent s = s.subscriber_agent_id == agent && is_null s.detached_at
