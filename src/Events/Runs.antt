-- ===== src/Events/Runs.antt =====
-- Histories of the event bus: emissions, cleanups, requests and cycles of deliveries in any order.
pub mod Keeps
pub mod Steps
pub mod AtLeastOnce
pub mod Rows
pub mod Constraints
pub mod Acknowledged
use cueapi_core.Prelude.{ℕ, Bool, String, Option, none, some, List, [], ◌∷◌, or_else}
use mathlib.Core.Option
use cueapi_core.Redis.{Redis}
use cueapi_core.Events.{Event, Bus}
use cueapi_core.Events.Emit.Once.{EventCall, emit_call}
use cueapi_core.Events.Subscribe.{SubscriptionCreate, create_subscription, detach_subscription}
use cueapi_core.Events.Acks.{advance_ack_watermark, ack_subscription}
use cueapi_core.Events.Dispatch.{
  PostResult, Cycle, dispatch_subscription_events, cleanup_old_events,
}

module _ (R : Redis) where
  -- A cycle comes with its clock, its batch size, the state of Redis and the answers to its POSTs.
  pub data Happening : Type 0 where
    emitted : EventCall → Happening
    cleaned : ℕ → ℕ → Happening
    subscribed : (String → Bool) → String → ℕ → ℕ → SubscriptionCreate → Happening
    detached_by : ℕ → ℕ → ℕ → Happening
    acked_by : ℕ → ℕ → ℕ → Happening
    pulled : ℕ → ℕ → Option String → Happening
    cycled : ℕ → ℕ → (ℕ → List Event → PostResult) → ℕ → Redis.State R → Happening

  -- A cycle that raises is rolled back.
  abbrev pub bus_of : Bus → Option (Cycle R) → Bus
  bus_of bus none = bus
  bus_of bus (some c) = c.bus

  abbrev pub posts_of : Option (Cycle R) → List (ℕ × List Event)
  posts_of none = []
  posts_of (some c) = c.posts

  abbrev pub happen : Happening → Bus → Bus
  happen (emitted call) bus = emit_call call bus
  happen (cleaned now retention_days) bus = (cleanup_old_events now retention_days bus).1
  happen (subscribed is_safe secret now agent body) bus =
      (create_subscription is_safe secret now agent body bus).1
  happen (detached_by now i agent) bus = (detach_subscription now i agent bus).1
  happen (acked_by i agent n) bus = (ack_subscription i agent n bus).1
  happen (pulled agent n event_type) bus = (advance_ack_watermark agent n event_type bus).1
  happen (cycled window now post batch_size s) bus =
      bus_of bus (dispatch_subscription_events R window now post batch_size bus s)

  -- The last one first.
  abbrev pub history : List Happening → Bus → Bus
  history [] bus = bus
  history (h ∷ hs) bus = happen h (history hs bus)
