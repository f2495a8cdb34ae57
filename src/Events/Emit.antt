-- ===== src/Events/Emit.antt =====
-- emit_event and _maybe_embed_body of services/events_service.py. `size` is len(text.encode("utf-8")). An
-- emission is one step from the draw of its id to its commit: two that overlap, of which the one with the higher
-- id may commit first, are not modelled.
pub mod Once
use cueapi_core.Prelude.{
  ℕ, ◌+◌, ◌*◌, Bool, false, ◌&&◌, String, Option, none, some, List, [], ◌∷◌, ◌++◌, ◌==◌, nat_eq,
  string_eq, is_null, is_some, leb, if◌then◌else◌, first_where,
}
use cueapi_core.Events.{Event, EventPayload, Subscription, Bus}

abbrev pub inline_body_max_bytes : ℕ
inline_body_max_bytes = 32 * 1024

abbrev pub wants_body : ℕ → String → Subscription → Bool
wants_body recipient event_type s =
    s.subscriber_agent_id == recipient
    && s.event_type == event_type
    && is_null s.detached_at
    && s.inline_body

-- The payload with the body, or with its size if it is too large.
abbrev pub embedded : (String → ℕ) → String → EventPayload → EventPayload
embedded size text payload =
    if leb (size text) inline_body_max_bytes
    then record payload { body = some text }
    else record payload { body_omitted = some "size_too_large"; body_size_bytes = some (size text) }

unfoldable pub maybe_embed_body :
    (String → ℕ) → ℕ → String → String → EventPayload → Bus → EventPayload
maybe_embed_body size recipient event_type text payload bus =
    if is_some (first_where (wants_body recipient event_type) bus.subscriptions)
    then embedded size text payload
    else payload

-- What the caller hands over.
pub record Emission : Type 0 where
  pub event_type : String
  pub recipient_agent_id : ℕ
  pub payload : EventPayload
  pub idempotency_key : Option String
  pub body_text : Option String

unfoldable pub payload_of : (String → ℕ) → Emission → Option String → Bus → EventPayload
unfolding maybe_embed_body
payload_of size e none bus = e.payload
payload_of size e (some text) bus =
    maybe_embed_body size e.recipient_agent_id e.event_type text e.payload bus

abbrev pub new_event : (String → ℕ) → ℕ → Emission → Bus → Event
new_event size now e bus = record {
  id = bus.next_event_id;
  event_type = e.event_type;
  recipient_agent_id = e.recipient_agent_id;
  payload = payload_of size e e.body_text bus;
  idempotency_key = e.idempotency_key;
  emitted_at = now;
}

abbrev pub add_event : Event → Bus → Bus
add_event row bus = record bus {
  events = bus.events ++ row ∷ [];
  next_event_id = bus.next_event_id + 1;
}

abbrev pub has_event_key : Option String → String → Bool
has_event_key none key = false
has_event_key (some k) key = k == key

-- The row that the unique index on (event_type, idempotency_key) finds.
abbrev pub is_same_event : String → String → Event → Bool
is_same_event event_type key r = r.event_type == event_type && has_event_key r.idempotency_key key

unfoldable pub existing_event : String → Option String → Bus → Option Event
existing_event event_type none bus = none
existing_event event_type (some key) bus = first_where (is_same_event event_type key) bus.events

-- INSERT ... ON CONFLICT DO UPDATE: the row that is in the way, or the new one.
unfoldable pub insert_event : (String → ℕ) → ℕ → Emission → Bus → Option Event → Event × Bus
insert_event size now e bus (some row) = (row, bus)
insert_event size now e bus none =
    (new_event size now e bus, add_event (new_event size now e bus) bus)

unfoldable pub emit_event : (String → ℕ) → ℕ → Emission → Bus → Event × Bus
unfolding existing_event insert_event
emit_event size now e bus =
    insert_event size now e bus (existing_event e.event_type e.idempotency_key bus)
