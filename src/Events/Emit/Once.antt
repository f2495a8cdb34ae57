-- ===== src/Events/Emit/Once.antt =====
-- Idempotency of emit_event.
use cueapi_core.Prelude.{
  ℕ, ◌≡◌, refl, ◌∙◌, Bool, true, String, Option, none, some, List, [], ◌∷◌, string_eq, ==-refl,
  first_where, first_where-append, each,
}
use cueapi_core.Events.{Event, Bus}
use cueapi_core.Events.Emit.{
  Emission, emit_event, insert_event, existing_event, is_same_event, new_event,
}

abbrev pub EventCall : Type 0
EventCall = (String → ℕ) × ℕ × Emission

abbrev pub emit_call : EventCall → Bus → Bus
emit_call (size, now, e) bus = (emit_event size now e bus).1

-- Emissions one after another.
abbrev pub emit_all : List EventCall → Bus → Bus
emit_all calls bus = each emit_call calls bus

pub is_same_event_self :
    (e : Emission) (key : String) (x : Event)
    → x.event_type ≡ e.event_type
    → x.idempotency_key ≡ some key
    → is_same_event e.event_type key x ≡ true
is_same_event_self e key x same keyed = rw same (rw keyed (rw (==-refl e.event_type) (==-refl key)))

first_where-hit : (p : Event → Bool) (x : Event) → p x ≡ true → first_where p (x ∷ []) ≡ some x
unfolding first_where
first_where-hit p x h = rw h refl

module _ (event_type key : String) where
  abbrev the_row : Bus → Option Event
  the_row bus = first_where (is_same_event event_type key) bus.events

  insert_event-keeps :
      (size : String → ℕ) (now : ℕ) (e : Emission) (bus : Bus) (o : Option Event) (x : Event)
      → the_row bus ≡ some x
      → the_row (insert_event size now e bus o).1 ≡ some x
  unfolding insert_event
  insert_event-keeps size now e bus (some r) x h = h
  insert_event-keeps size now e bus none x h =
      first_where-append (is_same_event event_type key) bus.events (new_event size now e bus ∷ [])
      ∙ rw h refl

  -- A row that is there stays under later emissions.
  emit_event-keeps :
      (size : String → ℕ) (now : ℕ) (e : Emission) (bus : Bus) (x : Event)
      → the_row bus ≡ some x
      → the_row (emit_event size now e bus).1 ≡ some x
  unfolding emit_event
  emit_event-keeps size now e bus x h =
      insert_event-keeps size now e bus (existing_event e.event_type e.idempotency_key bus) x h

  emit_all-keeps :
      (calls : List EventCall) (bus : Bus) (x : Event)
      → the_row bus ≡ some x
      → the_row (emit_all calls bus) ≡ some x
  unfolding each
  emit_all-keeps [] bus x h = h
  emit_all-keeps ((size, now, e) ∷ calls) bus x h =
      emit_all-keeps calls (emit_event size now e bus).1 x (emit_event-keeps size now e bus x h)

insert_event-row :
    (size : String → ℕ) (now : ℕ) (e : Emission) (key : String) (bus : Bus) (o : Option Event)
    → e.idempotency_key ≡ some key
    → the_row e.event_type key bus ≡ o
    → the_row e.event_type key (insert_event size now e bus o).1
      ≡ some (insert_event size now e bus o).0
unfolding insert_event
insert_event-row size now e key bus (some r) keyed found = found
insert_event-row size now e key bus none keyed found =
    let x = new_event size now e bus in
    first_where-append (is_same_event e.event_type key) bus.events (x ∷ [])
    ∙ rw found
        (first_where-hit (is_same_event e.event_type key) x (is_same_event_self e key x refl keyed))

existing_event-row :
    (event_type key : String) (k : Option String) (bus : Bus)
    → k ≡ some key
    → the_row event_type key bus ≡ existing_event event_type k bus
unfolding existing_event
existing_event-row event_type key k bus h = rw h refl

-- What an emission with a key answers is the row under the key afterwards.
emit_event-row :
    (size : String → ℕ) (now : ℕ) (e : Emission) (key : String) (bus : Bus)
    → e.idempotency_key ≡ some key
    → the_row e.event_type key (emit_event size now e bus).1 ≡ some (emit_event size now e bus).0
unfolding emit_event
emit_event-row size now e key bus keyed =
    insert_event-row size now e key bus (existing_event e.event_type e.idempotency_key bus) keyed
      (existing_event-row e.event_type key e.idempotency_key bus keyed)

emit_event-known :
    (size : String → ℕ) (now : ℕ) (e : Emission) (key : String) (bus : Bus) (x : Event)
    → e.idempotency_key ≡ some key
    → the_row e.event_type key bus ≡ some x
    → emit_event size now e bus ≡ (x, bus)
unfolding emit_event existing_event insert_event
emit_event-known size now e key bus x keyed found = rw keyed (rw found refl)

-- Once an event with a key has been emitted, an emission of the same type with the same key, after any
-- other emissions, is answered with that event and changes nothing.
pub emit_event_once :
    (size : String → ℕ) (now : ℕ) (e : Emission) (key : String) (bus : Bus) (calls : List EventCall)
    (size' : String → ℕ) (later : ℕ) (again : Emission)
    → e.idempotency_key ≡ some key
    → again.idempotency_key ≡ some key
    → again.event_type ≡ e.event_type
    → emit_event size' later again (emit_all calls (emit_event size now e bus).1)
      ≡ ((emit_event size now e bus).0, emit_all calls (emit_event size now e bus).1)
emit_event_once size now e key bus calls size' later again keyed same_key same_type =
    let first = emit_event size now e bus in
    emit_event-known size' later again key (emit_all calls first.1) first.0 same_key (
      rw same_type (
        emit_all-keeps e.event_type key calls first.1 first.0
          (emit_event-row size now e key bus keyed)))
