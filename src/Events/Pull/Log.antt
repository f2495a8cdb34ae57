-- ===== src/Events/Pull/Log.antt =====
-- The events as a log: their ids rise in the order of the table, and the sequence is ahead of them.
use cueapi_core.Prelude.{
  ℕ, ◌+◌, ◌-◌, ◌<◌, ◌≡◌, refl, Bool, String, Option, none, some, List, [], ◌∷◌, ◌++◌, All, where_,
  where_-keeps, order_by, insert_by, leb, Bool-cases, inl, inr, arith,
}
use cueapi_core.Store.{days}
use cueapi_core.Events.{Event, Bus}
use cueapi_core.Events.Emit.{Emission, emit_event, insert_event, existing_event, new_event}
use cueapi_core.Events.Dispatch.{cleanup_old_events}

abbrev pub IsAscending : List Event → Type 0
IsAscending [] = Unit
IsAscending (e ∷ es) = All (λ f. e.id < f.id) es × IsAscending es

abbrev pub IsBelow : ℕ → List Event → Type 0
IsBelow n es = All (λ e. e.id < n) es

abbrev pub IsLog : Bus → Type 0
IsLog bus = IsAscending bus.events × IsBelow bus.next_event_id bus.events

pub where_-IsAscending :
    (q : Event → Bool) (es : List Event) → IsAscending es → IsAscending (where_ q es)
unfolding where_
where_-IsAscending q [] h = tt
where_-IsAscending q (e ∷ es) h = elim (Bool-cases (q e)) [
  | inl hit ↦ rw hit (where_-keeps (λ f. e.id < f.id) q es h.0, where_-IsAscending q es h.1)
  | inr miss ↦ rw miss (where_-IsAscending q es h.1)
]

insert_by-first :
    (e : Event) (es : List Event) → All (λ f. e.id < f.id) es → insert_by (λ f. f.id) e es ≡ e ∷ es
unfolding insert_by
insert_by-first e [] h = refl
insert_by-first e (f ∷ es) h = ground arith

-- ORDER BY id of rows that are in order.
pub order_by-ascending : (es : List Event) → IsAscending es → order_by (λ f. f.id) es ≡ es
unfolding order_by
order_by-ascending [] h = refl
order_by-ascending (e ∷ es) h = rw (order_by-ascending es h.1) (insert_by-first e es h.0)

append-IsBelow :
    (n : ℕ) (es : List Event) (e : Event) → IsBelow n es → e.id ≡ n → IsBelow (n + 1) (es ++ e ∷ [])
append-IsBelow n [] e h same = (omega arith, tt)
append-IsBelow n (f ∷ es) e h same = (omega arith, append-IsBelow n es e h.1 same)

below-append :
    (f : Event) (es : List Event) (e : Event)
    → All (λ g. f.id < g.id) es
    → f.id < e.id
    → All (λ g. f.id < g.id) (es ++ e ∷ [])
below-append f [] e h lt = (lt, tt)
below-append f (g ∷ es) e h lt = (h.0, below-append f es e h.1 lt)

append-IsAscending :
    (n : ℕ) (es : List Event) (e : Event)
    → IsAscending es
    → IsBelow n es
    → e.id ≡ n
    → IsAscending (es ++ e ∷ [])
append-IsAscending n [] e h below same = (tt, tt)
append-IsAscending n (f ∷ es) e h below same =
    (below-append f es e h.0 (omega arith), append-IsAscending n es e h.1 below.1 same)

insert_event-IsLog :
    (size : String → ℕ) (now : ℕ) (e : Emission) (bus : Bus) (o : Option Event)
    → IsLog bus
    → IsLog (insert_event size now e bus o).1
unfolding insert_event
insert_event-IsLog size now e bus (some r) h = h
insert_event-IsLog size now e bus none h = (
  append-IsAscending bus.next_event_id bus.events (new_event size now e bus) h.0 h.1 refl,
  append-IsBelow bus.next_event_id bus.events (new_event size now e bus) h.1 refl,
)

pub emit_event-IsLog :
    (size : String → ℕ) (now : ℕ) (e : Emission) (bus : Bus)
    → IsLog bus
    → IsLog (emit_event size now e bus).1
unfolding emit_event
emit_event-IsLog size now e bus h =
    insert_event-IsLog size now e bus (existing_event e.event_type e.idempotency_key bus) h

pub cleanup_old_events-IsLog :
    (now retention_days : ℕ) (bus : Bus)
    → IsLog bus
    → IsLog (cleanup_old_events now retention_days bus).1
unfolding cleanup_old_events
cleanup_old_events-IsLog now retention_days bus h =
    let fresh = λ (e : Event). leb (now - days retention_days) e.emitted_at in
    (
      where_-IsAscending fresh bus.events h.0,
      where_-keeps (λ e. e.id < bus.next_event_id) fresh bus.events h.1,
    )
