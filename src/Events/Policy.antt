-- ===== src/Events/Policy.antt =====
-- worker/subscription_dispatcher_policy.py: which events of a batch are held back. Times and the window
-- PRIORITY_4_DEBOUNCE_SECONDS are in microseconds.
pub mod Window
use cueapi_core.Prelude.{
  ℕ, ◌+◌, ◌/◌, Bool, true, false, not, ◌&&◌, ◌||◌, Option, none, some, List, [], ◌∷◌, ◌==◌, nat_eq,
  is_some, ltb, max, if◌then◌else◌, first_where, where_, or_else,
}
use cueapi_core.Redis.{Redis, debounce_key}
use cueapi_core.Store.{seconds}
use cueapi_core.Usage.Counter.{try_state}
use cueapi_core.Events.{Event, PriorityField, absent, not_int, below_zero, whole}

abbrev pub priority_high : ℕ
priority_high = 4

-- _event_priority: 3 unless the payload has a number from 1 to 5.
abbrev pub priority_of : PriorityField → ℕ
priority_of absent = 3
priority_of not_int = 3
priority_of below_zero = 3
priority_of (whole n) = if ltb n 1 || ltb 5 n then 3 else n

unfoldable pub event_priority : Event → ℕ
event_priority e = priority_of e.payload.priority

abbrev pub is_high : Event → Bool
is_high e = event_priority e == priority_high

abbrev pub is_debounced_at : ℕ → ℕ → Option ℕ → Bool
is_debounced_at window now none = false
is_debounced_at window now (some last_fire) = ltb now (last_fire + window)

module _ (R : Redis) where
  open R use {State, get, set_ex}

  -- _is_p4_debounced. A failing Redis lets the event through.
  unfoldable pub is_p4_debounced : ℕ → ℕ → ℕ → State → Bool
  is_p4_debounced window now agent s = elim (get s now (debounce_key agent)) [
    | none ↦ false
    | some raw ↦ is_debounced_at window now raw
  ]

  abbrev pub stamp_ttl : ℕ → ℕ
  stamp_ttl window = seconds (max 1 (window / seconds 1 + 1))

  unfoldable pub stamp_p4_fire : ℕ → ℕ → ℕ → State → State
  stamp_p4_fire window now agent s =
      try_state R s (set_ex s now (debounce_key agent) now (stamp_ttl window))

  -- The events to fire and the deferred ones. Redis is asked only if there is an event of priority 4.
  unfoldable pub apply_tier_policy : ℕ → ℕ → ℕ → List Event → State → List Event × List Event
  apply_tier_policy window now agent events s =
      if is_some (first_where is_high events) && is_p4_debounced window now agent s
      then (where_ (λ e. not (is_high e)) events, where_ is_high events)
      else (events, [])

  unfoldable pub stamp_dispatch_markers : ℕ → ℕ → ℕ → List Event → State → State
  unfolding stamp_p4_fire
  stamp_dispatch_markers window now agent events s =
      if is_some (first_where is_high events) then stamp_p4_fire window now agent s else s
