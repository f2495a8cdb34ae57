-- ===== src/Events/Policy/Window.antt =====
-- The debounce window of events of priority 4.
use cueapi_core.Prelude.{
  ℕ, ◌+◌, ◌<◌, ◌≡◌, refl, true, not, ◌&&◌, Option, none, some, List, [], ltb, is_some,
  if◌then◌else◌, first_where, where_, arith,
}
use cueapi_core.Redis.{Redis, debounce_key}
use cueapi_core.Events.{Event}
use cueapi_core.Events.Policy.{
  is_high, is_debounced_at, is_p4_debounced, stamp_ttl, stamp_p4_fire, apply_tier_policy,
  stamp_dispatch_markers,
}

module _ (R : Redis) where
  open R use {State, get, set_ex, get-set_ex}

  stamp_ttl-long : (window : ℕ) → window < stamp_ttl R window
  stamp_ttl-long window = omega arith

  is_debounced-stamp :
      (window fired_at now ttl : ℕ) (r : Option ℕ)
      → window < ttl
      → r ≡ (if ltb now (fired_at + ttl) then some fired_at else none)
      → is_debounced_at window now r ≡ ltb now (fired_at + window)
  is_debounced-stamp window fired_at now ttl none long h = ground arith
  is_debounced-stamp window fired_at now ttl (some v) long h = ground arith

  is_p4_debounced-stamped :
      (window fired_at now agent : ℕ) (s s' : State) (r : Option ℕ)
      → set_ex s fired_at (debounce_key agent) fired_at (stamp_ttl R window) ≡ some s'
      → get s' now (debounce_key agent) ≡ some r
      → is_p4_debounced R window now agent s' ≡ ltb now (fired_at + window)
  unfolding is_p4_debounced
  is_p4_debounced-stamped window fired_at now agent s s' r stamped answer =
      rw (is_p4_debounced, answer)
        (is_debounced-stamp window fired_at now (stamp_ttl R window) r (stamp_ttl-long window) (
          get-set_ex s s' fired_at now (debounce_key agent) fired_at (stamp_ttl R window) r stamped
            answer))

  -- After a delivery with an event of priority 4, if Redis takes the stamp and answers the next check, a
  -- batch for the same recipient keeps back exactly its events of priority 4 until the window is over, and
  -- nothing from then on.
  pub apply_tier_policy-window :
      (window fired_at now agent : ℕ) (fired events : List Event) (s s' : State) (r : Option ℕ)
      → is_some (first_where is_high fired) ≡ true
      → set_ex s fired_at (debounce_key agent) fired_at (stamp_ttl R window) ≡ some s'
      → get s' now (debounce_key agent) ≡ some r
      → apply_tier_policy R window now agent events
          (stamp_dispatch_markers R window fired_at agent fired s)
        ≡ (if is_some (first_where is_high events) && ltb now (fired_at + window)
            then (where_ (λ e. not (is_high e)) events, where_ is_high events)
            else (events, []))
  unfolding apply_tier_policy stamp_dispatch_markers stamp_p4_fire
  apply_tier_policy-window window fired_at now agent fired events s s' r high stamped answer =
      rw high (
        rw stamped
          (rw (is_p4_debounced-stamped window fired_at now agent s s' r stamped answer) refl))
