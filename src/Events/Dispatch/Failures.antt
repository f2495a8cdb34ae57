-- ===== src/Events/Dispatch/Failures.antt =====
-- The circuit breaker.
use cueapi_core.Prelude.{
  ℕ, ◌+◌, ◌≤◌, ◌≡◌, refl, ap, sym, subst, ◌∙◌, false, none, some, List, [], ◌∷◌, ◌==◌, nat_eq,
  string_eq, first_where, where_, find, find-update_row, update_row, update_where-IsKeyed, IsKeyed,
  arith, ==-refl,
}
use mathlib.Core.Option.{some-injective}
use cueapi_core.Redis.{Redis}
use cueapi_core.Store.{seconds}
use cueapi_core.Events.{Event, Subscription, Bus, subscription_keyed}
use cueapi_core.Events.Dispatch.{
  PostResult, Cycle, deliver_webhook, dispatch_sub, fire_batch, record_delivery,
  fetch_pending_events_for_sub, fetch_dispatch_due_subs, is_dispatch_due, failed_once, write_sub,
  circuit_breaker_pause_seconds,
}
use cueapi_core.Events.Pull.{is_empty}
use cueapi_core.Events.Policy.{apply_tier_policy}
use cueapi_core.Events.Dispatch.Advance.{not_delivered}
use cueapi_core.Events.Dispatch.Cycles.{not_due-not_fetched}

tripped-idle :
    (now later : ℕ) (sub : Subscription)
    → 9 ≤ sub.consecutive_failures
    → later ≤ now + seconds circuit_breaker_pause_seconds
    → is_dispatch_due later (failed_once now sub sub) ≡ false
tripped-idle now later sub many soon = ground arith

module _ (R : Redis) (window now : ℕ) (post : ℕ → List Event → PostResult) where
  -- What is POSTed for a subscription, if anything is.
  abbrev pub batch_of : Subscription → Cycle R → List Event
  batch_of sub c =
      (apply_tier_policy R window now sub.subscriber_agent_id
        (fetch_pending_events_for_sub sub c.bus) c.redis).0

  failed-outcome :
      (sub : Subscription) (fired deferred : List Event) (c c' : Cycle R) (status : ℕ)
      → record_delivery R window now post sub fired deferred c (some (false, status)) ≡ some c'
      → c'.bus ≡ write_sub sub.id (failed_once now sub) c.bus
  unfolding record_delivery
  failed-outcome sub fired deferred c c' status h =
      ap (λ (d : Cycle R). d.bus) (sym (some-injective _ c' (rw (not_delivered status) at h)))

  fire_batch-failed :
      (sub : Subscription) (parts : List Event × List Event) (c c' : Cycle R) (status : ℕ)
      → is_empty parts.0 ≡ false
      → deliver_webhook (post sub.id parts.0) ≡ some (false, status)
      → fire_batch R window now post sub parts c ≡ some c'
      → c'.bus ≡ write_sub sub.id (failed_once now sub) c.bus
  unfolding fire_batch
  fire_batch-failed sub (fired, deferred) c c' status some_fired answer h =
      failed-outcome sub fired deferred c c' status (rw (some_fired, answer) at h)

  some_events :
      (sub : Subscription) (events : List Event) (c : Cycle R)
      → is_empty (apply_tier_policy R window now sub.subscriber_agent_id events c.redis).0 ≡ false
      → is_empty events ≡ false
  unfolding apply_tier_policy first_where where_
  some_events sub [] c h = cc
  some_events sub (e ∷ es) c h = refl

  -- A subscription with at least nine failures in a row whose receiver does not take the next batch either
  -- keeps its watermark and is not fetched again in any cycle of the next hour.
  pub breaker_pauses :
      (sub : Subscription) (c c' : Cycle R) (status later batch_size : ℕ)
      → IsKeyed c.bus.subscriptions
      → find sub.id c.bus.subscriptions ≡ some sub
      → 9 ≤ sub.consecutive_failures
      → is_empty (batch_of sub c) ≡ false
      → deliver_webhook (post sub.id (batch_of sub c)) ≡ some (false, status)
      → dispatch_sub R window now post sub c ≡ some c'
      → later ≤ now + seconds circuit_breaker_pause_seconds
      → (find sub.id (fetch_dispatch_due_subs later batch_size c'.bus) ≡ none)
        × (s' : Subscription) × (find sub.id c'.bus.subscriptions ≡ some s')
        × (s'.last_dispatched_event_id ≡ sub.last_dispatched_event_id)
  unfolding dispatch_sub update_row
  breaker_pauses sub c c' status later batch_size keyed row many some_fired answer h soon =
      let events = fetch_pending_events_for_sub sub c.bus in
      let parts = apply_tier_policy R window now sub.subscriber_agent_id events c.redis in
      let tables : c'.bus ≡ write_sub sub.id (failed_once now sub) c.bus =
        fire_batch-failed sub parts c c' status some_fired answer
          (rw (some_events sub events c some_fired) at h) in
      let row' : find sub.id c'.bus.subscriptions ≡ some (failed_once now sub sub) =
        ap (λ (b : Bus). find sub.id b.subscriptions) tables
        ∙ find-update_row sub.id sub.id (failed_once now sub) (λ s. refl) c.bus.subscriptions
        ∙ rw (==-refl sub.id) (rw row refl) in
      let keyed' : IsKeyed c'.bus.subscriptions =
        subst (λ (b : Bus). IsKeyed b.subscriptions) (sym tables)
          (update_where-IsKeyed (λ x. x.id == sub.id) (failed_once now sub) (λ s. refl)
            c.bus.subscriptions keyed) in
      (
        not_due-not_fetched later batch_size c'.bus sub.id (failed_once now sub sub) keyed' row'
            (tripped-idle now later sub many soon),
        failed_once now sub sub,
        row',
        refl,
      )
