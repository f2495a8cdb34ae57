-- ===== src/Events/Runs/Constraints.antt =====
-- The constraints of the table of subscriptions, in every history.
use mathlib.Core.Option.{some-injective}
use cueapi_core.Prelude.{
  ℕ, ◌≡◌, refl, sym, subst, String, Option, none, some, List, [], ◌∷◌, ◌==◌, nat_eq, string_eq,
  update_row, try_each,
}
use cueapi_core.Redis.{Redis}
use cueapi_core.Events.{Event, Subscription, Bus, subscription_keyed}
use cueapi_core.Events.Emit.{Emission, emit_event, insert_event, existing_event}
use cueapi_core.Events.Subscribe.{detach_subscription, is_attached, detached}
use cueapi_core.Events.Acks.{
  advance_ack_watermark, ack_subscription, acks_by_id, acks_by_pull, acked,
}
use cueapi_core.Events.Dispatch.{
  PostResult, Cycle, dispatch_subscription_events, cleanup_old_events, dispatch_sub,
  fetch_dispatch_due_subs,
}
use cueapi_core.Events.Pull.Log.{IsLog}
use cueapi_core.Events.Dispatch.Round.{dispatch_sub-Wrote}
use cueapi_core.Events.Dispatch.Cycles.{bind-some}
use cueapi_core.Events.Runs
use cueapi_core.Events.Runs.{emitted, cleaned, subscribed, detached_by, acked_by, pulled, cycled}
use cueapi_core.Events.Runs.Keeps.{IsSane, history-IsSane}
use cueapi_core.Events.Runs.Rows.{
  MeetsConstraints, same_terms, update_where-MeetsConstraints, create_subscription-MeetsConstraints,
}

module _ (R : Redis) (window now : ℕ) (post : ℕ → List Event → PostResult) where
  loop-MeetsConstraints :
      (es : List Subscription) (c c' : Cycle R)
      → IsLog c.bus
      → MeetsConstraints c.bus.subscriptions
      → try_each (dispatch_sub R window now post) es c ≡ some c'
      → MeetsConstraints c'.bus.subscriptions
  unfolding try_each update_row
  loop-MeetsConstraints [] c c' log meets h =
      subst (λ (d : Cycle R). MeetsConstraints d.bus.subscriptions) (some-injective c c' h) meets
  loop-MeetsConstraints (e ∷ es) c c' log meets h =
      let rest_of = try_each (dispatch_sub R window now post) es in
      let (c₁, first, rest) = bind-some (dispatch_sub R window now post e c) rest_of c' h in
      let w = dispatch_sub-Wrote R window now post e c c₁ log first in
      loop-MeetsConstraints es c₁ c' (subst IsLog (sym w.bus_after) log)
        (subst (λ (b : Bus). MeetsConstraints b.subscriptions) (sym w.bus_after)
          (update_where-MeetsConstraints (λ x. x.id == e.id) w.change w.terms c.bus.subscriptions
            meets))
        rest

insert_event-MeetsConstraints :
    (size : String → ℕ) (now : ℕ) (e : Emission) (bus : Bus) (o : Option Event)
    → MeetsConstraints bus.subscriptions
    → MeetsConstraints (insert_event size now e bus o).1.subscriptions
unfolding insert_event
insert_event-MeetsConstraints size now e bus none h = h
insert_event-MeetsConstraints size now e bus (some r) h = h

module _ (R : Redis) where
  dispatch-MeetsConstraints :
      (window now : ℕ) (post : ℕ → List Event → PostResult) (batch_size : ℕ) (bus : Bus)
      (st : Redis.State R) (o : Option (Cycle R))
      → IsLog bus
      → MeetsConstraints bus.subscriptions
      → dispatch_subscription_events R window now post batch_size bus st ≡ o
      → MeetsConstraints (Runs.bus_of R bus o).subscriptions
  unfolding dispatch_subscription_events
  dispatch-MeetsConstraints window now post batch_size bus st none log meets run = meets
  dispatch-MeetsConstraints window now post batch_size bus st (some c) log meets run =
      loop-MeetsConstraints R window now post (fetch_dispatch_due_subs now batch_size bus)
        (record { bus = bus; redis = st; attempts = 0; posts = [] }) c log meets run

  happen-MeetsConstraints :
      (h : Runs.Happening R) (bus : Bus)
      → IsLog bus
      → MeetsConstraints bus.subscriptions
      → MeetsConstraints (Runs.happen R h bus).subscriptions
  unfolding emit_event cleanup_old_events detach_subscription ack_subscription advance_ack_watermark
  happen-MeetsConstraints (emitted (size, now, e)) bus log meets =
      insert_event-MeetsConstraints size now e bus
        (existing_event e.event_type e.idempotency_key bus) meets
  happen-MeetsConstraints (cleaned now retention_days) bus log meets = meets
  happen-MeetsConstraints (subscribed is_safe secret now agent body) bus log meets =
      create_subscription-MeetsConstraints is_safe secret now agent body bus meets
  happen-MeetsConstraints (detached_by now i agent) bus log meets =
      update_where-MeetsConstraints (is_attached i agent) (detached now)
        (λ s. (refl, refl, refl, refl, refl, λ h. refl)) bus.subscriptions meets
  happen-MeetsConstraints (acked_by i agent n) bus log meets =
      update_where-MeetsConstraints (acks_by_id i agent n) (acked n) same_terms bus.subscriptions
        meets
  happen-MeetsConstraints (pulled agent n event_type) bus log meets =
      update_where-MeetsConstraints (acks_by_pull agent n event_type) (acked n) same_terms
        bus.subscriptions meets
  happen-MeetsConstraints (cycled window now post batch_size st) bus log meets =
      dispatch-MeetsConstraints window now post batch_size bus st
        (dispatch_subscription_events R window now post batch_size bus st) log meets refl

  -- In every history each subscription is a pull subscription without URL and secret or a webhook subscription
  -- with both, and no two active ones have the same owner, event type and target, if that is so at first. At
  -- first the keys are unique and ahead of the tables, too.
  pub history-MeetsConstraints :
      (hs : List (Runs.Happening R)) (bus : Bus)
      → IsSane bus
      → MeetsConstraints bus.subscriptions
      → MeetsConstraints (Runs.history R hs bus).subscriptions
  history-MeetsConstraints [] bus sane meets = meets
  history-MeetsConstraints (h ∷ hs) bus sane meets =
      happen-MeetsConstraints h (Runs.history R hs bus) (history-IsSane R hs bus sane).log
        (history-MeetsConstraints hs bus sane meets)
