-- ===== src/Events/Dispatch/Round.antt =====
-- What one cycle of deliveries does to the row of a subscription.
use mathlib.Core.List.{Memᴰ}
use mathlib.Core.Option.{some-injective}
use cueapi_core.Prelude.{
  ℕ, ◌<◌, ◌≡◌, ◌≢◌, refl, ap, sym, subst, ◌∙◌, ◌⊎◌, Bool, true, false, not, ◌&&◌, Option, none,
  some, List, [], ◌∷◌, ◌==◌, nat_eq, string_eq, take, where_, where_-All, where_-keeps, first_where,
  is_some, update_row, update_where-id, Bool-cases, inl, inr,
}
use cueapi_core.Redis.{Redis}
use cueapi_core.Events.{Event, Subscription, subscription_keyed}
use cueapi_core.Events.Pull.{last_id, is_empty}
use cueapi_core.Events.Pull.Log.{IsLog, where_-IsAscending, order_by-ascending}
use cueapi_core.Events.Policy.{is_high, apply_tier_policy, is_p4_debounced}
use cueapi_core.Events.Dispatch.{
  PostResult, deliver_webhook, new_watermark, dispatched_up_to, Cycle, record_delivery, fire_batch,
  dispatch_sub, fetch_pending_events_for_sub, is_pending, fired_up_to, failed_once,
  classify_dispatch_response, dispatch_events_per_sub, write_sub,
}
use cueapi_core.Events.Dispatch.Watermark.{
  Mem-where_, where_-Mem, new_watermark-covers, new_watermark-forward, new_watermark-below,
  last_id-cons,
}
use cueapi_core.Events.Dispatch.Advance.{
  accepted, SameTerms, Advance, pending_above, Advance-still, not_delivered,
}

module _ (R : Redis) where
  open R use {State}

  apply_tier_policy-from :
      (window now agent : ℕ) (events : List Event) (s : State) (x : Event)
      → Memᴰ x (apply_tier_policy R window now agent events s).0
      → Memᴰ x events
  unfolding apply_tier_policy
  apply_tier_policy-from window now agent events s x m =
      elim (Bool-cases
        (is_some (first_where is_high events) && is_p4_debounced R window now agent s)) [
          | inl held ↦ (where_-Mem (λ e. not (is_high e)) x events (rw held at m)).0
          | inr free ↦ rw free at m
        ]

  apply_tier_policy-parts :
      (window now agent : ℕ) (events : List Event) (s : State) (x : Event)
      → Memᴰ x events
      → Memᴰ x (apply_tier_policy R window now agent events s).0
        ⊎ Memᴰ x (apply_tier_policy R window now agent events s).1
  unfolding apply_tier_policy
  apply_tier_policy-parts window now agent events s x m =
      elim (Bool-cases
        (is_some (first_where is_high events) && is_p4_debounced R window now agent s)) [
          | inl held ↦ rw held (elim (Bool-cases (is_high x)) [
            | inl high ↦ inr (Mem-where_ is_high x events m high)
            | inr other ↦ inl (Mem-where_ (λ e. not (is_high e)) x events m (rw other refl))
          ])
          | inr free ↦ rw free (inl m)
        ]

  module _ (window now : ℕ) (post : ℕ → List Event → PostResult) where
    -- A step of the cycle writes the row of its subscription and nothing else.
    pub record Wrote (sub : Subscription) (c c' : Cycle R) : Type 0 where
      pub change : Subscription → Subscription
      pub keeps : (s : Subscription) → (change s).id ≡ s.id
      pub terms : (s : Subscription) → SameTerms (change s) s
      pub bus_after : c'.bus ≡ write_sub sub.id change c.bus
      pub sent : (x : ℕ × List Event) → Memᴰ x c.posts → Memᴰ x c'.posts
      pub advance : Advance post c'.posts c.bus.events c.bus.next_event_id sub (change sub)

    Wrote-nothing :
        (sub : Subscription) (c c' : Cycle R)
        → ◌≡◌ {A = Option (Cycle R)} (some c) (some c')
        → Wrote sub c c'
    unfolding update_row
    Wrote-nothing sub c c' h = record {
      change = λ s. s;
      keeps = λ s. refl;
      terms = λ s. (refl, refl, refl, refl, refl, λ h. h);
      bus_after =
          ap (λ (d : Cycle R). d.bus) (sym (some-injective c c' h))
          ∙ ap (λ t. record c.bus { subscriptions = t })
              (sym
                (update_where-id (λ x. x.id == sub.id) (λ s. s) (λ s. refl) c.bus.subscriptions));
      sent = λ x m. subst (λ (d : Cycle R). Memᴰ x d.posts) (some-injective c c' h) m;
      advance =
          Advance-still post c'.posts c.bus.events c.bus.next_event_id sub sub refl refl refl refl;
    }

    module _ (sub : Subscription) (c : Cycle R) (log : IsLog c.bus) (fired deferred : List Event)
        (some_fired : last_id fired ≢ none)
        (from_batch : (x : Event)
          → Memᴰ x fired
          → Memᴰ x (take dispatch_events_per_sub (where_ (is_pending sub) c.bus.events)))
        (in_parts : (x : Event)
          → Memᴰ x (take dispatch_events_per_sub (where_ (is_pending sub) c.bus.events))
          → Memᴰ x fired ⊎ Memᴰ x deferred) where
      delivered-Advance :
          (posts : List (ℕ × List Event))
          → Memᴰ (sub.id, fired) posts
          → accepted (post sub.id fired) ≡ true
          → Advance post posts c.bus.events c.bus.next_event_id sub
              (fired_up_to now (new_watermark sub fired deferred) sub)
      delivered-Advance posts sent took =
          let pending = where_ (is_pending sub) c.bus.events in
          let sorted = where_-IsAscending (is_pending sub) c.bus.events log.0 in
          let above =
            where_-All (λ e. dispatched_up_to sub < e.id) (is_pending sub) c.bus.events
              (λ e m h. pending_above sub e h) in
          record {
            same_id = refl;
            same_agent = refl;
            same_type = refl;
            forward =
                new_watermark-forward sub dispatch_events_per_sub pending fired sorted deferred
                  above from_batch some_fired;
            delivered = λ e m h le. (
              fired,
              sent,
              new_watermark-covers sub dispatch_events_per_sub pending fired sorted deferred
                  from_batch in_parts e (Mem-where_ (is_pending sub) e c.bus.events m h)
                  (pending_above sub e h) le,
              took,
            );
            below = λ start.
                new_watermark-below sub dispatch_events_per_sub pending fired sorted deferred
                  c.bus.next_event_id
                  (where_-keeps (λ e. e.id < c.bus.next_event_id) (is_pending sub) c.bus.events
                    log.1)
                  start from_batch;
          }

      record_delivery-Wrote :
          (c' : Cycle R) (o : Option (Bool × ℕ))
          → deliver_webhook (post sub.id fired) ≡ o
          → record_delivery R window now post sub fired deferred c o ≡ some c'
          → Wrote sub c c'
      unfolding record_delivery classify_dispatch_response accepted
      record_delivery-Wrote c' none answer h = absurd (cc)
      record_delivery-Wrote c' (some (true, status)) answer h = record {
        change = fired_up_to now (new_watermark sub fired deferred);
        keeps = λ s. refl;
        terms = λ s. (refl, refl, refl, refl, refl, λ h. h);
        bus_after = ap (λ (d : Cycle R). d.bus) (sym (some-injective _ c' h));
        sent = λ x m. subst (λ (d : Cycle R). Memᴰ x d.posts) (some-injective _ c' h) (Memᴰ.tail m);
        advance =
            delivered-Advance c'.posts
              (subst (λ (d : Cycle R). Memᴰ (sub.id, fired) d.posts) (some-injective _ c' h)
                (Memᴰ.head refl))
              (rw (accepted, answer) refl);
      }
      record_delivery-Wrote c' (some (false, status)) answer h = record {
        change = failed_once now sub;
        keeps = λ s. refl;
        terms = λ s. (refl, refl, refl, refl, refl, λ h. h);
        bus_after =
            ap (λ (d : Cycle R). d.bus)
              (sym (some-injective _ c' (rw (not_delivered status) at h)));
        sent = λ x m.
            subst (λ (d : Cycle R). Memᴰ x d.posts)
              (some-injective _ c' (rw (not_delivered status) at h)) (Memᴰ.tail m);
        advance =
            Advance-still post c'.posts c.bus.events c.bus.next_event_id sub
              (failed_once now sub sub) refl refl refl refl;
      }

    -- `fire_batch` with the parts that the policy makes of the batch.
    fire_batch-Wrote :
        (sub : Subscription) (c c' : Cycle R)
        → IsLog c.bus
        → (parts : List Event × List Event)
        → ((x : Event)
            → Memᴰ x parts.0
            → Memᴰ x (take dispatch_events_per_sub (where_ (is_pending sub) c.bus.events)))
        → ((x : Event)
            → Memᴰ x (take dispatch_events_per_sub (where_ (is_pending sub) c.bus.events))
            → Memᴰ x parts.0 ⊎ Memᴰ x parts.1)
        → fire_batch R window now post sub parts c ≡ some c'
        → Wrote sub c c'
    unfolding fire_batch
    fire_batch-Wrote sub c c' log ([], deferred) from_batch in_parts h = Wrote-nothing sub c c' h
    fire_batch-Wrote sub c c' log (e ∷ fired, deferred) from_batch in_parts h =
        record_delivery-Wrote sub c log (e ∷ fired) deferred (last_id-cons e fired) from_batch
          in_parts c' (deliver_webhook (post sub.id (e ∷ fired))) refl h

    pub dispatch_sub-Wrote :
        (sub : Subscription) (c c' : Cycle R)
        → IsLog c.bus
        → dispatch_sub R window now post sub c ≡ some c'
        → Wrote sub c c'
    unfolding dispatch_sub fetch_pending_events_for_sub
    dispatch_sub-Wrote sub c c' log h =
        let sorted =
          order_by-ascending (where_ (is_pending sub) c.bus.events)
            (where_-IsAscending (is_pending sub) c.bus.events log.0) in
        let h' = rw sorted at h in
        let batch = take dispatch_events_per_sub (where_ (is_pending sub) c.bus.events) in
        elim (Bool-cases (is_empty batch)) [
          | inl empty ↦ Wrote-nothing sub c c' (rw empty at h')
          | inr some_events ↦
              fire_batch-Wrote sub c c' log
                (apply_tier_policy R window now sub.subscriber_agent_id batch c.redis)
                (apply_tier_policy-from window now sub.subscriber_agent_id batch c.redis)
                (apply_tier_policy-parts window now sub.subscriber_agent_id batch c.redis)
                (rw some_events at h')
        ]
