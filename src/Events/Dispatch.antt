-- ===== src/Events/Dispatch.antt =====
-- worker/subscription_dispatcher.py: the webhook deliveries of one cycle, and the cleanup.
pub mod Advance
pub mod Round
pub mod Watermark
pub mod Cycles
pub mod Failures
use cueapi_core.Prelude.{
  ℕ, ◌+◌, ◌-◌, Bool, true, false, not, ◌&&◌, ◌||◌, String, Option, none, some, List, [], ◌∷◌, ◌==◌,
  nat_eq, string_eq, is_null, col_lt, ltb, leb, min, length, if◌then◌else◌, or_else, take, where_,
  order_by, update_row, try_each,
}
use cueapi_core.Redis.{Redis}
use cueapi_core.Store.{seconds, days}
use cueapi_core.Events.{Event, Subscription, Bus, event_keyed, subscription_keyed}
use cueapi_core.Events.Pull.{last_id, is_empty}
use cueapi_core.Events.Policy.{apply_tier_policy, stamp_dispatch_markers}

abbrev pub dispatch_batch_size : ℕ
dispatch_batch_size = 100

abbrev pub dispatch_events_per_sub : ℕ
dispatch_events_per_sub = 50

abbrev pub circuit_breaker_threshold : ℕ
circuit_breaker_threshold = 10

abbrev pub circuit_breaker_pause_seconds : ℕ
circuit_breaker_pause_seconds = 3600

abbrev pub should_trip_breaker : ℕ → Bool
should_trip_breaker failures = leb circuit_breaker_threshold failures

pub data DispatchOutcome : Type 0 where
  delivered_ok : DispatchOutcome
  retry_later : DispatchOutcome
  skipped : DispatchOutcome

unfoldable pub classify_dispatch_response : Bool → ℕ → DispatchOutcome
classify_dispatch_response ok status =
    if ok
    then delivered_ok
    else if status == 0 || leb 500 status || status == 408 || status == 429
    then retry_later
    else skipped

-- What client.post does: a response with its status, a timeout or a network error, or another
-- exception.
pub data PostResult : Type 0 where
  responded : ℕ → PostResult
  unreachable : PostResult
  raised : PostResult

-- _deliver_webhook: (ok, status), or none for an exception that is not caught.
unfoldable pub deliver_webhook : PostResult → Option (Bool × ℕ)
deliver_webhook (responded status) = some (leb 200 status && ltb status 300, status)
deliver_webhook unreachable = some (false, 0)
deliver_webhook raised = none

abbrev pub is_dispatch_due : ℕ → Subscription → Bool
is_dispatch_due now s =
    s.delivery_target == "webhook"
    && is_null s.detached_at
    && (is_null s.paused_until || col_lt s.paused_until now)

-- ORDER BY last_dispatched_event_id NULLS FIRST
abbrev pub dispatch_rank : Option ℕ → ℕ
dispatch_rank none = 0
dispatch_rank (some n) = n + 1

unfoldable pub fetch_dispatch_due_subs : ℕ → ℕ → Bus → List Subscription
fetch_dispatch_due_subs now batch_size bus = take batch_size (
    order_by (λ s. dispatch_rank s.last_dispatched_event_id)
      (where_ (is_dispatch_due now) bus.subscriptions))

abbrev pub dispatched_up_to : Subscription → ℕ
dispatched_up_to s = or_else s.last_dispatched_event_id 0

abbrev pub is_pending : Subscription → Event → Bool
is_pending s e =
    e.recipient_agent_id == s.subscriber_agent_id
    && e.event_type == s.event_type
    && ltb (dispatched_up_to s) e.id

unfoldable pub fetch_pending_events_for_sub : Subscription → Bus → List Event
fetch_pending_events_for_sub s bus =
    take dispatch_events_per_sub (order_by (λ e. e.id) (where_ (is_pending s) bus.events))

-- `min(e.id for e in events_deferred)`
unfoldable pub lowest_id : Event → List Event → ℕ
lowest_id e [] = e.id
lowest_id e (f ∷ es) = min e.id (lowest_id f es)

-- The watermark after a delivery of the first list, when the second has been held back.
unfoldable pub new_watermark : Subscription → List Event → List Event → ℕ
unfolding last_id lowest_id
new_watermark s fired [] = or_else (last_id fired) 0
new_watermark s fired (d ∷ deferred) =
    or_else (last_id (where_ (λ e. ltb e.id (lowest_id d deferred)) fired)) (dispatched_up_to s)

abbrev pub fired_up_to : ℕ → ℕ → Subscription → Subscription
fired_up_to now watermark s = record s {
  last_dispatched_event_id = some watermark;
  last_dispatched_at = some now;
  consecutive_failures = 0;
  last_acked_event_id = some watermark;
}

-- The values of the UPDATE after a failure: they are computed from the row that the SELECT gave.
abbrev pub failed_once : ℕ → Subscription → Subscription → Subscription
failed_once now read s = record s {
  consecutive_failures = read.consecutive_failures + 1;
  paused_until =
      if should_trip_breaker (read.consecutive_failures + 1)
      then some (now + seconds circuit_breaker_pause_seconds)
      else read.paused_until;
}

abbrev pub write_sub : ℕ → (Subscription → Subscription) → Bus → Bus
write_sub i f bus = record bus { subscriptions = update_row i f bus.subscriptions }

abbrev pub is_delivered : DispatchOutcome → Bool
is_delivered delivered_ok = true
is_delivered retry_later = false
is_delivered skipped = false

module _ (R : Redis) where
  open R use {State}

  -- The transaction, with the number of attempts, and the batches that have been POSTed, each with its
  -- subscription, the last one first.
  pub record Cycle : Type 0 where
    pub bus : Bus
    pub redis : State
    pub attempts : ℕ
    pub posts : List (ℕ × List Event)

  abbrev pub attempted : ℕ → List Event → Bus → State → Cycle → Cycle
  attempted i fired bus s c = record {
    bus = bus;
    redis = s;
    attempts = c.attempts + 1;
    posts = (i, fired) ∷ c.posts;
  }

  -- `post i events` answers the POST of a batch; the clock reads `now` within the cycle.
  module _ (window now : ℕ) (post : ℕ → List Event → PostResult) where
    -- After the POST of a batch that is not empty.
    unfoldable pub record_delivery :
        Subscription → List Event → List Event → Cycle → Option (Bool × ℕ) → Option Cycle
    unfolding classify_dispatch_response new_watermark stamp_dispatch_markers
    record_delivery sub fired deferred c none = none
    record_delivery sub fired deferred c (some (ok, status)) =
        if is_delivered (classify_dispatch_response ok status)
        then some (
            attempted sub.id fired
              (write_sub sub.id (fired_up_to now (new_watermark sub fired deferred)) c.bus)
              (stamp_dispatch_markers R window now sub.subscriber_agent_id fired c.redis) c)
        else some (attempted sub.id fired (write_sub sub.id (failed_once now sub) c.bus) c.redis c)

    unfoldable pub fire_batch : Subscription → List Event × List Event → Cycle → Option Cycle
    unfolding record_delivery deliver_webhook
    fire_batch sub (fired, deferred) c =
        if is_empty fired
        then some c
        else record_delivery sub fired deferred c (deliver_webhook (post sub.id fired))

    unfoldable pub dispatch_sub : Subscription → Cycle → Option Cycle
    unfolding fetch_pending_events_for_sub apply_tier_policy fire_batch
    dispatch_sub sub c =
        let events = fetch_pending_events_for_sub sub c.bus in
        if is_empty events
        then some c
        else fire_batch sub (apply_tier_policy R window now sub.subscriber_agent_id events c.redis)
            c

    -- An exception rolls the transaction back, but not what Redis has been told.
    unfoldable pub dispatch_subscription_events : ℕ → Bus → State → Option Cycle
    unfolding fetch_dispatch_due_subs dispatch_sub try_each
    dispatch_subscription_events batch_size bus s =
        try_each dispatch_sub (fetch_dispatch_due_subs now batch_size bus)
          (record { bus = bus; redis = s; attempts = 0; posts = [] })

-- The retention of run_poller is seven days.
unfoldable pub cleanup_old_events : ℕ → ℕ → Bus → ℕ × Bus
cleanup_old_events now retention_days bus =
    let kept = where_ (λ e. leb (now - days retention_days) e.emitted_at) bus.events in
    (length bus.events - length kept, record bus { events = kept })
