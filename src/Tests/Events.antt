-- ===== src/Tests/Events.antt =====
-- The event bus on small inputs.
use mathlib.Core.Option
use mathlib.Core.List.{Memᴰ}
use cueapi_core.Prelude.{
  ℕ, ◌≡◌, ◌≤◌, refl, false, String, Option, none, some, List, [], ◌∷◌, length, find, where_,
  order_by, update_row, update_where, arith, ltb, inl, inr, ◌&&◌, if◌then◌else◌, ◌+◌, not, is_some,
  first_where,
}
use cueapi_core.Store.{seconds}
use cueapi_core.Events.{
  Event, Subscription, Bus, EventPayload, whole, event_keyed, subscription_keyed,
}
use cueapi_core.Events.Emit.{Emission, emit_event, payload_of}
use cueapi_core.Events.Emit.Once.{emit_event_once, emit_all}
use cueapi_core.Events.Pull.{pull_events, last_id, is_empty}
use cueapi_core.Events.Acks.{ack_subscription, advance_ack_watermark}
use cueapi_core.Events.Pull.Pages.{pull_all, pull_all_complete, events_after}
use cueapi_core.Events.Policy.{
  apply_tier_policy, stamp_dispatch_markers, is_high, event_priority, is_p4_debounced,
}
use cueapi_core.Events.Policy.Window.{apply_tier_policy-window}
use cueapi_core.Events.Dispatch.{
  PostResult, responded, deliver_webhook, fetch_pending_events_for_sub, Cycle, dispatch_sub,
  fetch_dispatch_due_subs, dispatched_up_to, dispatch_subscription_events,
}
use cueapi_core.Events.Dispatch.Failures.{breaker_pauses, batch_of}
use cueapi_core.Events.Runs
use cueapi_core.Events.Runs.{Happening, emitted, acked_by, pulled, cycled, history}
use cueapi_core.Events.Runs.Keeps.{IsSane}
use cueapi_core.Events.Runs.Steps.{DeliveredIn}
use cueapi_core.Events.Runs.AtLeastOnce.{dispatched_at_least_once}
use cueapi_core.Events.Runs.Rows.{MeetsConstraints}
use cueapi_core.Events.Runs.Constraints.{history-MeetsConstraints}
use cueapi_core.Events.Runs.Acknowledged.{pull_acks_forward, ack_rank}
use cueapi_core.Tests.Memory.{memory_redis, no_keys}

abbrev size : String → ℕ
size t = 5

abbrev payload : EventPayload
payload = record {
  priority = whole 4;
  body = none;
  body_omitted = none;
  body_size_bytes = none;
  others = "{}";
}

abbrev emission : Option String → Emission
emission key = record {
  event_type = "message.delivered";
  recipient_agent_id = 7;
  payload = payload;
  idempotency_key = key;
  body_text = none;
}

abbrev event : ℕ → Event
event i = record {
  id = i;
  event_type = "message.delivered";
  recipient_agent_id = 7;
  payload = payload;
  idempotency_key = none;
  emitted_at = 100;
}

abbrev pull_sub : Subscription
pull_sub = record {
  id = 1;
  subscriber_agent_id = 7;
  event_type = "message.delivered";
  delivery_target = "pull";
  webhook_url = none;
  webhook_secret = none;
  inline_body = false;
  last_dispatched_event_id = none;
  last_dispatched_at = none;
  last_acked_event_id = none;
  consecutive_failures = 0;
  paused_until = none;
  created_at = 10;
  detached_at = none;
}

abbrev hook_sub : Subscription
hook_sub = record pull_sub {
  id = 2;
  delivery_target = "webhook";
  webhook_url = some "https://a.example/x";
  webhook_secret = some "whsec";
}

abbrev start : Bus
start = record {
  events = [];
  subscriptions = pull_sub ∷ hook_sub ∷ [];
  next_event_id = 1;
  next_subscription_id = 3;
}

abbrev stored : Bus
stored = record start { events = event 1 ∷ event 2 ∷ event 3 ∷ []; next_event_id = 4 }

start-free : (i : ℕ) → 3 ≤ i → find i start.subscriptions ≡ none
unfolding find
start-free i h = ground arith

start-IsSane : IsSane start
unfolding find
start-IsSane = record { log = (tt, tt); keyed = (refl, (refl, tt)); free = start-free }

second_emission : (emit_event size 9 (emission (some "k")) start).0.id ≡ 1
unfolding emit_event first_where
second_emission = refl

emit_event_once_example :
    emit_event size 30
      (emission (some "k"))
      (emit_all ((size, 20, emission none) ∷ []) (emit_event size 9 (emission (some "k")) start).1)
    ≡ (
      (emit_event size 9 (emission (some "k")) start).0,
      emit_all ((size, 20, emission none) ∷ []) (emit_event size 9 (emission (some "k")) start).1,
    )
emit_event_once_example =
    emit_event_once size 9 (emission (some "k")) "k" start ((size, 20, emission none) ∷ []) size 30
      (emission (some "k")) refl refl refl

two_pages : length (pull_all 4 7 2 none stored 0) ≡ 3
unfolding pull_all pull_events where_ order_by last_id
two_pages = refl

pull_all_complete_example : pull_all 4 7 2 none stored 0 ≡ events_after 7 none stored 0
unfolding where_
pull_all_complete_example = pull_all_complete 4 7 2 none stored 0 (omega arith) (omega arith)

-- Priority 4 again, one second after the first delivery with a window of two.
apply_tier_policy-window_example :
    apply_tier_policy memory_redis 2000000 1500000 7
      (event 2 ∷ [])
      (stamp_dispatch_markers memory_redis 2000000 500000 7 (event 1 ∷ []) no_keys)
    ≡ (if is_some (first_where is_high (event 2 ∷ [])) && ltb 1500000 (500000 + 2000000)
        then (where_ (λ e. not (is_high e)) (event 2 ∷ []), where_ is_high (event 2 ∷ []))
        else (event 2 ∷ [], []))
unfolding first_where event_priority
apply_tier_policy-window_example =
    apply_tier_policy-window memory_redis 2000000 500000 1500000 7 (event 1 ∷ []) (event 2 ∷ [])
      no_keys _ _ refl refl refl

abbrev posts : ℕ → List Event → PostResult
posts i es = responded 200

abbrev failing : ℕ → List Event → PostResult
failing i es = responded 503

abbrev steps : List (Runs.Happening memory_redis)
steps = cycled 2000000 500 posts 100 no_keys ∷ emitted (size, 9, emission none) ∷ []

abbrev after_steps : Bus
after_steps = Runs.history memory_redis steps start

abbrev hook_sub_after : Subscription
hook_sub_after = record hook_sub {
  last_dispatched_event_id = some 1;
  last_dispatched_at = some 500;
  last_acked_event_id = some 1;
}

hook_sub_after_lem : find 2 after_steps.subscriptions ≡ some hook_sub_after
unfolding find emit_event dispatch_subscription_events order_by where_ Option.bind first_where
    event_priority payload_of is_p4_debounced update_row
hook_sub_after_lem = refl

hook_sub_lem : find 2 start.subscriptions ≡ some hook_sub
unfolding find
hook_sub_lem = refl

abbrev event_stored : Event
event_stored = record (event 1) { emitted_at = 9 }

event_stored_lem : Memᴰ event_stored after_steps.events
unfolding emit_event dispatch_subscription_events order_by where_ Option.bind first_where
    event_priority payload_of is_p4_debounced update_row
event_stored_lem = Memᴰ.head (λ i. event_stored)

dispatched_at_least_once_example :
    (dispatched_up_to hook_sub ≤ dispatched_up_to hook_sub_after)
    × DeliveredIn memory_redis steps start 2 event_stored
dispatched_at_least_once_example =
    dispatched_at_least_once memory_redis steps start 2 hook_sub hook_sub_after event_stored
      start-IsSane hook_sub_lem (omega arith) hook_sub_after_lem event_stored_lem refl (omega arith)

history-MeetsConstraints_example : MeetsConstraints after_steps.subscriptions
history-MeetsConstraints_example =
    history-MeetsConstraints memory_redis steps start start-IsSane
      ((inl (refl, refl, refl), (inr (refl, refl, refl), tt)), ((refl, tt), (tt, tt)))

abbrev acks_done : List (Runs.Happening memory_redis)
acks_done = acked_by 1 7 1 ∷ pulled 7 2 none ∷ []

acks_done_lem :
    find 1 (Runs.history memory_redis acks_done start).subscriptions
    ≡ some (record pull_sub { last_acked_event_id = some 2 })
unfolding find ack_subscription advance_ack_watermark update_where
acks_done_lem = refl

pull_acks_forward_example :
    ack_rank pull_sub ≤ ack_rank (record pull_sub { last_acked_event_id = some 2 })
unfolding find
pull_acks_forward_example =
    pull_acks_forward memory_redis acks_done start 1 pull_sub
      (record pull_sub { last_acked_event_id = some 2 }) start-IsSane refl refl acks_done_lem

abbrev tired : Subscription
tired = record hook_sub { consecutive_failures = 9 }

abbrev tired_cycle : Cycle memory_redis
tired_cycle = record {
  bus = record stored { subscriptions = tired ∷ [] };
  redis = no_keys;
  attempts = 0;
  posts = [];
}

abbrev tired_after : Cycle memory_redis
tired_after = record {
  bus = record stored {
    subscriptions =
        record tired { consecutive_failures = 10; paused_until = some (500 + seconds 3600) } ∷ [];
  };
  redis = no_keys;
  attempts = 1;
  posts = (tired.id, batch_of memory_redis 2000000 500 failing tired tired_cycle) ∷ [];
}

tired_batch : is_empty (batch_of memory_redis 2000000 500 failing tired tired_cycle) ≡ false
unfolding fetch_pending_events_for_sub apply_tier_policy where_ order_by first_where event_priority
    is_p4_debounced
tired_batch = refl

tired_answer :
    deliver_webhook (failing 2 (batch_of memory_redis 2000000 500 failing tired tired_cycle))
    ≡ some (false, 503)
unfolding deliver_webhook
tired_answer = refl

tired_run : dispatch_sub memory_redis 2000000 500 failing tired tired_cycle ≡ some tired_after
unfolding dispatch_sub where_ order_by first_where event_priority is_p4_debounced update_row
    update_where
tired_run = refl

breaker_pauses_example :
    (find 2 (fetch_dispatch_due_subs 900 100 tired_after.bus) ≡ none)
    × (s' : Subscription) × (find 2 tired_after.bus.subscriptions ≡ some s')
    × (s'.last_dispatched_event_id ≡ none)
unfolding find
breaker_pauses_example =
    breaker_pauses memory_redis 2000000 500 failing tired tired_cycle tired_after 503 900 100
      (refl, tt) refl (omega arith) tired_batch tired_answer tired_run (omega arith)
