-- ===== src/Events/Dispatch/Advance.antt =====
-- How a cycle may move a subscription.
use mathlib.Core.List.{Memᴰ}
use cueapi_core.Prelude.{
  ℕ, ◌<◌, ◌≤◌, ◌≡◌, ap, Bool, true, false, none, some, List, nat_eq, string_eq, is_null, or_else,
  arith,
}
use cueapi_core.Events.{Event, Subscription, subscription_keyed}
use cueapi_core.Events.Dispatch.{
  PostResult, deliver_webhook, dispatched_up_to, is_pending, classify_dispatch_response,
  is_delivered,
}

-- Whether the receiver took the batch: a status of 2xx.
unfoldable pub accepted : PostResult → Bool
accepted p = elim (deliver_webhook p) [ none ↦ false | some (ok, status) ↦ ok ]

-- One of the batches that were POSTed for a subscription has the event, and the receiver took it.
abbrev pub Delivered : (ℕ → List Event → PostResult) → List (ℕ × List Event) → ℕ → Event → Type 0
Delivered post posts i e =
    (batch : List Event) × Memᴰ (i, batch) posts × Memᴰ e batch × (accepted (post i batch) ≡ true)

-- A row whose owner, subject and target have not changed, and that has at most been detached.
abbrev pub SameTerms : Subscription → Subscription → Type 0
SameTerms s' s =
    (s'.subscriber_agent_id ≡ s.subscriber_agent_id)
    × (s'.event_type ≡ s.event_type)
    × (s'.delivery_target ≡ s.delivery_target)
    × (s'.webhook_url ≡ s.webhook_url)
    × (s'.webhook_secret ≡ s.webhook_secret)
    × (is_null s.detached_at ≡ false → is_null s'.detached_at ≡ false)

-- How a cycle may move a subscription: its watermark does not go back, and each pending event up to the
-- new one has been delivered.
pub record Advance (post : ℕ → List Event → PostResult) (posts : List (ℕ × List Event))
    (events : List Event) (next : ℕ) (s s' : Subscription) : Type 0 where
  pub same_id : s'.id ≡ s.id
  pub same_agent : s'.subscriber_agent_id ≡ s.subscriber_agent_id
  pub same_type : s'.event_type ≡ s.event_type
  pub forward : dispatched_up_to s ≤ dispatched_up_to s'
  pub delivered :
      (e : Event)
      → Memᴰ e events
      → is_pending s e ≡ true
      → e.id ≤ dispatched_up_to s'
      → Delivered post posts s.id e
  pub below : dispatched_up_to s < next → dispatched_up_to s' < next

pub pending_above :
    (s : Subscription) (e : Event) → is_pending s e ≡ true → dispatched_up_to s < e.id
pending_above s e h = ground arith

pub Advance-still :
    (post : ℕ → List Event → PostResult) (posts : List (ℕ × List Event)) (events : List Event)
    (next : ℕ) (s s' : Subscription)
    → s'.id ≡ s.id
    → s'.subscriber_agent_id ≡ s.subscriber_agent_id
    → s'.event_type ≡ s.event_type
    → s'.last_dispatched_event_id ≡ s.last_dispatched_event_id
    → Advance post posts events next s s'
Advance-still post posts events next s s' same_id same_agent same_type same =
    let up_to = ap (λ o. or_else o 0) same in
    record {
      same_id = same_id;
      same_agent = same_agent;
      same_type = same_type;
      forward = omega arith;
      delivered = λ e m pending le. absurd (let above = pending_above s e pending in omega arith);
      below = λ h. omega arith;
    }

pub Advance-more :
    (post : ℕ → List Event → PostResult) (posts more : List (ℕ × List Event)) (events : List Event)
    (next : ℕ) (s s' : Subscription)
    → ((x : ℕ × List Event) → Memᴰ x posts → Memᴰ x more)
    → Advance post posts events next s s'
    → Advance post more events next s s'
Advance-more post posts more events next s s' grows a = record {
  same_id = a.same_id;
  same_agent = a.same_agent;
  same_type = a.same_type;
  forward = a.forward;
  delivered = λ e m pending le.
      let (batch, sent, there, took) = a.delivered e m pending le in
      (batch, grows (s.id, batch) sent, there, took);
  below = a.below;
}

pub not_delivered : (status : ℕ) → is_delivered (classify_dispatch_response false status) ≡ false
unfolding classify_dispatch_response
not_delivered status = ground arith
