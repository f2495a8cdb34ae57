-- ===== src/Events/Subscribe.antt =====
-- create, list and detach of services/events_service.py. `is_safe` stands for validate_callback_url, `secret` for the
-- fresh webhook secret.
use cueapi_core.Prelude.{
  ℕ, ◌+◌, Bool, false, not, ◌&&◌, ◌||◌, String, Option, none, some, List, [], ◌∷◌, ◌++◌, ◌==◌,
  nat_eq, string_eq, is_null, is_some, if◌then◌else◌, or_else, first_where, where_, order_by,
}
use cueapi_core.Store.{truthy}
use cueapi_core.Executions.Answer.{Answer, refused, answered}
use cueapi_core.Events.{Subscription, Bus, update_subscriptions, is_active_of}

abbrev pub is_known_event_type : String → Bool
is_known_event_type t = t == "message.delivered" || t == "message.digest" || t == "turn.pass"

-- _validate_delivery_target_combo passes.
abbrev pub is_target_combo : String → Option String → Bool
is_target_combo target url =
    if target == "pull" then is_null url else if target == "webhook" then truthy url else false

-- The body of the request.
pub record SubscriptionCreate : Type 0 where
  pub event_type : String
  pub delivery_target : String
  pub webhook_url : Option String
  pub inline_body : Bool

-- ux_subscriptions_active_unique
abbrev pub is_same_subscription : ℕ → SubscriptionCreate → Subscription → Bool
is_same_subscription agent body s =
    is_active_of agent s
    && s.event_type == body.event_type
    && s.delivery_target == body.delivery_target

abbrev pub new_subscription : ℕ → ℕ → SubscriptionCreate → Option String → Bus → Subscription
new_subscription now agent body secret bus = record {
  id = bus.next_subscription_id;
  subscriber_agent_id = agent;
  event_type = body.event_type;
  delivery_target = body.delivery_target;
  webhook_url = body.webhook_url;
  webhook_secret = secret;
  inline_body = body.inline_body;
  last_dispatched_event_id = none;
  last_dispatched_at = none;
  last_acked_event_id = none;
  consecutive_failures = 0;
  paused_until = none;
  created_at = now;
  detached_at = none;
}

abbrev pub add_subscription : Subscription → Bus → Bus
add_subscription s bus = record bus {
  subscriptions = bus.subscriptions ++ s ∷ [];
  next_subscription_id = bus.next_subscription_id + 1;
}

-- An insertion that violates the index raises IntegrityError, which nothing catches.
abbrev pub insert_subscription :
    ℕ → ℕ → SubscriptionCreate → Option String → Bus → Answer Subscription × Bus
insert_subscription now agent body secret bus =
    if is_some (first_where (is_same_subscription agent body) bus.subscriptions)
    then (refused 500 "internal_error", bus)
    else (
      answered (new_subscription now agent body secret bus),
      add_subscription (new_subscription now agent body secret bus) bus,
    )

unfoldable pub create_subscription :
    (String → Bool) → String → ℕ → ℕ → SubscriptionCreate → Bus → Answer Subscription × Bus
create_subscription is_safe secret now agent body bus =
    if not (is_known_event_type body.event_type)
    then (refused 400 "unknown_event_type", bus)
    else if not (is_target_combo body.delivery_target body.webhook_url)
    then (refused 400 "invalid_delivery_target", bus)
    else if not (body.delivery_target == "webhook")
    then insert_subscription now agent body none bus
    else if is_safe (or_else body.webhook_url "")
    then insert_subscription now agent body (some secret) bus
    else (refused 400 "invalid_webhook_url", bus)

unfoldable pub list_subscriptions : ℕ → Bus → List Subscription
list_subscriptions agent bus =
    order_by (λ s. s.created_at) (where_ (is_active_of agent) bus.subscriptions)

abbrev pub is_attached : ℕ → ℕ → Subscription → Bool
is_attached i agent s = s.id == i && is_active_of agent s

abbrev pub detached : ℕ → Subscription → Subscription
detached now s = record s { detached_at = some now }

unfoldable pub detach_subscription : ℕ → ℕ → ℕ → Bus → Bool × Bus
detach_subscription now i agent bus = (
  is_some (first_where (is_attached i agent) bus.subscriptions),
  update_subscriptions (is_attached i agent) (detached now) bus,
)
