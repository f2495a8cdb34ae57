-- ===== src/Events/Routes.antt =====
-- The routes of routers/events.py for subscriptions, and the responses. `parse` stands for urlparse: the scheme
-- and the host, or none for an exception.
use Prim.Native.String.{◌++◌ as text_append}
use mathlib.Core.List.{map}
use cueapi_core.Prelude.{
  ℕ, Bool, true, false, ◌||◌, String, Option, none, some, List, ◌==◌, string_eq, if◌then◌else◌,
}
use cueapi_core.Store.{Db}
use cueapi_core.Executions.Answer.{Answer, refused, answered}
use cueapi_core.Messages.Address.{Addr, get_agent_owned}
use cueapi_core.Events.{Subscription, Bus}
use cueapi_core.Events.Subscribe.{
  SubscriptionCreate, create_subscription, list_subscriptions, detach_subscription,
}

-- SubscriptionResponse: the times are written in ISO format.
pub record SubscriptionResponse : Type 0 where
  pub id : ℕ
  pub subscriber_agent_id : ℕ
  pub event_type : String
  pub delivery_target : String
  pub webhook_url : Option String
  pub webhook_secret : Option String
  pub inline_body : Bool
  pub last_dispatched_event_id : Option ℕ
  pub last_dispatched_at : Option ℕ
  pub last_acked_event_id : Option ℕ
  pub consecutive_failures : ℕ
  pub paused_until : Option ℕ
  pub created_at : ℕ
  pub detached_at : Option ℕ

abbrev pub scheme_and_host : Option (String × String) → Option String
scheme_and_host none = none
scheme_and_host (some (scheme, host)) =
    if scheme == "" || host == "" then none else some (text_append (text_append scheme "://") host)

unfoldable pub redact_webhook_url :
    (String → Option (String × String)) → Option String → Option String
redact_webhook_url parse none = none
redact_webhook_url parse (some url) = if url == "" then none else scheme_and_host (parse url)

unfoldable pub subscription_to_response :
    (String → Option (String × String)) → Bool → Subscription → SubscriptionResponse
unfolding redact_webhook_url
subscription_to_response parse include_secret s = record {
  id = s.id;
  subscriber_agent_id = s.subscriber_agent_id;
  event_type = s.event_type;
  delivery_target = s.delivery_target;
  webhook_url = redact_webhook_url parse s.webhook_url;
  webhook_secret = if include_secret then s.webhook_secret else none;
  inline_body = s.inline_body;
  last_dispatched_event_id = s.last_dispatched_event_id;
  last_dispatched_at = s.last_dispatched_at;
  last_acked_event_id = s.last_acked_event_id;
  consecutive_failures = s.consecutive_failures;
  paused_until = s.paused_until;
  created_at = s.created_at;
  detached_at = s.detached_at;
}

-- The endpoints resolve the agent first; an answer of 4xx leaves the tables alone.
abbrev pub for_agent {ℓ} :
    {A : Type ℓ} → ℕ → Addr → Db → (ℕ → Answer A × Bus) → Bus → Answer A × Bus
for_agent user ref db handle bus = elim (get_agent_owned user ref false db) [
  | refused status code ↦ (refused status code, bus)
  | answered agent ↦ handle agent.id
]

abbrev pub respond {ℓ κ} : {A : Type ℓ} {B : Type κ} → (A → B) → Answer A × Bus → Answer B × Bus
respond f (refused status code, bus) = (refused status code, bus)
respond f (answered a, bus) = (answered (f a), bus)

-- The secret is in this response and in no other.
unfoldable pub create_subscription_endpoint :
    (String → Option (String × String))
    → (String → Bool)
    → String
    → ℕ
    → ℕ
    → Addr
    → SubscriptionCreate
    → Db
    → Bus
    → Answer SubscriptionResponse × Bus
unfolding create_subscription subscription_to_response
create_subscription_endpoint parse is_safe secret now user ref body db bus =
    for_agent user ref db
      (λ agent.
        respond (subscription_to_response parse true)
          (create_subscription is_safe secret now agent body bus))
      bus

unfoldable pub list_subscriptions_endpoint :
    (String → Option (String × String))
    → ℕ
    → Addr
    → Db
    → Bus
    → Answer (List SubscriptionResponse) × Bus
unfolding list_subscriptions subscription_to_response
list_subscriptions_endpoint parse user ref db bus =
    for_agent user ref db
      (λ agent.
        (answered (map (subscription_to_response parse false) (list_subscriptions agent bus)), bus))
      bus

-- The answer is {"detached": True} in any case.
unfoldable pub delete_subscription_endpoint : ℕ → ℕ → Addr → ℕ → Db → Bus → Answer Bool × Bus
unfolding detach_subscription
delete_subscription_endpoint now user ref i db bus =
    for_agent user ref db (λ agent. (answered true, (detach_subscription now i agent bus).1)) bus
