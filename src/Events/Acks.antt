-- ===== src/Events/Acks.antt =====
-- The watermark of acknowledgements: advance_ack_watermark and ack_subscription of
-- services/events_service.py, and the endpoints of routers/events.py that call them.
use cueapi_core.Prelude.{
  ℕ, Bool, true, ◌&&◌, ◌||◌, String, Option, none, some, List, ◌==◌, nat_eq, string_eq, is_null,
  is_some, col_lt, count_where, first_where, if◌then◌else◌,
}
use cueapi_core.Store.{Db}
use cueapi_core.Executions.Answer.{Answer, answered}
use cueapi_core.Messages.Address.{Addr}
use cueapi_core.Events.{Subscription, Bus, update_subscriptions, is_active_of}
use cueapi_core.Events.Pull.{Page, pull_or_wait}
use cueapi_core.Events.Subscribe.{is_attached}
use cueapi_core.Events.Routes.{for_agent}

-- WHERE last_acked_event_id IS NULL OR last_acked_event_id < n
abbrev pub is_behind : ℕ → Subscription → Bool
is_behind n s = is_null s.last_acked_event_id || col_lt s.last_acked_event_id n

abbrev pub of_type : Option String → Subscription → Bool
of_type none s = true
of_type (some t) s = s.event_type == t

abbrev pub acked : ℕ → Subscription → Subscription
acked n s = record s { last_acked_event_id = some n }

abbrev pub acks_by_pull : ℕ → ℕ → Option String → Subscription → Bool
acks_by_pull recipient n event_type s =
    is_active_of recipient s && s.delivery_target == "pull" && is_behind n s && of_type event_type s

unfoldable pub advance_ack_watermark : ℕ → ℕ → Option String → Bus → ℕ × Bus
advance_ack_watermark recipient n event_type bus = (
  count_where (acks_by_pull recipient n event_type) bus.subscriptions,
  update_subscriptions (acks_by_pull recipient n event_type) (acked n) bus,
)

abbrev pub acks_by_id : ℕ → ℕ → ℕ → Subscription → Bool
acks_by_id i agent n s = is_attached i agent s && is_behind n s

unfoldable pub ack_subscription : ℕ → ℕ → ℕ → Bus → Bool × Bus
ack_subscription i agent n bus = (
  is_some (first_where (acks_by_id i agent n) bus.subscriptions),
  update_subscriptions (acks_by_id i agent n) (acked n) bus,
)

-- `written` says whether the statement and the commit go through; a failure is rolled back.
unfoldable pub advance_ack_after_pull : Bool → ℕ → Option ℕ → Option String → Bus → Bus
advance_ack_after_pull written agent none event_type bus = bus
advance_ack_after_pull written agent (some n) event_type bus =
    if written then (advance_ack_watermark agent n event_type bus).1 else bus

unfoldable pub pull_events_endpoint :
    Bool → Bool → ℕ → Addr → ℕ → ℕ → Option String → Db → Bus → List Bus → Answer Page × Bus
unfolding advance_ack_after_pull advance_ack_watermark
pull_events_endpoint written long user ref since limit event_type db bus later =
    for_agent user ref db
      (λ agent.
        let (page, seen) = pull_or_wait long agent since limit event_type bus later in
        (answered page, advance_ack_after_pull written agent page.next_cursor event_type seen))
      bus

-- The answer is {"acked": True} in any case.
unfoldable pub ack_subscription_endpoint : ℕ → Addr → ℕ → ℕ → Db → Bus → Answer Bool × Bus
unfolding ack_subscription
ack_subscription_endpoint user ref i n db bus =
    for_agent user ref db (λ agent. (answered true, (ack_subscription i agent n bus).1)) bus
