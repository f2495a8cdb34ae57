-- ===== src/Events/Runs/Keeps.antt =====
-- What every history keeps: a log of events, and subscriptions with unique keys.
use cueapi_core.Prelude.{
  ℕ, ◌+◌, ◌≤◌, ◌≡◌, refl, ap, sym, subst, ◌∙◌, Bool, not, String, Option, none, some, List, [], ◌∷◌,
  ◌++◌, ◌==◌, nat_eq, string_eq, or_else, is_some, find, find-append, first_where,
  find-update_where, update_where-IsKeyed, append-IsKeyed, IsKeyed, either_way, arith,
}
use cueapi_core.Redis.{Redis}
use cueapi_core.Executions.Answer.{Answer}
use cueapi_core.Events.{Event, Subscription, Bus, subscription_keyed, update_subscriptions}
use cueapi_core.Events.Emit.{Emission, emit_event, insert_event, existing_event}
use cueapi_core.Events.Pull.Log.{IsLog, emit_event-IsLog, cleanup_old_events-IsLog}
use cueapi_core.Events.Subscribe.{
  SubscriptionCreate, create_subscription, detach_subscription, insert_subscription,
  new_subscription, is_known_event_type, is_target_combo, is_same_subscription, is_attached,
  detached,
}
use cueapi_core.Events.Acks.{
  advance_ack_watermark, ack_subscription, acks_by_id, acks_by_pull, acked,
}
use cueapi_core.Events.Dispatch.{Cycle, dispatch_subscription_events, cleanup_old_events}
use cueapi_core.Events.Dispatch.Cycles.{dispatch-frame}
use cueapi_core.Events.Runs
use cueapi_core.Events.Runs.{emitted, cleaned, subscribed, detached_by, acked_by, pulled, cycled}

-- The keys from the sequence on are free.
abbrev pub IsFree : Bus → Type 0
IsFree bus = (i : ℕ) → bus.next_subscription_id ≤ i → find i bus.subscriptions ≡ none

pub record IsSane (bus : Bus) : Type 0 where
  pub log : IsLog bus
  pub keyed : IsKeyed bus.subscriptions
  pub free : IsFree bus

insert_event-same :
    (size : String → ℕ) (now : ℕ) (e : Emission) (bus : Bus) (o : Option Event)
    → ((insert_event size now e bus o).1.subscriptions ≡ bus.subscriptions)
      × ((insert_event size now e bus o).1.next_subscription_id ≡ bus.next_subscription_id)
unfolding insert_event
insert_event-same size now e bus none = (refl, refl)
insert_event-same size now e bus (some r) = (refl, refl)

emit_event-IsSane :
    (size : String → ℕ) (now : ℕ) (e : Emission) (bus : Bus)
    → IsSane bus
    → IsSane (emit_event size now e bus).1
unfolding emit_event
emit_event-IsSane size now e bus h =
    let (subs, next) =
      insert_event-same size now e bus (existing_event e.event_type e.idempotency_key bus) in
    record {
      log = emit_event-IsLog size now e bus h.log;
      keyed = subst (λ t. IsKeyed t) (sym subs) h.keyed;
      free = λ i le. ap (λ t. find i t) subs ∙ h.free i (omega arith);
    }

update_subscriptions-IsSane :
    (p : Subscription → Bool) (f : Subscription → Subscription)
    → ((s : Subscription) → (f s).id ≡ s.id)
    → (bus : Bus) → IsSane bus
    → IsSane (update_subscriptions p f bus)
update_subscriptions-IsSane p f keeps bus h = record {
  log = h.log;
  keyed = update_where-IsKeyed p f keeps bus.subscriptions h.keyed;
  free = λ i le. find-update_where p f keeps i bus.subscriptions ∙ rw (h.free i le) refl;
}

add-IsFree :
    (s : Subscription) (n i : ℕ) (t : List Subscription)
    → s.id ≡ n
    → find i t ≡ none
    → n + 1 ≤ i
    → find i (t ++ s ∷ []) ≡ none
unfolding find
add-IsFree s n i t same missing le = ground (arith, find-append i t (s ∷ []))

insert_subscription-IsSane :
    (now agent : ℕ) (body : SubscriptionCreate) (secret : Option String) (bus : Bus)
    → IsSane bus
    → IsSane (insert_subscription now agent body secret bus).1
insert_subscription-IsSane now agent body secret bus h =
    either_way (λ (r : Answer Subscription × Bus). IsSane r.1)
      (is_some (first_where (is_same_subscription agent body) bus.subscriptions)) _ _ h
      (record {
        log = h.log;
        keyed =
            append-IsKeyed bus.subscriptions (new_subscription now agent body secret bus) h.keyed
              (h.free bus.next_subscription_id (omega arith));
        free = λ i le.
            add-IsFree (new_subscription now agent body secret bus) bus.next_subscription_id i
              bus.subscriptions refl (h.free i (omega arith)) le;
      })

create_subscription-IsSane :
    (is_safe : String → Bool) (secret : String) (now agent : ℕ) (body : SubscriptionCreate)
    (bus : Bus)
    → IsSane bus
    → IsSane (create_subscription is_safe secret now agent body bus).1
unfolding create_subscription
create_subscription-IsSane is_safe secret now agent body bus h =
    let Keeps = λ (r : Answer Subscription × Bus). IsSane r.1 in
    either_way Keeps (not (is_known_event_type body.event_type)) _ _ h (
      either_way Keeps (not (is_target_combo body.delivery_target body.webhook_url)) _ _ h (
        either_way Keeps (not (body.delivery_target == "webhook")) _ _
          (insert_subscription-IsSane now agent body none bus h)
          (either_way Keeps (is_safe (or_else body.webhook_url "")) _ _
            (insert_subscription-IsSane now agent body (some secret) bus h) h)))

module _ (R : Redis) where
  dispatch-IsSane :
      (bus : Bus) (o : Option (Cycle R))
      → IsSane bus
      → ((c : Cycle R)
          → o ≡ some c
          → (c.bus ≡ record bus { subscriptions = c.bus.subscriptions })
            × IsKeyed c.bus.subscriptions
            × ((j : ℕ) → find j bus.subscriptions ≡ none → find j c.bus.subscriptions ≡ none))
      → IsSane (Runs.bus_of R bus o)
  dispatch-IsSane bus none h frame = h
  dispatch-IsSane bus (some c) h frame =
      let (tables, keyed, missing) = frame c refl in
      record {
        log = subst IsLog (sym tables) h.log;
        keyed = keyed;
        free = λ i le.
            missing i (h.free i (subst (λ (b : Bus). b.next_subscription_id ≤ i) tables le));
      }

  pub happen-IsSane :
      (happening : Runs.Happening R) (bus : Bus) → IsSane bus → IsSane (Runs.happen R happening bus)
  unfolding cleanup_old_events detach_subscription ack_subscription advance_ack_watermark
  happen-IsSane (emitted (size, now, e)) bus h = emit_event-IsSane size now e bus h
  happen-IsSane (cleaned now retention_days) bus h = record {
    log = cleanup_old_events-IsLog now retention_days bus h.log;
    keyed = h.keyed;
    free = h.free;
  }
  happen-IsSane (subscribed is_safe secret now agent body) bus h =
      create_subscription-IsSane is_safe secret now agent body bus h
  happen-IsSane (detached_by now i agent) bus h =
      update_subscriptions-IsSane (is_attached i agent) (detached now) (λ s. refl) bus h
  happen-IsSane (acked_by i agent n) bus h =
      update_subscriptions-IsSane (acks_by_id i agent n) (acked n) (λ s. refl) bus h
  happen-IsSane (pulled agent n event_type) bus h =
      update_subscriptions-IsSane (acks_by_pull agent n event_type) (acked n) (λ s. refl) bus h
  happen-IsSane (cycled window now post batch_size s) bus h =
      dispatch-IsSane bus (dispatch_subscription_events R window now post batch_size bus s) h
        (λ c run. dispatch-frame R window now post batch_size bus s c h.log h.keyed run)

  pub history-IsSane :
      (hs : List (Runs.Happening R)) (bus : Bus) → IsSane bus → IsSane (Runs.history R hs bus)
  history-IsSane [] bus h = h
  history-IsSane (x ∷ hs) bus h = happen-IsSane x (Runs.history R hs bus) (history-IsSane hs bus h)
