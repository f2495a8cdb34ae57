-- ===== src/Events/Runs/Acknowledged.antt =====
-- The acknowledgements of pull subscriptions.
use mathlib.Core.Option.{some-injective}
use cueapi_core.Prelude.{
  ℕ, ◌≤◌, ◌≡◌, refl, ap, sym, ◌∙◌, Bool, true, false, not, String, Option, none, some, List, [],
  ◌∷◌, ◌==◌, nat_eq, string_eq, is_some, or_else, first_where, find, find-append, find-update_where,
  either_way, Bool-cases, inl, inr, arith,
}
use cueapi_core.Redis.{Redis}
use cueapi_core.Executions.Answer.{Answer}
use cueapi_core.Events.{Event, Subscription, Bus, subscription_keyed, update_subscriptions}
use cueapi_core.Events.Emit.{Emission, emit_event, insert_event, existing_event}
use cueapi_core.Events.Subscribe.{
  SubscriptionCreate, create_subscription, detach_subscription, insert_subscription,
  new_subscription, is_known_event_type, is_target_combo, is_same_subscription, is_attached,
  detached,
}
use cueapi_core.Events.Acks.{
  advance_ack_watermark, ack_subscription, acks_by_id, acks_by_pull, acked, is_behind,
}
use cueapi_core.Events.Dispatch.{
  PostResult, Cycle, dispatch_subscription_events, cleanup_old_events, is_dispatch_due,
  dispatch_rank,
}
use cueapi_core.Events.Dispatch.Cycles.{dispatch-others}
use cueapi_core.Events.Runs
use cueapi_core.Events.Runs.{emitted, cleaned, subscribed, detached_by, acked_by, pulled, cycled}
use cueapi_core.Events.Runs.Keeps.{IsSane, history-IsSane}

-- NULL is below every id.
abbrev pub ack_rank : Subscription → ℕ
ack_rank s = dispatch_rank s.last_acked_event_id

-- A pull subscription after a step, with an acknowledgement that has not gone back.
abbrev Acks : Bus → ℕ → Subscription → Type 0
Acks bus j s =
    (s' : Subscription) × (find j bus.subscriptions ≡ some s')
    × (s'.delivery_target ≡ s.delivery_target)
    × (ack_rank s ≤ ack_rank s')

acked-forward :
    (n : ℕ) (s : Subscription) → is_behind n s ≡ true → ack_rank s ≤ ack_rank (acked n s)
acked-forward n s h = ground arith

update-Acks :
    (p : Subscription → Bool) (f : Subscription → Subscription)
    → ((s : Subscription) → (f s).id ≡ s.id)
    → ((s : Subscription) → (f s).delivery_target ≡ s.delivery_target)
    → ((s : Subscription) → p s ≡ true → ack_rank s ≤ ack_rank (f s))
    → (bus : Bus) (j : ℕ) (s : Subscription) → find j bus.subscriptions ≡ some s
    → Acks (update_subscriptions p f bus) j s
update-Acks p f keeps target forward bus j s row =
    let found = find-update_where p f keeps j bus.subscriptions in
    elim (Bool-cases (p s)) [
      | inl hit ↦ (f s, found ∙ rw row (rw hit refl), target s, forward s hit)
      | inr miss ↦ (s, found ∙ rw row (rw miss refl), refl, omega arith)
    ]

acks_by_id-behind :
    (i agent n : ℕ) (s : Subscription)
    → acks_by_id i agent n s ≡ true
    → ack_rank s ≤ ack_rank (acked n s)
acks_by_id-behind i agent n s h = acked-forward n s (ground arith)

acks_by_pull-behind :
    (agent n : ℕ) (event_type : Option String) (s : Subscription)
    → acks_by_pull agent n event_type s ≡ true
    → ack_rank s ≤ ack_rank (acked n s)
acks_by_pull-behind agent n none s h = acked-forward n s (ground arith)
acks_by_pull-behind agent n (some t) s h = acked-forward n s (ground arith)

add-Acks :
    (now agent : ℕ) (body : SubscriptionCreate) (secret : Option String) (bus : Bus) (j : ℕ)
    (s : Subscription)
    → find j bus.subscriptions ≡ some s
    → Acks (insert_subscription now agent body secret bus).1 j s
add-Acks now agent body secret bus j s row =
    either_way (λ (r : Answer Subscription × Bus). Acks r.1 j s)
      (is_some (first_where (is_same_subscription agent body) bus.subscriptions)) _ _
      (s, row, refl, omega arith)
      (
        s,
        find-append j bus.subscriptions (new_subscription now agent body secret bus ∷ [])
            ∙ rw row refl,
        refl,
        omega arith,
      )

create-Acks :
    (is_safe : String → Bool) (secret : String) (now agent : ℕ) (body : SubscriptionCreate)
    (bus : Bus) (j : ℕ) (s : Subscription)
    → find j bus.subscriptions ≡ some s
    → Acks (create_subscription is_safe secret now agent body bus).1 j s
unfolding create_subscription
create-Acks is_safe secret now agent body bus j s row =
    let Kept = λ (r : Answer Subscription × Bus). Acks r.1 j s in
    let stays : Acks bus j s = (s, row, refl, omega arith) in
    either_way Kept (not (is_known_event_type body.event_type)) _ _ stays (
      either_way Kept (not (is_target_combo body.delivery_target body.webhook_url)) _ _ stays (
        either_way Kept (not (body.delivery_target == "webhook")) _ _
          (add-Acks now agent body none bus j s row)
          (either_way Kept (is_safe (or_else body.webhook_url "")) _ _
            (add-Acks now agent body (some secret) bus j s row) stays)))

insert_event-Acks :
    (size : String → ℕ) (now : ℕ) (e : Emission) (bus : Bus) (o : Option Event) (j : ℕ)
    (s : Subscription)
    → find j bus.subscriptions ≡ some s
    → Acks (insert_event size now e bus o).1 j s
unfolding insert_event
insert_event-Acks size now e bus none j s row = (s, row, refl, omega arith)
insert_event-Acks size now e bus (some r) j s row = (s, row, refl, omega arith)

pull-idle :
    (now : ℕ) (s : Subscription) → s.delivery_target ≡ "pull" → is_dispatch_due now s ≡ false
pull-idle now s pull = rw pull refl

module _ (R : Redis) where
  cycle-Acks :
      (window now : ℕ) (post : ℕ → List Event → PostResult) (batch_size : ℕ) (st : Redis.State R)
      (bus : Bus) (o : Option (Cycle R)) (j : ℕ) (s : Subscription)
      → IsSane bus
      → find j bus.subscriptions ≡ some s
      → s.delivery_target ≡ "pull"
      → dispatch_subscription_events R window now post batch_size bus st ≡ o
      → Acks (Runs.bus_of R bus o) j s
  cycle-Acks window now post batch_size st bus none j s sane row pull run =
      (s, row, refl, omega arith)
  cycle-Acks window now post batch_size st bus (some c) j s sane row pull run = (
    s,
    dispatch-others R window now post batch_size j s bus st c sane.log sane.keyed row
        (pull-idle now s pull) run,
    refl,
    omega arith,
  )

  happen-Acks :
      (h : Runs.Happening R) (bus : Bus) (j : ℕ) (s : Subscription)
      → IsSane bus
      → find j bus.subscriptions ≡ some s
      → s.delivery_target ≡ "pull"
      → Acks (Runs.happen R h bus) j s
  unfolding emit_event cleanup_old_events detach_subscription ack_subscription advance_ack_watermark
  happen-Acks (emitted (size, now, e)) bus j s sane row pull =
      insert_event-Acks size now e bus (existing_event e.event_type e.idempotency_key bus) j s row
  happen-Acks (cleaned now retention_days) bus j s sane row pull = (s, row, refl, omega arith)
  happen-Acks (subscribed is_safe secret now agent body) bus j s sane row pull =
      create-Acks is_safe secret now agent body bus j s row
  happen-Acks (detached_by now i agent) bus j s sane row pull =
      update-Acks (is_attached i agent) (detached now) (λ x. refl) (λ x. refl) (λ x h. omega arith)
        bus j s row
  happen-Acks (acked_by i agent n) bus j s sane row pull =
      update-Acks (acks_by_id i agent n) (acked n) (λ x. refl) (λ x. refl)
        (acks_by_id-behind i agent n) bus j s row
  happen-Acks (pulled agent n event_type) bus j s sane row pull =
      update-Acks (acks_by_pull agent n event_type) (acked n) (λ x. refl) (λ x. refl)
        (acks_by_pull-behind agent n event_type) bus j s row
  happen-Acks (cycled window now post batch_size st) bus j s sane row pull =
      cycle-Acks window now post batch_size st bus
        (dispatch_subscription_events R window now post batch_size bus st) j s sane row pull refl

  history-Acks :
      (hs : List (Runs.Happening R)) (bus : Bus) (j : ℕ) (s : Subscription)
      → IsSane bus
      → find j bus.subscriptions ≡ some s
      → s.delivery_target ≡ "pull"
      → Acks (Runs.history R hs bus) j s
  history-Acks [] bus j s sane row pull = (s, row, refl, omega arith)
  history-Acks (h ∷ hs) bus j s sane row pull =
      let (t, row_t, target, forward) = history-Acks hs bus j s sane row pull in
      let (t', row', target', forward') =
        happen-Acks h (Runs.history R hs bus) j t (history-IsSane R hs bus sane) row_t
          (target ∙ pull) in
      (t', row', target' ∙ target, omega arith)

  -- In no history does the acknowledged event of a pull subscription go back: whatever is pulled, acknowledged,
  -- emitted, cleaned up or delivered, the acknowledgement stays or moves forward. At first the keys are unique
  -- and ahead of the tables.
  pub pull_acks_forward :
      (hs : List (Runs.Happening R)) (bus : Bus) (j : ℕ) (s s' : Subscription)
      → IsSane bus
      → find j bus.subscriptions ≡ some s
      → s.delivery_target ≡ "pull"
      → find j (Runs.history R hs bus).subscriptions ≡ some s'
      → ack_rank s ≤ ack_rank s'
  pull_acks_forward hs bus j s s' sane row pull row' =
      let (t, row_t, target, forward) = history-Acks hs bus j s sane row pull in
      let same : t ≡ s' = some-injective t s' (sym row_t ∙ row') in
      let rank = ap ack_rank same in omega arith
