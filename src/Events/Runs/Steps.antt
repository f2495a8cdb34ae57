-- ===== src/Events/Runs/Steps.antt =====
-- What one step of a history does for a subscription.
use mathlib.Core.List.{Memᴰ}
use cueapi_core.Prelude.{
  sym, ℕ, ◌-◌, ◌<◌, ◌≤◌, ◌≡◌, refl, ap, subst, ◌∙◌, ◌⊎◌, Bool, true, not, String, Option, none,
  some, List, [], ◌∷◌, ◌++◌, ◌==◌, nat_eq, string_eq, leb, if◌then◌else◌, or_else, is_some, find,
  find-append, first_where, find-update_where, either_way, inl, inr, arith,
}
use cueapi_core.Redis.{Redis}
use cueapi_core.Store.{days}
use cueapi_core.Executions.Answer.{Answer}
use cueapi_core.Events.{Event, Subscription, Bus, subscription_keyed, update_subscriptions}
use cueapi_core.Events.Emit.{Emission, emit_event, insert_event, existing_event, new_event}
use cueapi_core.Events.Subscribe.{
  SubscriptionCreate, create_subscription, detach_subscription, insert_subscription,
  new_subscription, is_known_event_type, is_target_combo, is_same_subscription, is_attached,
  detached,
}
use cueapi_core.Events.Acks.{
  advance_ack_watermark, ack_subscription, acks_by_id, acks_by_pull, acked,
}
use cueapi_core.Events.Dispatch.{
  PostResult, Cycle, dispatch_subscription_events, cleanup_old_events, dispatched_up_to, is_pending,
}
use cueapi_core.Events.Dispatch.Watermark.{where_-Mem}
use cueapi_core.Events.Dispatch.Advance.{Delivered, pending_above}
use cueapi_core.Events.Dispatch.Cycles.{dispatch-Advance, dispatch-frame}
use cueapi_core.Events.Runs
use cueapi_core.Events.Runs.{emitted, cleaned, subscribed, detached_by, acked_by, pulled, cycled}
use cueapi_core.Events.Runs.Keeps.{IsSane}

module _ (R : Redis) where
  -- The step has POSTed a batch with the event, and the receiver of the subscription took it.
  abbrev pub DeliveredBy : Runs.Happening R → Bus → ℕ → Event → Type 0
  DeliveredBy (emitted call) bus j e = ⊥
  DeliveredBy (cleaned now retention_days) bus j e = ⊥
  DeliveredBy (subscribed is_safe secret now agent body) bus j e = ⊥
  DeliveredBy (detached_by now i agent) bus j e = ⊥
  DeliveredBy (acked_by i agent n) bus j e = ⊥
  DeliveredBy (pulled agent n event_type) bus j e = ⊥
  DeliveredBy (cycled window now post batch_size s) bus j e =
      Delivered post
        (Runs.posts_of R (dispatch_subscription_events R window now post batch_size bus s)) j e

  abbrev pub DeliveredIn : List (Runs.Happening R) → Bus → ℕ → Event → Type 0
  DeliveredIn [] bus j e = ⊥
  DeliveredIn (h ∷ hs) bus j e = DeliveredBy h (Runs.history R hs bus) j e ⊎ DeliveredIn hs bus j e

  -- What one step does for a subscription.
  pub record Moved (h : Runs.Happening R) (bus bus' : Bus) (s s' : Subscription) : Type 0 where
    pub same_id : s'.id ≡ s.id
    pub same_agent : s'.subscriber_agent_id ≡ s.subscriber_agent_id
    pub same_type : s'.event_type ≡ s.event_type
    pub forward : dispatched_up_to s ≤ dispatched_up_to s'
    pub below : dispatched_up_to s < bus.next_event_id → dispatched_up_to s' < bus'.next_event_id
    pub old : (e : Event) → Memᴰ e bus'.events → Memᴰ e bus.events ⊎ (bus.next_event_id ≤ e.id)
    pub covered :
        (e : Event)
        → Memᴰ e bus'.events
        → is_pending s e ≡ true
        → e.id ≤ dispatched_up_to s'
        → DeliveredBy h bus s.id e

  -- A step that leaves the watermark alone.
  quiet :
      (h : Runs.Happening R) (bus bus' : Bus) (s s' : Subscription)
      → s'.id ≡ s.id
      → s'.subscriber_agent_id ≡ s.subscriber_agent_id
      → s'.event_type ≡ s.event_type
      → s'.last_dispatched_event_id ≡ s.last_dispatched_event_id
      → bus.next_event_id ≤ bus'.next_event_id
      → ((e : Event) → Memᴰ e bus'.events → Memᴰ e bus.events ⊎ (bus.next_event_id ≤ e.id))
      → Moved h bus bus' s s'
  quiet h bus bus' s s' same_id same_agent same_type same grows old =
      let up_to = ap (λ o. or_else o 0) same in
      record {
        same_id = same_id;
        same_agent = same_agent;
        same_type = same_type;
        forward = omega arith;
        below = λ lt. omega arith;
        old = old;
        covered = λ e m pending le. absurd (let above = pending_above s e pending in omega arith);
      }

  -- The row of a subscription after a step.
  abbrev pub Steps : Runs.Happening R → Bus → Bus → ℕ → Subscription → Type 0
  Steps h bus bus' j s =
      (s' : Subscription) × (find j bus'.subscriptions ≡ some s') × Moved h bus bus' s s'

  append-Mem :
      (e x : Event) (es : List Event) (n : ℕ)
      → x.id ≡ n
      → Memᴰ e (es ++ x ∷ [])
      → Memᴰ e es ⊎ (n ≤ e.id)
  append-Mem e x [] n same (Memᴰ.head is) = inr (let i = ap (λ (g : Event). g.id) is in omega arith)
  append-Mem e x [] n same (Memᴰ.tail m) = elim m [ ]
  append-Mem e x (y ∷ es) n same (Memᴰ.head is) = inl (Memᴰ.head is)
  append-Mem e x (y ∷ es) n same (Memᴰ.tail m) = elim (append-Mem e x es n same m) [
    | inl there ↦ inl (Memᴰ.tail there)
    | inr late ↦ inr late
  ]

  insert_event-Steps :
      (h : Runs.Happening R) (size : String → ℕ) (now : ℕ) (e : Emission) (bus : Bus)
      (o : Option Event) (j : ℕ) (s : Subscription)
      → find j bus.subscriptions ≡ some s
      → Steps h bus (insert_event size now e bus o).1 j s
  unfolding insert_event
  insert_event-Steps h size now e bus (some r) j s row =
      (s, row, quiet h bus bus s s refl refl refl refl (omega arith) (λ x m. inl m))
  insert_event-Steps h size now e bus none j s row = (
    s,
    row,
    quiet h bus (insert_event size now e bus none).1 s s refl refl refl refl (omega arith)
        (λ x m. append-Mem x (new_event size now e bus) bus.events bus.next_event_id refl m),
  )

  update-Steps :
      (h : Runs.Happening R) (p : Subscription → Bool) (f : Subscription → Subscription)
      → ((s : Subscription)
          → ((f s).id ≡ s.id)
            × ((f s).subscriber_agent_id ≡ s.subscriber_agent_id)
            × ((f s).event_type ≡ s.event_type)
            × ((f s).last_dispatched_event_id ≡ s.last_dispatched_event_id))
      → (bus : Bus) (j : ℕ) (s : Subscription) → find j bus.subscriptions ≡ some s
      → Steps h bus (update_subscriptions p f bus) j s
  update-Steps h p f same bus j s row =
      let (i, a, t, d) = same s in
      let s' = if p s then f s else s in
      let row' : find j (update_subscriptions p f bus).subscriptions ≡ some s' =
        find-update_where p f (λ x. (same x).0) j bus.subscriptions ∙ rw row refl in
      let still = λ (x : Subscription). quiet h bus (update_subscriptions p f bus) s x in
      (
        s',
        row',
        either_way (Moved h bus (update_subscriptions p f bus) s) (p s) (f s) s
            (still (f s) i a t d (omega arith) (λ x m. inl m))
            (still s refl refl refl refl (omega arith) (λ x m. inl m)),
      )

  add-Steps :
      (h : Runs.Happening R) (now agent : ℕ) (body : SubscriptionCreate) (secret : Option String)
      (bus : Bus) (j : ℕ) (s : Subscription)
      → find j bus.subscriptions ≡ some s
      → Steps h bus (insert_subscription now agent body secret bus).1 j s
  add-Steps h now agent body secret bus j s row =
      either_way (λ (r : Answer Subscription × Bus). Steps h bus r.1 j s)
        (is_some (first_where (is_same_subscription agent body) bus.subscriptions)) _ _
        (s, row, quiet h bus bus s s refl refl refl refl (omega arith) (λ x m. inl m))
        (
          s,
          find-append j bus.subscriptions (new_subscription now agent body secret bus ∷ [])
              ∙ rw row refl,
          quiet h bus _ s s refl refl refl refl (omega arith) (λ x m. inl m),
        )

  create-Steps :
      (h : Runs.Happening R) (is_safe : String → Bool) (secret : String) (now agent : ℕ)
      (body : SubscriptionCreate) (bus : Bus) (j : ℕ) (s : Subscription)
      → find j bus.subscriptions ≡ some s
      → Steps h bus (create_subscription is_safe secret now agent body bus).1 j s
  unfolding create_subscription
  create-Steps h is_safe secret now agent body bus j s row =
      let Stepped = λ (r : Answer Subscription × Bus). Steps h bus r.1 j s in
      let stays : Steps h bus bus j s =
        (s, row, quiet h bus bus s s refl refl refl refl (omega arith) (λ x m. inl m)) in
      either_way Stepped (not (is_known_event_type body.event_type)) _ _ stays (
        either_way Stepped (not (is_target_combo body.delivery_target body.webhook_url)) _ _ stays (
          either_way Stepped (not (body.delivery_target == "webhook")) _ _
            (add-Steps h now agent body none bus j s row)
            (either_way Stepped (is_safe (or_else body.webhook_url "")) _ _
              (add-Steps h now agent body (some secret) bus j s row) stays)))

  cycle-Steps :
      (window now : ℕ) (post : ℕ → List Event → PostResult) (batch_size : ℕ) (st : Redis.State R)
      (bus : Bus) (o : Option (Cycle R)) (j : ℕ) (s : Subscription)
      → IsSane bus
      → find j bus.subscriptions ≡ some s
      → dispatch_subscription_events R window now post batch_size bus st ≡ o
      → Steps (cycled window now post batch_size st) bus (Runs.bus_of R bus o) j s
  cycle-Steps window now post batch_size st bus none j s sane row run =
      (s, row, quiet _ bus bus s s refl refl refl refl (omega arith) (λ x m. inl m))
  cycle-Steps window now post batch_size st bus (some c) j s sane row run =
      let (s', row', adv) =
        dispatch-Advance R window now post batch_size j s bus st c sane.log sane.keyed row run in
      let (tables, keyed, missing) =
        dispatch-frame R window now post batch_size bus st c sane.log sane.keyed run in
      let events = ap (λ (b : Bus). b.events) tables in
      let next = ap (λ (b : Bus). b.next_event_id) tables in
      (
        s',
        row',
        record {
          same_id = adv.same_id;
          same_agent = adv.same_agent;
          same_type = adv.same_type;
          forward = adv.forward;
          below = λ lt. let bound = adv.below lt in omega arith;
          old = λ e m. inl (subst (λ es. Memᴰ e es) events m);
          covered = λ e m pending le.
              subst (λ o. Delivered post (Runs.posts_of R o) s.id e) (sym run)
                (adv.delivered e (subst (λ es. Memᴰ e es) events m) pending le);
        },
      )

  pub happen-Steps :
      (h : Runs.Happening R) (bus : Bus) (j : ℕ) (s : Subscription)
      → IsSane bus
      → find j bus.subscriptions ≡ some s
      → Steps h bus (Runs.happen R h bus) j s
  unfolding emit_event cleanup_old_events detach_subscription ack_subscription advance_ack_watermark
  happen-Steps (emitted (size, now, e)) bus j s sane row =
      insert_event-Steps (emitted (size, now, e)) size now e bus
        (existing_event e.event_type e.idempotency_key bus) j s row
  happen-Steps (cleaned now retention_days) bus j s sane row = (
    s,
    row,
    quiet (cleaned now retention_days) bus (cleanup_old_events now retention_days bus).1 s s refl
        refl refl refl (omega arith)
        (λ e m.
          inl (where_-Mem (λ x. leb (now - days retention_days) x.emitted_at) e bus.events m).0),
  )
  happen-Steps (subscribed is_safe secret now agent body) bus j s sane row =
      create-Steps (subscribed is_safe secret now agent body) is_safe secret now agent body bus j s
        row
  happen-Steps (detached_by now i agent) bus j s sane row =
      update-Steps (detached_by now i agent) (is_attached i agent) (detached now)
        (λ x. (refl, refl, refl, refl)) bus j s row
  happen-Steps (acked_by i agent n) bus j s sane row =
      update-Steps (acked_by i agent n) (acks_by_id i agent n) (acked n)
        (λ x. (refl, refl, refl, refl)) bus j s row
  happen-Steps (pulled agent n event_type) bus j s sane row =
      update-Steps (pulled agent n event_type) (acks_by_pull agent n event_type) (acked n)
        (λ x. (refl, refl, refl, refl)) bus j s row
  happen-Steps (cycled window now post batch_size st) bus j s sane row =
      cycle-Steps window now post batch_size st bus
        (dispatch_subscription_events R window now post batch_size bus st) j s sane row refl
