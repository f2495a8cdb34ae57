-- ===== src/Events/Runs/AtLeastOnce.antt =====
-- At least once: what lies below the watermark of a subscription has been delivered.
use mathlib.Core.List.{Memᴰ}
use mathlib.Core.Option.{some-injective}
use cueapi_core.Prelude.{
  ℕ, ◌<◌, ◌≤◌, ◌≡◌, refl, ap, sym, subst, ◌∙◌, true, some, List, [], ◌∷◌, nat_eq, string_eq, leb,
  find, find-key, Bool-cases, inl, inr, arith,
}
use cueapi_core.Redis.{Redis}
use cueapi_core.Events.{Event, Subscription, Bus, subscription_keyed}
use cueapi_core.Events.Dispatch.{dispatched_up_to, is_pending}
use cueapi_core.Events.Dispatch.Advance.{pending_above}
use cueapi_core.Events.Runs
use cueapi_core.Events.Runs.{emitted, cleaned, subscribed, detached_by, acked_by, pulled, cycled}
use cueapi_core.Events.Runs.Steps.{DeliveredBy, DeliveredIn, Moved, happen-Steps}
use cueapi_core.Events.Runs.Keeps.{IsSane, history-IsSane}

module _ (R : Redis) where
  pending_later :
      (s t : Subscription) (e : Event)
      → t.subscriber_agent_id ≡ s.subscriber_agent_id
      → t.event_type ≡ s.event_type
      → is_pending s e ≡ true
      → dispatched_up_to t < e.id
      → is_pending t e ≡ true
  pending_later s t e agent type h lt = rw (agent, type) (ground arith)

  -- What a history has done for a subscription.
  record Reached (hs : List (Runs.Happening R)) (from bus : Bus) (s s' : Subscription)
      : Type 0 where
    same_id : s'.id ≡ s.id
    same_agent : s'.subscriber_agent_id ≡ s.subscriber_agent_id
    same_type : s'.event_type ≡ s.event_type
    forward : dispatched_up_to s ≤ dispatched_up_to s'
    below : dispatched_up_to s' < bus.next_event_id
    covered :
        (e : Event)
        → Memᴰ e bus.events
        → is_pending s e ≡ true
        → e.id ≤ dispatched_up_to s'
        → DeliveredIn R hs from s.id e

  further :
      (h : Runs.Happening R) (hs : List (Runs.Happening R)) (from bus' : Bus)
      (s t t' : Subscription)
      → Reached hs from (Runs.history R hs from) s t
      → Moved R h (Runs.history R hs from) bus' t t'
      → Reached (h ∷ hs) from bus' s t'
  further h hs from bus' s t t' p m = record {
    same_id = m.same_id ∙ p.same_id;
    same_agent = m.same_agent ∙ p.same_agent;
    same_type = m.same_type ∙ p.same_type;
    forward = omega (arith, p.forward, m.forward);
    below = m.below p.below;
    covered = λ e there pending le. elim (Bool-cases (leb e.id (dispatched_up_to t))) [
      | inl before ↦ elim (m.old e there) [
        | inl earlier ↦ inr (p.covered e earlier pending (ground arith))
        | inr late ↦ absurd (let bound = p.below in ground arith)
      ]
      | inr after ↦ inl (
          subst (λ i. DeliveredBy R h (Runs.history R hs from) i e) p.same_id
            (m.covered e there (pending_later s t e p.same_agent p.same_type pending (ground arith))
              le))
    ];
  }

  history-Reached :
      (hs : List (Runs.Happening R)) (bus : Bus) (j : ℕ) (s : Subscription)
      → IsSane bus
      → find j bus.subscriptions ≡ some s
      → dispatched_up_to s < bus.next_event_id
      → (s' : Subscription) × (find j (Runs.history R hs bus).subscriptions ≡ some s')
        × Reached hs bus (Runs.history R hs bus) s s'
  history-Reached [] bus j s sane row lt = (
    s,
    row,
    record {
      same_id = refl;
      same_agent = refl;
      same_type = refl;
      forward = omega arith;
      below = lt;
      covered = λ e there pending le. absurd (let above = pending_above s e pending in omega arith);
    },
  )
  history-Reached (h ∷ hs) bus j s sane row lt =
      let (t, row_t, p) = history-Reached hs bus j s sane row lt in
      let (t', row', m) =
        happen-Steps R h (Runs.history R hs bus) j t (history-IsSane R hs bus sane) row_t in
      (t', row', further h hs bus (Runs.happen R h (Runs.history R hs bus)) s t t' p m)

  -- After any history of emissions, cleanups, requests and cycles of deliveries, in which each emission
  -- commits before the next one draws its id, with receivers that answer whatever they like, the watermark
  -- of a subscription has not gone back, and each event that is for the subscription, lies between its old
  -- and its new watermark and is still stored was in a batch that a cycle of the history has POSTed for the
  -- subscription and that its receiver has taken with a 2xx. At first the keys are unique and ahead of the
  -- tables, and the watermark lies below the next event.
  pub dispatched_at_least_once :
      (hs : List (Runs.Happening R)) (bus : Bus) (j : ℕ) (s s' : Subscription) (e : Event)
      → IsSane bus
      → find j bus.subscriptions ≡ some s
      → dispatched_up_to s < bus.next_event_id
      → find j (Runs.history R hs bus).subscriptions ≡ some s'
      → Memᴰ e (Runs.history R hs bus).events
      → is_pending s e ≡ true
      → e.id ≤ dispatched_up_to s'
      → (dispatched_up_to s ≤ dispatched_up_to s') × DeliveredIn R hs bus j e
  dispatched_at_least_once hs bus j s s' e sane row lt row' there pending le =
      let (t, row_t, p) = history-Reached hs bus j s sane row lt in
      let same : t ≡ s' = some-injective t s' (sym row_t ∙ row') in
      let up_to = ap (λ (x : Subscription). dispatched_up_to x) same in
      (
        omega (arith, p.forward),
        subst (λ i. DeliveredIn R hs bus i e) (find-key j bus.subscriptions s row)
            (p.covered e there pending (omega arith)),
      )
