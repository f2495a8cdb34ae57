-- ===== src/Events/Dispatch/Cycles.antt =====
-- A whole cycle of deliveries.
use mathlib.Core.List.{Memᴰ}
use mathlib.Core.Option
use mathlib.Core.Option.{some-injective}
use cueapi_core.Prelude.{
  ℕ, ◌≡◌, refl, ap, sym, subst, ◌∙◌, Option, none, some, List, [], ◌∷◌, ◌==◌, nat_eq, nat_beq,
  if◌then◌else◌, find, find-update_row, find-ordered, none-some, update_row, update_where-IsKeyed,
  IsKeyed, selection-IsKeyed, try_each, true, false, Bool-cases, Option-cases, inl, inr, arith,
}
use cueapi_core.Redis.{Redis}
use cueapi_core.Events.{Event, Subscription, Bus, subscription_keyed}
use cueapi_core.Events.Pull.Log.{IsLog}
use cueapi_core.Events.Dispatch.{
  PostResult, Cycle, dispatch_sub, dispatch_subscription_events, fetch_dispatch_due_subs,
  is_dispatch_due, dispatch_rank,
}
use cueapi_core.Events.Dispatch.Advance.{Advance, Advance-still, Advance-more}
use cueapi_core.Events.Dispatch.Round.{Wrote, dispatch_sub-Wrote}

pub bind-some {ℓ κ} :
    {A : Type ℓ} {B : Type κ} (o : Option A) (f : A → Option B) (b : B)
    → Option.bind o f ≡ some b
    → (a : A) × (o ≡ some a) × (f a ≡ some b)
unfolding Option.bind
bind-some none f b h = absurd (none-some b h)
bind-some (some a) f b h = (a, refl, h)

true_ne_false : true ≡ false → ⊥
true_ne_false h = cc

-- A row that is not due under its key is not fetched.
pub not_due-not_fetched :
    (now batch_size : ℕ) (bus : Bus) (j : ℕ) (s : Subscription)
    → IsKeyed bus.subscriptions
    → find j bus.subscriptions ≡ some s
    → is_dispatch_due now s ≡ false
    → find j (fetch_dispatch_due_subs now batch_size bus) ≡ none
unfolding fetch_dispatch_due_subs
not_due-not_fetched now batch_size bus j s keyed row idle =
    let rank = λ (x : Subscription). dispatch_rank x.last_dispatched_event_id in
    elim (Option-cases (find j (fetch_dispatch_due_subs now batch_size bus))) [
      | inl gone ↦ gone
      | inr (e, there) ↦
          let (here, due) =
            find-ordered rank j batch_size (is_dispatch_due now) bus.subscriptions e keyed there in
          let same : s ≡ e = some-injective s e (sym row ∙ here) in
          absurd (true_ne_false (sym due ∙ ap (is_dispatch_due now) (sym same) ∙ idle))
    ]

-- Each row that is left to do is the one in the table.
abbrev Current : List Subscription → List Subscription → Type 0
Current es t = (i : ℕ) (e : Subscription) → find i es ≡ some e → find i t ≡ some e

module _ (R : Redis) (window now : ℕ) (post : ℕ → List Event → PostResult) where
  module _ (e : Subscription) (c c₁ : Cycle R) (w : Wrote R window now post e c c₁) where
    after-IsLog : IsLog c.bus → IsLog c₁.bus
    after-IsLog log = subst IsLog (sym w.bus_after) log

    find-after :
        (j : ℕ)
        → find j c₁.bus.subscriptions ≡ (
            if e.id == j
            then Option.map w.change (find j c.bus.subscriptions)
            else find j c.bus.subscriptions)
    find-after j =
        ap (λ (b : Bus). find j b.subscriptions) w.bus_after
        ∙ find-update_row e.id j w.change w.keeps c.bus.subscriptions

    after-IsKeyed : IsKeyed c.bus.subscriptions → IsKeyed c₁.bus.subscriptions
    unfolding update_row
    after-IsKeyed h =
        subst (λ (b : Bus). IsKeyed b.subscriptions) (sym w.bus_after)
          (update_where-IsKeyed (λ x. x.id == e.id) w.change w.keeps c.bus.subscriptions h)

    after-Advance :
        (posts : List (ℕ × List Event)) (s s' : Subscription)
        → Advance post posts c₁.bus.events c₁.bus.next_event_id s s'
        → Advance post posts c.bus.events c.bus.next_event_id s s'
    after-Advance posts s s' adv =
        subst (λ (b : Bus). Advance post posts b.events b.next_event_id s s') w.bus_after adv

    Current-after :
        (es : List Subscription)
        → IsKeyed (e ∷ es)
        → Current (e ∷ es) c.bus.subscriptions
        → Current es c₁.bus.subscriptions
    unfolding find
    Current-after es keyed current i x there = elim (Bool-cases (nat_beq e.id i)) [
      | inl own ↦
          let i_is : e.id ≡ i = ground arith in
          absurd (none-some x (sym (subst (λ k. find k es ≡ none) i_is keyed.0) ∙ there))
      | inr other ↦ let before = current i x (rw other there) in find-after i ∙ rw other before
    ]

  abbrev loop : List Subscription → Cycle R → Option (Cycle R)
  loop es c = try_each (dispatch_sub R window now post) es c

  -- A loop changes no event, and no row of a subscription that it does not go through.
  loop-frame :
      (es : List Subscription) (c c' : Cycle R)
      → IsLog c.bus
      → loop es c ≡ some c'
      → (c'.bus ≡ record c.bus { subscriptions = c'.bus.subscriptions })
        × (IsKeyed c.bus.subscriptions → IsKeyed c'.bus.subscriptions)
        × ((j : ℕ) → find j es ≡ none → find j c'.bus.subscriptions ≡ find j c.bus.subscriptions)
  unfolding try_each find
  loop-frame [] c c' log h =
      let same : c ≡ c' = some-injective c c' h in
      (
        ap (λ (d : Cycle R). record d.bus { subscriptions = c'.bus.subscriptions }) (sym same),
        λ keyed. subst (λ (d : Cycle R). IsKeyed d.bus.subscriptions) same keyed,
        λ j missing. ap (λ (d : Cycle R). find j d.bus.subscriptions) (sym same),
      )
  loop-frame (e ∷ es) c c' log h =
      let (c₁, first, rest) = bind-some (dispatch_sub R window now post e c) (loop es) c' h in
      let w = dispatch_sub-Wrote R window now post e c c₁ log first in
      let (tables, keyed, others) = loop-frame es c₁ c' (after-IsLog e c c₁ w log) rest in
      (
        tables ∙ ap (λ (b : Bus). record b { subscriptions = c'.bus.subscriptions }) w.bus_after,
        λ k. keyed (after-IsKeyed e c c₁ w k),
        λ j missing. ground (arith, others j, find-after e c c₁ w j),
      )

  -- What has been POSTed stays so.
  loop-sent :
      (x : ℕ × List Event) (es : List Subscription) (c c' : Cycle R)
      → IsLog c.bus
      → loop es c ≡ some c'
      → Memᴰ x c.posts
      → Memᴰ x c'.posts
  unfolding try_each
  loop-sent x [] c c' log h m = subst (λ (d : Cycle R). Memᴰ x d.posts) (some-injective c c' h) m
  loop-sent x (e ∷ es) c c' log h m =
      let (c₁, first, rest) = bind-some (dispatch_sub R window now post e c) (loop es) c' h in
      let w = dispatch_sub-Wrote R window now post e c c₁ log first in
      loop-sent x es c₁ c' (after-IsLog e c c₁ w log) rest (w.sent x m)

  loop-Advance :
      (j : ℕ) (s : Subscription) (es : List Subscription) (c c' : Cycle R)
      → IsLog c.bus
      → IsKeyed es
      → Current es c.bus.subscriptions
      → find j c.bus.subscriptions ≡ some s
      → loop es c ≡ some c'
      → (s' : Subscription) × (find j c'.bus.subscriptions ≡ some s')
        × Advance post c'.posts c.bus.events c.bus.next_event_id s s'
  unfolding try_each find
  loop-Advance j s [] c c' log keyed current row h =
      let same : c ≡ c' = some-injective c c' h in
      (
        s,
        subst (λ (d : Cycle R). find j d.bus.subscriptions ≡ some s) same row,
        Advance-still post c'.posts c.bus.events c.bus.next_event_id s s refl refl refl refl,
      )
  loop-Advance j s (e ∷ es) c c' log keyed current row h =
      let (c₁, first, rest) = bind-some (dispatch_sub R window now post e c) (loop es) c' h in
      let w = dispatch_sub-Wrote R window now post e c c₁ log first in
      let log₁ = after-IsLog e c c₁ w log in
      elim (Bool-cases (nat_beq e.id j)) [
        | inl own ↦
            let j_is : j ≡ e.id = ground arith in
            let gone : find j es ≡ none = ap (λ i. find i es) j_is ∙ keyed.0 in
            let here : find j c.bus.subscriptions ≡ some e = current j e (rw own refl) in
            let same : s ≡ e = some-injective s e (sym row ∙ here) in
            let row₁ : find j c₁.bus.subscriptions ≡ some (w.change e) =
              ground (arith, find-after e c c₁ w j) in
            let others = (loop-frame es c₁ c' log₁ rest).2 in
            (
              w.change e,
              others j gone ∙ row₁,
              subst (λ x. Advance post c'.posts c.bus.events c.bus.next_event_id x (w.change e))
                  (sym same)
                  (Advance-more post c₁.posts c'.posts c.bus.events c.bus.next_event_id e
                    (w.change e) (λ x. loop-sent x es c₁ c' log₁ rest) w.advance),
            )
        | inr other ↦
            let row₁ : find j c₁.bus.subscriptions ≡ some s =
              ground (arith, find-after e c c₁ w j) in
            let (s', row', adv) =
              loop-Advance j s es c₁ c' log₁ keyed.1 (Current-after e c c₁ w es keyed current) row₁
                rest in
            (s', row', after-Advance e c c₁ w c'.posts s s' adv)
      ]

  none-selected :
      (batch_size j : ℕ) (bus : Bus)
      → IsKeyed bus.subscriptions
      → find j bus.subscriptions ≡ none
      → find j (fetch_dispatch_due_subs now batch_size bus) ≡ none
  unfolding fetch_dispatch_due_subs
  none-selected batch_size j bus keyed missing =
      let rank = λ (x : Subscription). dispatch_rank x.last_dispatched_event_id in
      elim (Option-cases (find j (fetch_dispatch_due_subs now batch_size bus))) [
        | inl gone ↦ gone
        | inr (e, there) ↦ absurd (
            none-some e (
              sym missing
              ∙ (find-ordered rank j batch_size (is_dispatch_due now) bus.subscriptions e keyed
                  there).0))
      ]

  -- A cycle that is not rolled back moves each subscription as `Advance` says.
  pub dispatch-Advance :
      (batch_size j : ℕ) (s : Subscription) (bus : Bus) (redis : Redis.State R) (c' : Cycle R)
      → IsLog bus
      → IsKeyed bus.subscriptions
      → find j bus.subscriptions ≡ some s
      → dispatch_subscription_events R window now post batch_size bus redis ≡ some c'
      → (s' : Subscription) × (find j c'.bus.subscriptions ≡ some s')
        × Advance post c'.posts bus.events bus.next_event_id s s'
  unfolding dispatch_subscription_events fetch_dispatch_due_subs
  dispatch-Advance batch_size j s bus redis c' log keyed row h =
      let rank = λ (x : Subscription). dispatch_rank x.last_dispatched_event_id in
      loop-Advance j s (fetch_dispatch_due_subs now batch_size bus)
        (record { bus = bus; redis = redis; attempts = 0; posts = [] }) c' log
        (selection-IsKeyed batch_size rank (is_dispatch_due now) bus.subscriptions keyed)
        (λ i e there.
          (find-ordered rank i batch_size (is_dispatch_due now) bus.subscriptions e keyed there).0)
        row h

  pub dispatch-frame :
      (batch_size : ℕ) (bus : Bus) (redis : Redis.State R) (c' : Cycle R)
      → IsLog bus
      → IsKeyed bus.subscriptions
      → dispatch_subscription_events R window now post batch_size bus redis ≡ some c'
      → (c'.bus ≡ record bus { subscriptions = c'.bus.subscriptions })
        × IsKeyed c'.bus.subscriptions
        × ((j : ℕ) → find j bus.subscriptions ≡ none → find j c'.bus.subscriptions ≡ none)
  unfolding dispatch_subscription_events fetch_dispatch_due_subs
  dispatch-frame batch_size bus redis c' log keyed h =
      let (tables, keeps, others) =
        loop-frame (fetch_dispatch_due_subs now batch_size bus)
          (record { bus = bus; redis = redis; attempts = 0; posts = [] }) c' log h in
      (
        tables,
        keeps keyed,
        λ j missing. others j (none-selected batch_size j bus keyed missing) ∙ missing,
      )

  -- A subscription that is not due stays as it is.
  pub dispatch-others :
      (batch_size j : ℕ) (s : Subscription) (bus : Bus) (redis : Redis.State R) (c' : Cycle R)
      → IsLog bus
      → IsKeyed bus.subscriptions
      → find j bus.subscriptions ≡ some s
      → is_dispatch_due now s ≡ false
      → dispatch_subscription_events R window now post batch_size bus redis ≡ some c'
      → find j c'.bus.subscriptions ≡ some s
  unfolding dispatch_subscription_events
  dispatch-others batch_size j s bus redis c' log keyed row idle h =
      let (tables, keeps, others) =
        loop-frame (fetch_dispatch_due_subs now batch_size bus)
          (record { bus = bus; redis = redis; attempts = 0; posts = [] }) c' log h in
      others j (not_due-not_fetched now batch_size bus j s keyed row idle) ∙ row
