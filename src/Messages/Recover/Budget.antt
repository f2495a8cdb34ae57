-- ===== src/Messages/Recover/Budget.antt =====
-- The retries that the recovery of messages schedules, and the rows that it leaves.
use mathlib.Core.Option
use mathlib.Core.List.{append-nil, append_assoc}
use cueapi_core.Prelude.{
  ℕ, ◌+◌, ◌-◌, ◌≡◌, ◌≤◌, refl, subst, ap, ◌∙◌, Bool, false, none, some, List, [], ◌∷◌, ◌++◌, nat_eq,
  if◌then◌else◌, ltb, find, where_, take, length, count_where, each, All, arith, Bool-cases, inl,
  inr, IsKeyed, updates, find-selection, take-all,
}
use cueapi_core.Store.{
  DeliveryState, TaskType, task_eq, Message, message_task, Outbox, Db, agent_keyed, message_keyed,
  seconds,
}
use cueapi_core.Messages.Recover.{
  is_stale_message, prior_attempts, webhook_of, recover_message, recover_stale_message_deliveries,
}

-- The row that is left of a stale message, by the attempts that were made for it.
abbrev pub recovered : ℕ → ℕ → Message → Message
recovered now prior =
    if ltb prior 4
    then (λ m. record m {
      delivery_state = DeliveryState.retry_ready;
      delivering_started_at = none;
    })
    else (λ m. record m {
      delivery_state = DeliveryState.failed;
      failed_at = some now;
      delivering_started_at = none;
    })

abbrev pub has_left : Db → Message → Bool
has_left db m = ltb (prior_attempts m.id db.outbox) 4

-- A retry for now, the next attempt for the message, to the agent that it is for.
abbrev pub IsNext : ℕ → Db → Message → Outbox → Type 0
IsNext now db m o =
    (o.payload
      ≡ message_task (record {
        message_id = m.id;
        to_agent_id = m.to_agent_id;
        webhook_url = webhook_of (find m.to_agent_id db.agents);
        attempt = some (prior_attempts m.id db.outbox + 1);
      }))
    × (o.task_type ≡ TaskType.retry_message)
    × (o.scheduled_at ≡ some now)
    × (o.dispatched ≡ false)

-- One row for each message, in order.
abbrev pub AreNext : ℕ → Db → List Message → List Outbox → Type 0
AreNext now db [] [] = Unit
AreNext now db [] (o ∷ os) = ⊥
AreNext now db (m ∷ ms) [] = ⊥
AreNext now db (m ∷ ms) (o ∷ os) = IsNext now db m o × AreNext now db ms os

append-AreNext :
    (now : ℕ) (db : Db) (ms ns : List Message) (os ps : List Outbox)
    → AreNext now db ms os
    → AreNext now db ns ps
    → AreNext now db (ms ++ ns) (os ++ ps)
append-AreNext now db [] ns [] ps h k = k
append-AreNext now db [] ns (o ∷ os) ps h k = absurd h
append-AreNext now db (m ∷ ms) ns [] ps h k = absurd h
append-AreNext now db (m ∷ ms) ns (o ∷ os) ps h k = (h.0, append-AreNext now db ms ns os ps h.1 k)

where_-cons {ℓ} :
    {A : Type ℓ} (p : A → Bool) (x : A) (t : List A)
    → where_ p (x ∷ []) ++ where_ p t ≡ where_ p (x ∷ t)
unfolding where_
where_-cons p x t = elim (Bool-cases (p x)) [ inl hit ↦ rw hit refl | inr miss ↦ rw miss refl ]

pub recovered-keeps : (now prior : ℕ) (x : Message) → (recovered now prior x).id ≡ x.id
recovered-keeps now prior x = ground arith

-- Rows that are not dispatched count as no attempts.
prior_attempts-append :
    (i : ℕ) (t u : List Outbox)
    → All (λ o. o.dispatched ≡ false) u
    → prior_attempts i (t ++ u) ≡ prior_attempts i t
unfolding prior_attempts count_where
prior_attempts-append i [] [] h = refl
prior_attempts-append i [] (o ∷ u) h = ground (arith, h.0, prior_attempts-append i [] u h.1)
prior_attempts-append i (o ∷ t) u h = ground (arith, prior_attempts-append i t u h)

abbrev Keeps : Db → Db → Type 0
Keeps from db =
    (db.agents ≡ from.agents)
    × ((i : ℕ) → prior_attempts i db.outbox ≡ prior_attempts i from.outbox)

module _ (now : ℕ) (from : Db) where
  abbrev leaves : Message → Message → Message
  leaves m = recovered now (prior_attempts m.id from.outbox)

  -- The loop against its start.
  abbrev SoFar : List Message → ℕ × Db → ℕ × Db → Type 0
  SoFar ms (n, db) (n', db') =
      (rows : List Outbox) × (db'.outbox ≡ db.outbox ++ rows)
      × AreNext now from (where_ (has_left from) ms) rows
      × (db'.messages ≡ updates leaves ms db.messages)
      × (n' ≡ n + length ms)

  recover_message-SoFar :
      (m : Message) (n : ℕ) (db : Db)
      → Keeps from db
      → Keeps from (recover_message now m (n, db)).1
        × SoFar (m ∷ []) (n, db) (recover_message now m (n, db))
  unfolding recover_message updates where_
  recover_message-SoFar m n db (agents, counts) =
      elim (Bool-cases (ltb (prior_attempts m.id from.outbox) 4)) [
        | inl left ↦
            rw (counts m.id, left, agents)
              (
                (refl, λ i. prior_attempts-append i db.outbox (_ ∷ []) (refl, tt) ∙ counts i),
                (_ ∷ [], refl, ((refl, refl, refl, refl), tt), refl, omega arith),
              )
        | inr spent ↦
            rw (counts m.id, spent)
              ((agents, counts), ([], rw append-nil refl, tt, refl, omega arith))
      ]

  each-SoFar :
      (ms : List Message) (n : ℕ) (db : Db)
      → Keeps from db
      → SoFar ms (n, db) (each (recover_message now) ms (n, db))
  unfolding each updates where_
  each-SoFar [] n db k = ([], rw append-nil refl, tt, refl, omega arith)
  each-SoFar (m ∷ ms) n db k =
      let (k', (rows, grown, ok, here, count)) = recover_message-SoFar m n db k in
      let next = recover_message now m (n, db) in
      let (rows', grown', ok', there, count') = each-SoFar ms next.0 next.1 k' in
      (
        rows ++ rows',
        grown' ∙ ap (λ (t : List Outbox). t ++ rows') grown ∙ append_assoc db.outbox rows rows',
        subst (λ t. AreNext now from t (rows ++ rows')) (where_-cons (has_left from) m ms)
            (append-AreNext now from (where_ (has_left from) (m ∷ [])) (where_ (has_left from) ms)
              rows rows' ok ok'),
        there ∙ ap (updates leaves ms) here,
        ground arith,
      )

-- What the loop makes of the table of messages.
pub recover_stale_message_deliveries-messages :
    (start now stale_seconds : ℕ) (db : Db)
    → (recover_stale_message_deliveries start now stale_seconds db).1.messages
      ≡ updates
          (λ m. recovered now (prior_attempts m.id db.outbox))
          (take 100 (where_ (is_stale_message (start - seconds stale_seconds)) db.messages))
          db.messages
unfolding recover_stale_message_deliveries
recover_stale_message_deliveries-messages start now stale_seconds db =
    let selected =
      take 100 (where_ (is_stale_message (start - seconds stale_seconds)) db.messages) in
    (each-SoFar now db selected 0 db (refl, λ i. refl)).3

-- If at most a hundred messages are stuck, each message that has been in delivering for longer than the
-- threshold becomes retry_ready while fewer than four attempts have been made, by the count of its dispatched
-- outbox rows, and failed otherwise; every other one stays as it is. The rows that are added to the outbox are
-- one for each message that becomes retry_ready, in order: its next attempt, for now and for its recipient.
pub recover_stale_message_deliveries_bounds :
    (start now stale_seconds : ℕ) (db : Db)
    → IsKeyed db.messages
    → length (where_ (is_stale_message (start - seconds stale_seconds)) db.messages) ≤ 100
    → let (count, db') = recover_stale_message_deliveries start now stale_seconds db in
      (rows : List Outbox) × (db'.outbox ≡ db.outbox ++ rows)
      × AreNext now db
          (where_
            (has_left db)
            (where_ (is_stale_message (start - seconds stale_seconds)) db.messages))
          rows
      × (count ≡ length (where_ (is_stale_message (start - seconds stale_seconds)) db.messages))
      × ((j : ℕ)
          → find j db'.messages
            ≡ Option.map
                (λ m.
                  if is_stale_message (start - seconds stale_seconds) m
                  then recovered now (prior_attempts m.id db.outbox) m
                  else m)
                (find j db.messages))
unfolding recover_stale_message_deliveries
recover_stale_message_deliveries_bounds start now stale_seconds db keyed few =
    let q = is_stale_message (start - seconds stale_seconds) in
    let selected = take 100 (where_ q db.messages) in
    let (rows, grown, ok, messages, count) = each-SoFar now db selected 0 db (refl, λ i. refl) in
    (
      rows,
      grown,
      subst (λ t. AreNext now db (where_ (has_left db) t) rows)
          (take-all 100 (where_ q db.messages) few) ok,
      let all = ap length (take-all 100 (where_ q db.messages) few) in omega arith,
      λ j.
          ap (find j) messages
          ∙ find-selection (leaves now db)
              (λ e. recovered-keeps now (prior_attempts e.id db.outbox)) j 100 q db.messages keyed
              few,
    )
