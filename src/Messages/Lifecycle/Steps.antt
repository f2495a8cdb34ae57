-- ===== src/Messages/Lifecycle/Steps.antt =====
-- Statements on the messages, and the jobs that move messages.
use mathlib.Core.Option
use mathlib.Core.Option.{some-injective}
use cueapi_core.Prelude.{
  ℕ, ◌-◌, ◌≡◌, ◌⊎◌, refl, sym, ap, subst, ◌∙◌, Bool, true, false, Option, none, some, List, nat_eq,
  if◌then◌else◌, find, find-key, where_, take, arith, Bool-cases, Option-cases, inl, inr, IsKeyed,
  update_where, find-update_where, update_where-IsKeyed, find-updates, updates-IsKeyed,
  find-selected, touched, take-IsKeyed, where_-IsKeyed,
}
use cueapi_core.Store.{
  DeliveryState, delivery_eq, Message, Db, message_keyed, agent_keyed, seconds, days,
}
use cueapi_core.Messages.Push.{claim_message, message_claimable, message_claimed}
use cueapi_core.Messages.Recover.{
  is_stale_message, prior_attempts, recover_stale_message_deliveries,
}
use cueapi_core.Messages.Recover.Budget.{
  recovered, recovered-keeps, recover_stale_message_deliveries-messages,
}
use cueapi_core.Messages.Cleanup.{
  run_cleanup, is_expiring, message_expired, expire_old_messages, has_old_key, key_freed,
  free_old_idempotency_keys,
}
use cueapi_core.Messages.Lifecycle.{may_move, state_of}

-- What a statement on the messages may do.
abbrev pub Follows : List Message → List Message → Type 0
Follows t u = IsKeyed u × ((j : ℕ) → may_move (state_of (find j t)) (state_of (find j u)) ≡ true)

pub stays : (o : Option DeliveryState) → may_move o o ≡ true
stays none = refl
stays (some s) = ground arith

pub Follows-refl : (t : List Message) → IsKeyed t → Follows t t
Follows-refl t h = (h, λ j. stays (state_of (find j t)))

-- An UPDATE that moves each row that it changes.
module _ (p : Message → Bool) (f : Message → Message) (keeps : (m : Message) → (f m).id ≡ m.id)
    (t : List Message) (keyed : IsKeyed t)
    (moves : (m : Message)
      → find m.id t ≡ some m
      → p m ≡ true
      → may_move (some m.delivery_state) (some (f m).delivery_state) ≡ true) where
  changed :
      (o : Option Message)
      → ((m : Message) → o ≡ some m → find m.id t ≡ some m)
      → may_move (state_of o) (state_of (Option.map (λ m. if p m then f m else m) o)) ≡ true
  changed none row = refl
  changed (some m) row = elim (Bool-cases (p m)) [
    | inl hit ↦ rw hit (moves m (row m refl) hit)
    | inr miss ↦ rw miss (stays (some m.delivery_state))
  ]

  pub update_where-Follows : Follows t (update_where p f t)
  update_where-Follows = (
    update_where-IsKeyed p f keeps t keyed,
    λ j.
        let same = find-update_where p f keeps j t in
        let at_key : (m : Message) → find j t ≡ some m → find m.id t ≡ some m =
          λ m row. ap (λ i. find i t) (find-key j t m row) ∙ row in
        rw same (changed (find j t) at_key),
  )

pub claim_message-Follows :
    (now i : ℕ) (expected : DeliveryState) (db : Db)
    → (expected ≡ DeliveryState.queued) ⊎ (expected ≡ DeliveryState.retry_ready)
    → IsKeyed db.messages
    → Follows db.messages (claim_message now i expected db).1.messages
unfolding claim_message
claim_message-Follows now i expected db from keyed =
    update_where-Follows (message_claimable i expected) (message_claimed now) (λ m. refl)
      db.messages keyed
      (λ m row hit. elim from [ inl e ↦ ground (arith, e) | inr e ↦ ground (arith, e) ])

run_cleanup-Follows :
    (dry_run : Bool) (p : Message → Bool) (f : Message → Message) (db : Db)
    → ((m : Message) → (f m).id ≡ m.id)
    → ((m : Message)
        → p m ≡ true
        → may_move (some m.delivery_state) (some (f m).delivery_state) ≡ true)
    → IsKeyed db.messages
    → Follows db.messages (run_cleanup dry_run p f db).1.messages
run_cleanup-Follows true p f db keeps moves keyed = Follows-refl db.messages keyed
run_cleanup-Follows false p f db keeps moves keyed =
    update_where-Follows p f keeps db.messages keyed (λ m row hit. moves m hit)

expiring-moves :
    (now : ℕ) (m : Message)
    → is_expiring now m ≡ true
    → may_move (some m.delivery_state) (some DeliveryState.expired) ≡ true
expiring-moves now m hit = ground arith

pub expire_old_messages-Follows :
    (now : ℕ) (dry_run : Bool) (db : Db)
    → IsKeyed db.messages
    → Follows db.messages (expire_old_messages now dry_run db).1.messages
unfolding expire_old_messages
expire_old_messages-Follows now dry_run db keyed =
    run_cleanup-Follows dry_run (is_expiring now) message_expired db (λ m. refl)
      (expiring-moves now) keyed

pub free_old_idempotency_keys-Follows :
    (now : ℕ) (dry_run : Bool) (db : Db)
    → IsKeyed db.messages
    → Follows db.messages (free_old_idempotency_keys now dry_run db).1.messages
unfolding free_old_idempotency_keys
free_old_idempotency_keys-Follows now dry_run db keyed =
    run_cleanup-Follows dry_run (has_old_key (now - days 1)) key_freed db (λ m. refl)
      (λ m hit. stays (some m.delivery_state)) keyed

unmoved :
    (f : Message → Message → Message) (o : Option Message)
    → may_move (state_of o) (state_of (Option.map (touched f none) o)) ≡ true
unmoved f none = refl
unmoved f (some m) = stays (some m.delivery_state)

recovered-moves :
    (now prior cutoff : ℕ) (m : Message)
    → is_stale_message cutoff m ≡ true
    → may_move (some m.delivery_state) (some (recovered now prior m).delivery_state) ≡ true
recovered-moves now prior cutoff m stale = ground arith

pub recover-Follows :
    (start now stale_seconds : ℕ) (db : Db)
    → IsKeyed db.messages
    → Follows db.messages (recover_stale_message_deliveries start now stale_seconds db).1.messages
recover-Follows start now stale_seconds db keyed =
    let q = is_stale_message (start - seconds stale_seconds) in
    let es = take 100 (where_ q db.messages) in
    let f : Message → Message → Message = λ m. recovered now (prior_attempts m.id db.outbox) in
    let keeps : (e x : Message) → (f e x).id ≡ x.id =
      λ e. recovered-keeps now (prior_attempts e.id db.outbox) in
    let messages = recover_stale_message_deliveries-messages start now stale_seconds db in
    subst (Follows db.messages) (sym messages) (
      updates-IsKeyed f keeps es db.messages keyed,
      λ j.
          let same =
            find-updates f keeps j es db.messages
              (take-IsKeyed 100 (where_ q db.messages) (where_-IsKeyed q db.messages keyed)) in
          rw same (elim (Option-cases (find j es)) [
            | inl out ↦ rw out (unmoved f (find j db.messages))
            | inr (e, taken) ↦
                let (row, stale) = find-selected j 100 q db.messages e keyed taken in
                rw (taken, row)
                  (recovered-moves now (prior_attempts e.id db.outbox)
                    (start - seconds stale_seconds) e stale)
          ]),
    )
