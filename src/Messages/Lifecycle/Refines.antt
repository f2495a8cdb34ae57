-- ===== src/Messages/Lifecycle/Refines.antt =====
-- Runs of the messaging service against the diagram.
use mathlib.Core.Option
use cueapi_core.Prelude.{
  if◌then◌else◌, where_, find-update_where, update_where-IsKeyed, ℕ, ◌-◌, ◌≡◌, ◌⊎◌, refl, sym, ap,
  subst, ◌∙◌, Bool, true, false, not, Option, none, some, List, nat_eq, find, find-key, leb, arith,
  Bool-cases, inl, inr, IsKeyed, passing, where_-IsKeyed, find-where_-passing,
}
use cueapi_core.Store.{DeliveryState, delivery_eq, Message, Agent, Db, message_keyed, days}
use cueapi_core.Messages.Classify.{is_success}
use cueapi_core.Messages.Attempt.{
  AttemptResult, last_time, message_delivered, message_retry_ready, message_failed, schedule_retry,
  route_attempt_outcome,
}
use cueapi_core.Messages.Attempt.Settled.{again, next_time}
use cueapi_core.Messages.Receipts.{is_terminal}
use cueapi_core.Messages.Cleanup.{
  is_reply_to, orphaned, Cleaned, is_deletable, cleanup_expired_messages,
}
use cueapi_core.Messages.Cleanup.Batches.{cleanup_expired_messages_deletes}
use cueapi_core.Messages.Lifecycle.{
  may_move, Moves, rests, moves, state_of, state_at, MessageStep, claims, settles, recovers, polls,
  reads, acks, expires, deletes, frees, MessageRun, stops, goes_on,
}
use cueapi_core.Messages.Lifecycle.Steps.{
  Follows, Follows-refl, stays, claim_message-Follows, expire_old_messages-Follows,
  free_old_idempotency_keys-Follows, recover-Follows,
}
use cueapi_core.Messages.Lifecycle.Handlers.{
  messages_after, one-Follows, mark_read-Follows, mark_acked-Follows, list_inbox-Follows,
}

abbrev messages_or : Db → Option Db → List Message
messages_or db none = db.messages
messages_or db (some db') = db'.messages

-- The outcome of an attempt, for a message that is still delivering.
route-Follows :
    (now : ℕ) (to_agent : Agent) (attempt : ℕ) (result : AttemptResult) (m : Message) (db : Db)
    → find m.id db.messages ≡ some m
    → m.delivery_state ≡ DeliveryState.delivering
    → IsKeyed db.messages
    → Follows db.messages
        (messages_or db (route_attempt_outcome now m.id to_agent attempt result db))
unfolding route_attempt_outcome schedule_retry
route-Follows now to_agent attempt result m db row state keyed =
    elim (Bool-cases (is_success result.classification.category)) [
      | inl ok ↦
          rw ok (one-Follows (message_delivered now) m db (λ x. refl) row (rw state refl) keyed)
      | inr bad ↦ elim (Bool-cases (again attempt result)) [
        | inr last ↦
            rw (bad, last)
              (one-Follows (message_failed now) m db (λ x. refl) row (rw state refl) keyed)
        | inl more ↦ elim (Bool-cases (leb (next_time now attempt result) last_time)) [
          | inl fits ↦
              rw (bad, more, fits)
                (one-Follows message_retry_ready m db (λ x. refl) row (rw state refl) keyed)
          | inr late ↦ rw (bad, more, late) (Follows-refl db.messages keyed)
        ]
      ]
    ]

abbrev messages_left : Db → Option (Cleaned × List ℕ × Db) → List Message
messages_left db none = db.messages
messages_left db (some (cleaned, samples, db')) = db'.messages

deletable-moves :
    (cutoff : ℕ) (o : Option Message)
    → may_move (state_of o) (state_of (passing (λ m. not (is_deletable cutoff m)) o)) ≡ true
deletable-moves cutoff none = refl
deletable-moves cutoff (some m) = elim (Bool-cases (is_deletable cutoff m)) [
  | inl old ↦ rw old (ground arith)
  | inr kept ↦ rw kept (stays (some m.delivery_state))
]

-- The state of a row does not depend on its parent.
orphans-state :
    (gone : List Message) (o : Option Message)
    → state_of (Option.map (λ m. if is_reply_to gone m then orphaned m else m) o) ≡ state_of o
orphans-state gone none = refl
orphans-state gone (some m) = elim (Bool-cases (is_reply_to gone m)) [
  | inl reply ↦ rw reply refl
  | inr other ↦ rw other refl
]

delete-Follows :
    (now : ℕ) (dry_run : Bool) (db : Db)
    → IsKeyed db.messages
    → Follows db.messages (messages_left db (cleanup_expired_messages now dry_run db))
unfolding cleanup_expired_messages
delete-Follows now true db keyed = Follows-refl db.messages keyed
delete-Follows now false db keyed =
    let kept : Message → Bool = λ m. not (is_deletable (now - days 7) m) in
    let deleted = ap (messages_left db) (cleanup_expired_messages_deletes now db keyed) in
    let gone = where_ (is_deletable (now - days 7)) db.messages in
    subst (Follows db.messages) (sym deleted) (
      update_where-IsKeyed (is_reply_to gone) orphaned (λ m. refl) (where_ kept db.messages)
          (where_-IsKeyed kept db.messages keyed),
      λ j.
          rw
            (
              find-update_where (is_reply_to gone) orphaned (λ m. refl) j (where_ kept db.messages),
              find-where_-passing j kept db.messages keyed,
              orphans-state gone (passing kept (find j db.messages)),
            )
            (deletable-moves (now - days 7) (find j db.messages)),
    )

step-Follows :
    {db db' : Db} → MessageStep db db' → IsKeyed db.messages → Follows db.messages db'.messages
step-Follows (claims now i expected from) keyed = claim_message-Follows now i expected _ from keyed
step-Follows {db} {db'} (settles now i to_agent attempt result m row state out) keyed =
    let key = find-key i db.messages m row in
    let routed =
      route-Follows now to_agent attempt result m db (ap (λ k. find k db.messages) key ∙ row) state
        keyed in
    subst (Follows db.messages)
      (ap (messages_or db)
        (ap (λ k. route_attempt_outcome now k to_agent attempt result db) key ∙ out))
      routed
step-Follows (recovers start now stale_seconds) keyed =
    recover-Follows start now stale_seconds _ keyed
step-Follows {db} (polls now_gate upd_now user addr q answer h) keyed =
    subst (Follows db.messages) (ap (messages_after db) h)
      (list_inbox-Follows now_gate upd_now user addr q db keyed)
step-Follows {db} (reads now user i m h) keyed =
    subst (Follows db.messages) (ap (messages_after db) h) (mark_read-Follows now user i db keyed)
step-Follows {db} (acks now user i m h) keyed =
    subst (Follows db.messages) (ap (messages_after db) h) (mark_acked-Follows now user i db keyed)
step-Follows (expires now dry_run) keyed = expire_old_messages-Follows now dry_run _ keyed
step-Follows {db} (deletes now dry_run cleaned samples h) keyed =
    subst (Follows db.messages) (ap (messages_left db) h) (delete-Follows now dry_run db keyed)
step-Follows (frees now dry_run) keyed = free_old_idempotency_keys-Follows now dry_run _ keyed

-- Whatever the tasks, the recovery, the handlers and the cleanup do, in whatever order and how often,
-- each message moves along the diagram: it is pushed, polled, read, acked or expired from a state in
-- which it may be, and it vanishes only when it is acked or expired. The identifiers are unique at
-- first, and the outcome of an attempt comes while its message is still delivering.
pub messages_refine :
    {db db' : Db}
    → MessageRun db db'
    → IsKeyed db.messages
    → (j : ℕ) → Moves (state_at j db) (state_at j db')
messages_refine stops keyed j = rests
messages_refine (goes_on step run) keyed j =
    let (keyed', moved) = step-Follows step keyed in moves (moved j) (messages_refine run keyed' j)

-- What may become of a terminal message: it stays, or it is gone.
abbrev pub IsLeft : DeliveryState → Option DeliveryState → Type 0
IsLeft s t = (t ≡ some s) ⊎ (t ≡ none)

false_ne_true : false ≡ true → ⊥
false_ne_true h = cc

terminal_same :
    (s t : DeliveryState) → is_terminal s ≡ true → may_move (some s) (some t) ≡ true → s ≡ t
terminal_same s t over step = ground arith

terminal_move :
    (s : DeliveryState) (o t : Option DeliveryState)
    → is_terminal s ≡ true
    → IsLeft s o
    → may_move o t ≡ true
    → IsLeft s t
terminal_move s o none over left step = inr refl
terminal_move s o (some t) over (inl e) step =
    let same : s ≡ t = terminal_same s t over (subst (λ x. may_move x (some t) ≡ true) e step) in
    inl (ap (λ x. some x) (sym same))
terminal_move s o (some t) over (inr e) step =
    absurd (false_ne_true (subst (λ x. may_move x (some t) ≡ true) e step))

terminal-Moves :
    {o t : Option DeliveryState} (s : DeliveryState)
    → Moves o t
    → is_terminal s ≡ true
    → IsLeft s o
    → IsLeft s t
terminal-Moves s rests over left = left
terminal-Moves s (moves step run) over left =
    terminal-Moves s run over (terminal_move s _ _ over left step)

-- If identifiers are unique at first and the outcome of an attempt comes while its message is still
-- delivering, a message that is acked or expired stays as acked or expired until it is deleted: no
-- push, retry, poll or receipt brings it back.
pub messages_terminal :
    {db db' : Db} (j : ℕ) (m : Message)
    → MessageRun db db'
    → IsKeyed db.messages
    → find j db.messages ≡ some m
    → is_terminal m.delivery_state ≡ true
    → IsLeft m.delivery_state (state_at j db')
messages_terminal j m run keyed row over =
    terminal-Moves m.delivery_state (messages_refine run keyed j) over (inl (ap state_of row))
