-- ===== src/Messages/Push/Settles.antt =====
-- A message task for a message in the state that it expects, and for one that is past it.
use cueapi_core.Prelude.{
  ℕ, ◌≡◌, ◌≢◌, ◌≤◌, refl, ap, ◌∙◌, Bool, true, false, String, some, List, [], ◌∷◌, ◌++◌, ◌==◌,
  nat_eq, if◌then◌else◌, find, find-update_row, find-update_where, find-key, IsKeyed,
  first_where-find, ==-refl, arith, Bool-cases, inl, inr,
}
use cueapi_core.Redis.{Redis}
use cueapi_core.Store.{
  DeliveryState, delivery_eq, Message, Db, message_keyed, agent_keyed, user_keyed,
}
use cueapi_core.Messages.Attempt.{
  AttemptResult, Request, Answered, deliver_message_to_webhook, last_time,
}
use cueapi_core.Messages.Attempt.Settled.{
  again, retry_row, routed, next_time, route_attempt_outcome_settles,
}
use cueapi_core.Messages.Push.{
  PushCtx, Loaded, message_claimable, message_claimed, claim_message, attempt_message,
}

key_test : (i : ℕ) (t : List Message) (m : Message) → find i t ≡ some m → (m.id == i) ≡ true
key_test i t m row = (nat_eq.same_iff m.id i).1 (find-key i t m row)

state_ne : (a b : DeliveryState) → a ≢ b → (a == b) ≡ false
state_ne a b ne = elim (Bool-cases (a == b)) [
  | inl same ↦ absurd (ne ((delivery_eq.same_iff a b).0 same))
  | inr other ↦ other
]

-- The claim of a message in the expected state.
pub claim_message-won :
    (now i : ℕ) (expected : DeliveryState) (db : Db) (m : Message)
    → IsKeyed db.messages
    → find i db.messages ≡ some m
    → m.delivery_state ≡ expected
    → ((claim_message now i expected db).0 ≡ true)
      × (find i (claim_message now i expected db).1.messages ≡ some (message_claimed now m))
unfolding claim_message
claim_message-won now i expected db m keyed row state =
    let same : (m.delivery_state == expected) ≡ true =
      (delivery_eq.same_iff m.delivery_state expected).1 state in
    let at_key = first_where-find i (λ x. x.delivery_state == expected) db.messages keyed in
    let update =
      find-update_where (message_claimable i expected) (message_claimed now) (λ x. refl) i
        db.messages in
    let here : (m.id == i) ≡ true = key_test i db.messages m row in
    (rw at_key (rw row (rw same refl)), update ∙ rw row (rw (here, same) refl))

-- The claim of a message in another state changes nothing for it.
pub claim_message-lost :
    (now i : ℕ) (expected : DeliveryState) (db : Db) (m : Message)
    → IsKeyed db.messages
    → find i db.messages ≡ some m
    → m.delivery_state ≢ expected
    → ((claim_message now i expected db).0 ≡ false)
      × (find i (claim_message now i expected db).1.messages ≡ some m)
unfolding claim_message
claim_message-lost now i expected db m keyed row ne =
    let other : (m.delivery_state == expected) ≡ false = state_ne m.delivery_state expected ne in
    let here : (m.id == i) ≡ true = key_test i db.messages m row in
    let at_key = first_where-find i (λ x. x.delivery_state == expected) db.messages keyed in
    let update =
      find-update_where (message_claimable i expected) (message_claimed now) (λ x. refl) i
        db.messages in
    (rw at_key (rw row (rw other refl)), update ∙ rw row (rw (here, other) refl))

pub claim_message-tables :
    (now i : ℕ) (expected : DeliveryState) (db : Db)
    → let db' = (claim_message now i expected db).1 in
      (db'.outbox ≡ db.outbox) × (db'.agents ≡ db.agents) × (db'.users ≡ db.users)
unfolding claim_message
claim_message-tables now i expected db = (refl, refl, refl)

routed-keeps :
    (now attempt : ℕ) (result : AttemptResult) (x : Message)
    → (routed now attempt result x).id ≡ x.id
routed-keeps now attempt result x = ground arith

nat_refl : (i : ℕ) → (i == i) ≡ true
nat_refl i = ==-refl i

module _ (R : Redis) (allowed : String → Bool) (post : Request → Answered) (ctx : PushCtx)
    (expected : DeliveryState) (l : Loaded) (attempt : ℕ) (db : Db) (m : Message)
    (keyed : IsKeyed db.messages) (row : find l.msg.id db.messages ≡ some m) where
  -- A task that wins its claim, whose attempt gives a result, and whose next time can be written as a
  -- datetime, leaves the outcome of its attempt in the row of the message, whatever the row has become while
  -- the call ran, as long as it is there: if the recipient has read or acked the message by then, that is
  -- overwritten. A retry is scheduled exactly if the attempt calls for one.
  pub attempt_message_settles :
      (result : AttemptResult) (now' : Message)
      → m.delivery_state ≡ expected
      → deliver_message_to_webhook allowed post
          (message_claimed ctx.start m)
          l.from_agent
          l.to_agent
          l.user.slug
          attempt
        ≡ some result
      → next_time ctx.finish attempt result ≤ last_time
      → let claimed = (claim_message ctx.start l.msg.id expected db).1 in
        find l.msg.id (ctx.meanwhile claimed).messages ≡ some now'
        → let db' = attempt_message R allowed post ctx expected l attempt db in
          (find l.msg.id db'.messages ≡ some (routed ctx.finish attempt result now'))
          × (db'.outbox ≡ (
              if again attempt result
              then (ctx.meanwhile claimed).outbox
                ++ retry_row ctx.finish l.msg.id l.to_agent attempt result (ctx.meanwhile claimed)
                  ∷ []
              else (ctx.meanwhile claimed).outbox))
          × (db'.agents ≡ (ctx.meanwhile claimed).agents)
          × (db'.users ≡ (ctx.meanwhile claimed).users)
  unfolding attempt_message
  attempt_message_settles result now' state sent soon seen =
      let i = l.msg.id in
      let (won, claimed_row) = claim_message-won ctx.start i expected db m keyed row state in
      let during = ctx.meanwhile (claim_message ctx.start i expected db).1 in
      let (db', routes, messages, outbox, agents, users) =
        route_attempt_outcome_settles ctx.finish i l.to_agent attempt result during soon in
      let update =
        find-update_row i i (routed ctx.finish attempt result)
          (routed-keeps ctx.finish attempt result) during.messages in
      let at_row : find i db'.messages ≡ some (routed ctx.finish attempt result now') =
        ap (find i) messages ∙ update ∙ rw seen (rw (nat_refl i) refl) in
      rw (won, claimed_row, sent, routes) (at_row, outbox, agents, users)

  -- A task that finds the message in another state does nothing to it, and sends nothing.
  pub attempt_message_loses :
      m.delivery_state ≢ expected
      → let db' = attempt_message R allowed post ctx expected l attempt db in
        (find l.msg.id db'.messages ≡ some m)
        × (db'.outbox ≡ db.outbox)
        × (db'.agents ≡ db.agents)
        × (db'.users ≡ db.users)
  unfolding attempt_message
  attempt_message_loses other =
      let (lost, kept) = claim_message-lost ctx.start l.msg.id expected db m keyed row other in
      let (outbox, agents, users) = claim_message-tables ctx.start l.msg.id expected db in
      rw lost (kept, outbox, agents, users)
