-- ===== src/Messages/Push/Holds.antt =====
-- What a message task needs of the database, and what its parts keep of it.
use cueapi_core.Prelude.{
  ℕ, ◌≡◌, ◌≤◌, ◌<◌, ◌⊎◌, refl, sym, subst, true, String, some, ◌==◌, nat_eq, or_else, find, IsKeyed,
  update_where, update_where-IsKeyed, arith, Bool-cases, inl, inr, update_row,
}
use cueapi_core.Redis.{Redis}
use cueapi_core.Store.{
  DeliveryState, delivery_eq, TaskType, Message, Agent, User, MessageTask, Db, message_keyed,
  agent_keyed, user_keyed,
}
use cueapi_core.Messages.Classify.{is_success}
use cueapi_core.Messages.Attempt.{AttemptResult, route_attempt_outcome, last_time}
use cueapi_core.Messages.Attempt.Settled.{again, routed, next_time, route_attempt_outcome_settles}
use cueapi_core.Messages.Push.{
  PushCtx, load_message_context, message_claimable, message_claimed, claim_message, check_cap,
}

-- A message that is delivered or failed.
abbrev pub IsOver : DeliveryState → Type 0
IsOver s = (s ≡ DeliveryState.delivered) ⊎ (s ≡ DeliveryState.failed)

-- After n attempts: over, or waiting for one of the attempts that are left.
abbrev pub Progress : ℕ → DeliveryState → Type 0
Progress n s = IsOver s ⊎ ((s ≡ DeliveryState.retry_ready) × (n < 4))

pub routed-Progress :
    (now attempt : ℕ) (result : AttemptResult) (m : Message)
    → Progress attempt (routed now attempt result m).delivery_state
routed-Progress now attempt result m =
    elim (Bool-cases (is_success result.classification.category)) [
      | inl ok ↦ rw ok (inl (inl refl))
      | inr bad ↦ elim (Bool-cases (again attempt result)) [
        | inl more ↦ rw (bad, more) (inr (refl, ground arith))
        | inr last ↦ rw (bad, last) (inl (inr refl))
      ]
    ]

-- What a task needs of the database.
pub record Holds (i to : ℕ) (a f : Agent) (u : User) (db : Db) (m : Message) : Type 0 where
  pub keyed : IsKeyed db.messages
  pub row : find i db.messages ≡ some m
  pub to_row : find to db.agents ≡ some a
  pub from_row : find m.from_agent_id db.agents ≡ some f
  pub user_row : find m.user_id db.users ≡ some u

pub routed-id :
    (now attempt : ℕ) (result : AttemptResult) (x : Message)
    → (routed now attempt result x).id ≡ x.id
routed-id now attempt result x = ground arith

pub routed-parties :
    (now attempt : ℕ) (result : AttemptResult) (x : Message)
    → let y = routed now attempt result x in
      (y.from_agent_id ≡ x.from_agent_id) × (y.user_id ≡ x.user_id)
routed-parties now attempt result x = ground arith

pub loads :
    (i to : ℕ) (a f : Agent) (u : User) (url : String) (db : Db) (m : Message)
    → a.webhook_url ≡ some url
    → Holds i to a f u db m
    → load_message_context i to db
      ≡ some (record { msg = m; to_agent = a; from_agent = f; user = u })
unfolding load_message_context
loads i to a f u url db m has h = rw (h.row, h.to_row, has, h.from_row, h.user_row) refl

pub check_cap-db :
    (R : Redis) (ctx : PushCtx) (user : ℕ) (task : TaskType) (p : MessageTask) (db : Db)
    (s : R.State)
    → (check_cap R ctx user task p (db, s)).0 ≡ true
    → (check_cap R ctx user task p (db, s)).2 ≡ db
unfolding check_cap
check_cap-db R ctx user task p db s h = ground arith

pub claim-IsKeyed :
    (now i : ℕ) (expected : DeliveryState) (db : Db)
    → IsKeyed db.messages
    → IsKeyed (claim_message now i expected db).1.messages
unfolding claim_message
claim-IsKeyed now i expected db keyed =
    update_where-IsKeyed (message_claimable i expected) (message_claimed now) (λ x. refl)
      db.messages keyed

pub route-IsKeyed :
    (now i : ℕ) (a : Agent) (attempt : ℕ) (result : AttemptResult) (db : Db)
    → IsKeyed db.messages
    → next_time now attempt result ≤ last_time
    → IsKeyed (or_else (route_attempt_outcome now i a attempt result db) db).messages
unfolding update_row update_where
route-IsKeyed now i a attempt result db keyed soon =
    let (db', routes, messages, rest, agents, users) =
      route_attempt_outcome_settles now i a attempt result db soon in
    rw routes (
      subst IsKeyed (sym messages) (
        update_where-IsKeyed (λ x. x.id == i) (routed now attempt result)
          (routed-id now attempt result) db.messages keyed))
