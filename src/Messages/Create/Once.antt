-- ===== src/Messages/Create/Once.antt =====
-- A message that is sent twice with one idempotency key.
use cueapi_core.Prelude.{
  ℕ, ◌-◌, ◌≡◌, ◌≤◌, ◌<◌, refl, sym, ap, ◌∙◌, Bool, true, false, String, Option, none, some, nat_eq,
  string_eq, if◌then◌else◌, ltb, first_where, arith, ==-refl,
}
use cueapi_core.Store.{Message, Agent, Db, days, truthy}
use cueapi_core.Executions.Answer.{Answer, answered}
use cueapi_core.Messages.Quota.{MessageRedis}
use cueapi_core.Messages.Draft.{Draft, Outside, SendCtx, Sent, is_recent, existing, admit}
use cueapi_core.Messages.Create.{dedup, send_message, rate_limits, create_message}
use cueapi_core.Messages.Create.Stores.{
  print_of, first_where-append, first_where-stronger, create_message-stores,
}

-- A later cutoff is the stronger test.
is_recent-older :
    (now now2 user : ℕ) (key : String)
    → now ≤ now2
    → (m : Message) → is_recent (now2 - days 1) user key m ≡ true
    → is_recent (now - days 1) user key m ≡ true
is_recent-older now now2 user key later m hit = ground arith

is_recent-stored :
    (ctx ctx2 : SendCtx) (user : ℕ) (key : String) (m : Message)
    → m.user_id ≡ user
    → m.idempotency_key ≡ some key
    → m.created_at ≡ ctx.now
    → ctx2.now - days 1 < ctx.now
    → is_recent (ctx2.now - days 1) user key m ≡ true
is_recent-stored ctx ctx2 user key m own stored time soon =
    let same_user = ==-refl user in
    let same_key = ==-refl key in
    let late : ltb (ctx2.now - days 1) ctx.now ≡ true = ground arith in
    rw (own, stored, time, same_user, same_key, late) refl

module _ (R : MessageRedis) (O : Outside) (user : ℕ) where
  open R use {State}

  -- Once a request with a key that is not empty has stored a message, a request of the user with that
  -- key that comes less than 24 hours later, by a clock that does not go back, and is admitted and
  -- within the rate limits, writes nothing to the database: with the same fingerprint it is answered
  -- with the stored message, and with another one, for instance because its priority has been lowered
  -- in between, it is refused with a 409.
  pub create_message_once :
      (ctx ctx2 : SendCtx) (d d2 : Draft) (from_agent from2 to2 : Agent) (reply2 : Option Agent)
      (priority2 : ℕ) (downgraded2 : Bool) (db db' : Db) (s s' s₂ s₃ : State) (sent : Sent)
      (key : String)
      → d.idempotency_key ≡ some key
      → d2.idempotency_key ≡ some key
      → truthy (some key) ≡ true
      → create_message R O ctx user d from_agent (db, s) ≡ (answered sent, db', s')
      → sent.was_dedup_hit ≡ false
      → ctx.now ≤ ctx2.now
      → ctx2.now - days 1 < ctx.now
      → admit O user d2 from2 db' ≡ answered (to2, reply2)
      → rate_limits R O ctx2 user from2 to2 d2.priority (db', s₂)
        ≡ (answered (priority2, downgraded2), s₃)
      → create_message R O ctx2 user d2 from2 (db', s₂) ≡ (
        dedup
            (some (print_of O d sent.message))
            (O.fingerprint to2.id d2.body d2.subject priority2 d2.reply_to d2.metadata)
            sent.message,
        db',
        s₃,
      )
  unfolding create_message send_message
  create_message_once ctx ctx2 d d2 from_agent from2 to2 reply2 priority2 downgraded2 db db' s s' s₂
        s₃ sent key keyed keyed2 filled first new later soon admitted limited =
      let (free, (messages, own, stored_key, time, print)) =
        create_message-stores R O user ctx d from_agent db db' s s' sent first new in
      let recent = is_recent (ctx.now - days 1) user key in
      let recent2 = is_recent (ctx2.now - days 1) user key in
      let free_key : first_where recent db.messages ≡ none =
        ap (λ o. existing (ctx.now - days 1) user o db.messages) (sym keyed) ∙ free in
      let none_before =
        first_where-stronger recent recent2 (is_recent-older ctx.now ctx2.now user key later)
          db.messages free_key in
      let is_there =
        is_recent-stored ctx ctx2 user key sent.message own (stored_key ∙ keyed) time soon in
      let found : existing (ctx2.now - days 1) user d2.idempotency_key db'.messages
          ≡ some sent.message =
        ap (λ o. existing (ctx2.now - days 1) user o db'.messages) keyed2
        ∙ ap (first_where recent2) messages
        ∙ first_where-append recent2 db.messages sent.message none_before is_there in
      let printed : sent.message.idempotency_fingerprint ≡ some (print_of O d sent.message) =
        print
        ∙ ap (λ o. if truthy o then some (print_of O d sent.message) else none) keyed
        ∙ ap (λ b. if b then some (print_of O d sent.message) else none) filled in
      let passed = ap (λ r. r.0) limited in
      let left : (rate_limits R O ctx2 user from2 to2 d2.priority (db', s₂)).1 ≡ s₃ =
        ap (λ r. r.1) limited in
      let print2 = O.fingerprint to2.id d2.body d2.subject priority2 d2.reply_to d2.metadata in
      let answer : Path (Answer Sent × Db × State)
          (dedup sent.message.idempotency_fingerprint print2 sent.message, db', s₃)
          (dedup (some (print_of O d sent.message)) print2 sent.message, db', s₃) =
        ap (λ f. (dedup f print2 sent.message, db', s₃)) printed in
      rw (create_message, admitted, passed, found, send_message, left) answer
