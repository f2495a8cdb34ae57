-- ===== src/Messages/Create/Stores.antt =====
-- What create_message stores.
use cueapi_core.Prelude.{
  ℕ, ◌-◌, ◌≡◌, ◌⊎◌, refl, sym, ap, subst, ◌∙◌, Bool, true, false, String, Option, none, some, List,
  [], ◌∷◌, ◌++◌, ◌==◌, nat_eq, string_eq, if◌then◌else◌, first_where, arith, Bool-cases,
  Option-cases, inl, inr,
}
use cueapi_core.Store.{Message, Agent, Db, days, truthy}
use cueapi_core.Executions.Answer.{Answer, refused, answered}
use cueapi_core.Messages.Quota.{
  MessageRedis, get_user_plan_and_msg_limit, check_message_quota, increment_monthly_count,
}
use cueapi_core.Messages.Draft.{
  Draft, Outside, SendCtx, Sent, existing, violates, resolve_reply_to, new_message, insert_message,
  admit,
}
use cueapi_core.Messages.Create.{
  quota_passed, dedup, store_message, send_message, deduplicated, rate_limits, create_message,
}

true_ne_false : true ≡ false → ⊥
true_ne_false h = cc

refused_ne_answered {ℓ} :
    {A : Type ℓ} (status : ℕ) (code : String) (a : A)
    → ◌≡◌ {A = Answer A} (refused status code) (answered a)
    → ⊥
refused_ne_answered status code a h = cc

Answer-cases {ℓ} :
    {A : Type ℓ} (x : Answer A)
    → ((status : ℕ) × (code : String) × (x ≡ refused status code)) ⊎ ((a : A) × (x ≡ answered a))
Answer-cases (refused status code) = inl (status, code, refl)
Answer-cases (answered a) = inr (a, refl)

abbrev sent_of : Sent → Answer Sent → Sent
sent_of d (refused status code) = d
sent_of d (answered sent) = sent

module _ {ℓ} {A : Type ℓ} where
  pub first_where-append :
      (p : A → Bool) (t : List A) (x : A)
      → first_where p t ≡ none
      → p x ≡ true
      → first_where p (t ++ x ∷ []) ≡ some x
  unfolding first_where
  first_where-append p [] x h hit = rw hit refl
  first_where-append p (y ∷ t) x h hit = ground (arith, first_where-append p t x)

  first_where-none :
      (p : A → Bool) (x : A) (t : List A)
      → first_where p (x ∷ t) ≡ none
      → (p x ≡ false) × (first_where p t ≡ none)
  unfolding first_where
  first_where-none p x t h = ground arith

  -- A stronger test finds nothing either.
  pub first_where-stronger :
      (p q : A → Bool)
      → ((x : A) → q x ≡ true → p x ≡ true)
      → (t : List A) → first_where p t ≡ none
      → first_where q t ≡ none
  unfolding first_where
  first_where-stronger p q implies [] h = refl
  first_where-stronger p q implies (x ∷ t) h =
      let (fails, rest) = first_where-none p x t h in
      elim (Bool-cases (q x)) [
        | inl hit ↦ absurd (true_ne_false (sym (implies x hit) ∙ fails))
        | inr miss ↦ rw miss (first_where-stronger p q implies t rest)
      ]

insert_message-messages :
    (ctx : SendCtx) (d : Draft) (from_agent to_agent : Agent) (m : Message) (db : Db)
    → (insert_message ctx d from_agent to_agent m db).messages ≡ db.messages ++ m ∷ []
unfolding insert_message
insert_message-messages ctx d from_agent to_agent m db = ground arith

-- The fingerprint of a message that a draft has become.
abbrev pub print_of : Outside → Draft → Message → String
print_of O d m = O.fingerprint m.to_agent_id d.body d.subject m.priority d.reply_to d.metadata

module _ (R : MessageRedis) (O : Outside) (user : ℕ) where
  open R use {State}

  increment_monthly_count-messages :
      (now month : ℕ) (durable : Bool) (db : Db) (s : State)
      → (increment_monthly_count R now month user durable (db, s)).0.messages ≡ db.messages
  unfolding increment_monthly_count
  increment_monthly_count-messages now month durable db s = ground arith

  -- A new message with a key is stored under it.
  abbrev pub IsStored : SendCtx → Draft → Db → Sent → Db → Type 0
  IsStored ctx d db sent db' =
      (db'.messages ≡ db.messages ++ sent.message ∷ [])
      × (sent.message.user_id ≡ user)
      × (sent.message.idempotency_key ≡ d.idempotency_key)
      × (sent.message.created_at ≡ ctx.now)
      × (sent.message.idempotency_fingerprint
          ≡ (if truthy d.idempotency_key then some (print_of O d sent.message) else none))

  store_message-stores :
      (ctx : SendCtx) (d : Draft) (from_agent to_agent : Agent) (reply_agent : Option Agent)
      (priority : ℕ) (downgraded : Bool) (quota : Answer ℕ) (db db' : Db) (s s' : State)
      (sent : Sent)
      → store_message R O ctx user d from_agent to_agent reply_agent priority downgraded quota
          (db, s)
        ≡ (answered sent, db', s')
      → IsStored ctx d db sent db'
  unfolding store_message
  store_message-stores ctx d from_agent to_agent reply_agent priority downgraded
        (refused status code) db db' s s' sent h =
      absurd (refused_ne_answered status code sent (ap (λ r. r.0) h))
  store_message-stores ctx d from_agent to_agent reply_agent priority downgraded (answered n) db db'
        s s' sent h =
      elim (Answer-cases (resolve_reply_to d.reply_to db)) [
        | inl (status, code, e) ↦
            absurd
              (refused_ne_answered status code sent (ap (λ r. r.0) (rw (store_message, e) at h)))
        | inr (parent, e) ↦ elim (Bool-cases (violates user d.idempotency_key db.messages)) [
          | inl twice ↦ absurd (
              refused_ne_answered 500 "internal_error" sent
                (ap (λ r. r.0) (rw (store_message, e, twice) at h)))
          | inr new ↦
              let m = new_message O ctx user d from_agent to_agent reply_agent priority parent in
              let stored = insert_message ctx d from_agent to_agent m db in
              let after =
                (increment_monthly_count R ctx.now ctx.month user ctx.durable (stored, s)).0 in
              let messages =
                increment_monthly_count-messages ctx.now ctx.month ctx.durable stored s
                ∙ insert_message-messages ctx d from_agent to_agent m db in
              let made : Sent = record {
                message = m;
                was_dedup_hit = false;
                priority_downgraded = downgraded;
              } in
              let same_sent : made ≡ sent =
                ap (λ r. sent_of sent r.0) (rw (store_message, e, new) at h) in
              let same_db : after ≡ db' = ap (λ r. r.1) (rw (store_message, e, new) at h) in
              let base : IsStored ctx d db made after = (messages, refl, refl, refl, refl) in
              subst (λ x. IsStored ctx d db x db') same_sent
                (subst (λ y. IsStored ctx d db made y) same_db base)
        ]
      ]

  dedup-hit :
      (f : Option String) (print : String) (e : Message) (sent : Sent)
      → dedup f print e ≡ answered sent
      → sent.was_dedup_hit ≡ true
  dedup-hit none print e sent h = absurd (refused_ne_answered 409 "idempotency_key_conflict" sent h)
  dedup-hit (some f) print e sent h = elim (Bool-cases (f == print)) [
    | inl same ↦ ap (λ x. x.was_dedup_hit) (sym (ap (sent_of sent) (rw same at h)))
    | inr other ↦ absurd (refused_ne_answered 409 "idempotency_key_conflict" sent (rw other at h))
  ]

  deduplicated-stores :
      (ctx : SendCtx) (d : Draft) (from_agent to_agent : Agent) (reply_agent : Option Agent)
      (priority : ℕ) (downgraded : Bool) (db db' : Db) (s s' : State) (sent : Sent)
      → deduplicated R O ctx user d from_agent to_agent reply_agent priority downgraded (db, s)
        ≡ (answered sent, db', s')
      → sent.was_dedup_hit ≡ false
      → (existing (ctx.now - days 1) user d.idempotency_key db.messages ≡ none)
        × IsStored ctx d db sent db'
  unfolding send_message
  deduplicated-stores ctx d from_agent to_agent reply_agent priority downgraded db db' s s' sent h
        new =
      elim (Option-cases (existing (ctx.now - days 1) user d.idempotency_key db.messages)) [
        | inl free ↦
            let (_, limit) = get_user_plan_and_msg_limit user db in
            let (quota, s₁) =
              quota_passed ctx.disable_quota
                (check_message_quota R ctx.now ctx.month user limit (db, s)) s in
            (
              free,
              store_message-stores ctx d from_agent to_agent reply_agent priority downgraded quota
                  db db' s₁ s' sent (rw (send_message, free) at h),
            )
        | inr (e, taken) ↦
            let hit =
              dedup-hit e.idempotency_fingerprint
                (O.fingerprint to_agent.id d.body d.subject priority d.reply_to d.metadata) e sent
                (ap (λ r. r.0) (rw (send_message, taken) at h)) in
            absurd (true_ne_false (sym hit ∙ new))
      ]

  pub create_message-stores :
      (ctx : SendCtx) (d : Draft) (from_agent : Agent) (db db' : Db) (s s' : State) (sent : Sent)
      → create_message R O ctx user d from_agent (db, s) ≡ (answered sent, db', s')
      → sent.was_dedup_hit ≡ false
      → (existing (ctx.now - days 1) user d.idempotency_key db.messages ≡ none)
        × IsStored ctx d db sent db'
  unfolding create_message
  create_message-stores ctx d from_agent db db' s s' sent h new =
      elim (Answer-cases (admit O user d from_agent db)) [
        | inl (status, code, e) ↦
            absurd
              (refused_ne_answered status code sent (ap (λ r. r.0) (rw (create_message, e) at h)))
        | inr ((to_agent, reply_agent), e) ↦
            let s₁ = (rate_limits R O ctx user from_agent to_agent d.priority (db, s)).1 in
            elim (Answer-cases
              (rate_limits R O ctx user from_agent to_agent d.priority (db, s)).0) [
                | inl (status, code, l) ↦ absurd (
                    refused_ne_answered status code sent
                      (ap (λ r. r.0) (rw (create_message, e, l) at h)))
                | inr ((priority, downgraded), l) ↦
                    deduplicated-stores ctx d from_agent to_agent reply_agent priority downgraded db
                      db' s₁ s' sent (rw (create_message, e, l) at h) new
              ]
      ]
