-- ===== src/Messages/Inbox/Polled.antt =====
-- A poll of the inbox: its page, and what it does to the messages.
use mathlib.Core.Option
use cueapi_core.Prelude.{
  ℕ, zero, suc, ◌≡◌, ◌≢◌, ◌≤◌, refl, sym, ap, subst, ◌∙◌, Bool, true, false, Option, none, some,
  List, [], ◌∷◌, ◌==◌, nat_eq, if◌then◌else◌, All, find, where_, take, update_where,
  find-update_where, take-All, where_-All, arith, Bool-cases, inl, inr, count_where,
}
use cueapi_core.Store.{DeliveryState, delivery_eq, Message, Agent, Db, message_keyed}
use cueapi_core.Executions.Answer.{Answer, refused, answered}
use cueapi_core.Messages.Address.{Addr, get_agent_owned}
use cueapi_core.Messages.Receipts.{and_then}
use cueapi_core.Messages.Inbox.{
  Query, Listing, page, parse_state_filter, default_states, any_state, is_due, is_opt, is_newer,
  insert_newest, newest_first, drop, listing, counterpart_id, in_inbox, is_polled, message_polled,
  poll_inbox, list_inbox,
}

-- A handler that answers has gone through.
and_then-answered {ℓ κ} :
    {A : Type ℓ} {B : Type κ} (x : Answer A) (f : A → Answer B) (b : B)
    → and_then x f ≡ answered b
    → (a : A) × (x ≡ answered a) × (f a ≡ answered b)
and_then-answered (refused status code) f b h = cc
and_then-answered (answered a) f b h = (a, refl, h)

-- The selection from an updated table.
module _ {ℓ κ} {A : Type ℓ} (P : A → Type κ) (p f : A → Bool) (g : A → A)
    (changed : (x : A) → p x ≡ true → f (g x) ≡ true → P (g x))
    (same : (x : A) → p x ≡ false → f x ≡ true → P x) where
  where_-update_where-All : (t : List A) → All P (where_ f (update_where p g t))
  unfolding where_ update_where
  where_-update_where-All [] = tt
  where_-update_where-All (x ∷ t) =
      let rest = where_-update_where-All t in
      elim (Bool-cases (p x)) [
        | inl hit ↦ rw hit (elim (Bool-cases (f (g x))) [
          | inl kept ↦ rw kept (changed x hit kept, rest)
          | inr gone ↦ rw gone rest
        ])
        | inr miss ↦ rw miss (elim (Bool-cases (f x)) [
          | inl kept ↦ rw kept (same x miss kept, rest)
          | inr gone ↦ rw gone rest
        ])
      ]

module _ {κ} (P : Message → Type κ) where
  insert_newest-All : (a : Message) (t : List Message) → P a → All P t → All P (insert_newest a t)
  unfolding insert_newest
  insert_newest-All a [] p h = (p, tt)
  insert_newest-All a (x ∷ t) p h = elim (Bool-cases (is_newer a x)) [
    | inl newer ↦ rw newer (p, h)
    | inr older ↦ rw older (h.0, insert_newest-All a t p h.1)
  ]

  newest_first-All : (t : List Message) → All P t → All P (newest_first t)
  unfolding newest_first
  newest_first-All [] h = tt
  newest_first-All (x ∷ t) h = insert_newest-All x (newest_first t) h.0 (newest_first-All t h.1)

  drop-All : (n : ℕ) (t : List Message) → All P t → All P (drop n t)
  drop-All zero t h = h
  drop-All (suc n) [] h = tt
  drop-All (suc n) (x ∷ t) h = drop-All n t h.1

-- What the recipient is to see of a message of the page.
abbrev pub IsShown : ℕ → ℕ → Message → Type 0
IsShown now_gate agent m =
    (m.to_agent_id ≡ agent) × (m.delivery_state ≢ DeliveryState.queued) × (is_due now_gate m ≡ true)

-- What the poll does to a message.
abbrev pub delivered_by : ℕ → ℕ → Option ℕ → Message → Message
delivered_by upd_now agent other m =
    if is_polled upd_now agent other m then message_polled upd_now m else m

abbrev pub after_poll : ℕ → ℕ → List DeliveryState → Option ℕ → Message → Message
after_poll upd_now agent states other =
    if any_state DeliveryState.queued states then delivered_by upd_now agent other else λ m. m

-- The page and the rows of the table after a poll.
abbrev pub IsPoll : ℕ → ℕ → ℕ → List DeliveryState → Query → Option ℕ → Db → Listing × Db → Type 0
IsPoll now_gate upd_now agent states q other db (answer, db') =
    (rows : List Message) × (answer
      ≡ page rows (count_where (in_inbox now_gate agent states q other) db'.messages) q.limit
          q.offset)
    × All (IsShown now_gate agent) rows
    × ((j : ℕ)
        → find j db'.messages
          ≡ Option.map (after_poll upd_now agent states other) (find j db.messages))

abbrev answer_of {ℓ} : {A : Type ℓ} → A → Answer A → A
answer_of d (refused status code) = d
answer_of d (answered a) = a

map-id {ℓ} : {A : Type ℓ} (o : Option A) → o ≡ Option.map (λ x. x) o
map-id none = refl
map-id (some a) = refl

module _ (now_gate upd_now agent : ℕ) (states : List DeliveryState) (q : Query) (other : Option ℕ)
    (later : now_gate ≤ upd_now) where
  due-later : (m : Message) → is_due now_gate m ≡ true → is_due upd_now m ≡ true
  due-later m h = ground arith

  in_inbox-parts :
      (m : Message)
      → in_inbox now_gate agent states q other m ≡ true
      → ((m.to_agent_id == agent) ≡ true)
        × (any_state m.delivery_state states ≡ true)
        × (is_due now_gate m ≡ true)
        × (is_opt other m.from_agent_id ≡ true)
  in_inbox-parts m h = (ground arith, ground arith, ground arith, ground arith)

  polled-IsShown :
      (m : Message)
      → is_polled upd_now agent other m ≡ true
      → in_inbox now_gate agent states q other (message_polled upd_now m) ≡ true
      → IsShown now_gate agent (message_polled upd_now m)
  polled-IsShown m polled kept =
      let (to, _, due, _) = in_inbox-parts (message_polled upd_now m) kept in
      ((nat_eq.same_iff m.to_agent_id agent).0 to, λ e. cc, due)

  rest-IsShown :
      (m : Message)
      → is_polled upd_now agent other m ≡ false
      → in_inbox now_gate agent states q other m ≡ true
      → IsShown now_gate agent m
  rest-IsShown m skipped kept =
      let (to, _, due, from) = in_inbox-parts m kept in
      let due' = due-later m due in
      (
        (nat_eq.same_iff m.to_agent_id agent).0 to,
        λ e.
            let queued : (m.delivery_state == DeliveryState.queued) ≡ true =
              (delivery_eq.same_iff m.delivery_state DeliveryState.queued).1 e in
            let polled : is_polled upd_now agent other m ≡ true =
              rw (to, queued, due', from) refl in
            cc,
        due,
      )

  -- A poll that leaves out the queued messages delivers none, and shows none.
  kept-IsShown :
      any_state DeliveryState.queued states ≡ false
      → (m : Message) → in_inbox now_gate agent states q other m ≡ true
      → IsShown now_gate agent m
  kept-IsShown out m kept =
      let (to, state, due, _) = in_inbox-parts m kept in
      (
        (nat_eq.same_iff m.to_agent_id agent).0 to,
        λ e. let asked = ap (λ s. any_state s states) (sym e) ∙ state in cc,
        due,
      )

  page-All :
      (t : List Message)
      → All (IsShown now_gate agent) (where_ (in_inbox now_gate agent states q other) t)
      → All (IsShown now_gate agent) (
          take q.limit
            (drop q.offset (newest_first (where_ (in_inbox now_gate agent states q other) t))))
  page-All t h =
      let P = IsShown now_gate agent in
      let rows = where_ (in_inbox now_gate agent states q other) t in
      take-All P q.limit (drop q.offset (newest_first rows))
        (drop-All P q.offset (newest_first rows) (newest_first-All P rows h))

  poll_inbox-shows :
      (db : Db)
      → q.count_only ≡ false
      → IsPoll now_gate upd_now agent states q other db
          (poll_inbox now_gate upd_now agent states q other db)
  unfolding poll_inbox listing
  poll_inbox-shows db whole = elim (Bool-cases (any_state DeliveryState.queued states)) [
    | inl asked ↦
        rw (whole, asked)
          (
            _,
            refl,
            page-All
                (update_where (is_polled upd_now agent other) (message_polled upd_now) db.messages)
                (where_-update_where-All (IsShown now_gate agent) (is_polled upd_now agent other)
                  (in_inbox now_gate agent states q other) (message_polled upd_now) polled-IsShown
                  rest-IsShown db.messages),
            λ j.
                find-update_where (is_polled upd_now agent other) (message_polled upd_now)
                  (λ x. refl) j db.messages,
          )
    | inr out ↦
        rw (whole, out)
          (
            _,
            refl,
            page-All db.messages (
                where_-All (IsShown now_gate agent) (in_inbox now_gate agent states q other)
                  db.messages (λ m row kept. kept-IsShown out m kept)),
            λ j. map-id (find j db.messages),
          )
  ]

-- A poll that is answered with a page is one by the owner of the agent. The page shows only messages
-- for that agent that are due, and none of them is queued: what was queued is delivered first. If the
-- filter has the queued messages, the poll delivers every queued message for the agent (from the
-- counterpart, if one is asked for) that is due, whatever the limit, the thread and the time asked
-- for; otherwise none. No other message changes.
pub list_inbox_delivers :
    (now_gate upd_now user : ℕ) (addr : Addr) (q : Query) (db db' : Db) (answer : Listing)
    → now_gate ≤ upd_now
    → q.count_only ≡ false
    → list_inbox now_gate upd_now user addr q db ≡ answered (answer, db')
    → (agent : Agent) × (states : List DeliveryState) × (other : Option ℕ) × (get_agent_owned user
          addr true db
        ≡ answered agent)
      × (parse_state_filter q.states default_states ≡ answered states)
      × (counterpart_id q.counterpart db ≡ answered other)
      × IsPoll now_gate upd_now agent.id states q other db (answer, db')
unfolding list_inbox
list_inbox_delivers now_gate upd_now user addr q db db' answer later whole h =
    let (agent, owned, h1) =
      and_then-answered (get_agent_owned user addr true db) _ (answer, db') h in
    let (states, parsed, h2) =
      and_then-answered (parse_state_filter q.states default_states) _ (answer, db') h1 in
    let (other, resolved, h3) =
      and_then-answered (counterpart_id q.counterpart db) _ (answer, db') h2 in
    let polled = poll_inbox-shows now_gate upd_now agent.id states q other later db whole in
    let same = ap (answer_of (answer, db')) h3 in
    (
      agent,
      states,
      other,
      owned,
      parsed,
      resolved,
      subst (IsPoll now_gate upd_now agent.id states q other db) same polled,
    )
