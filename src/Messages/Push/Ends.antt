-- ===== src/Messages/Push/Ends.antt =====
-- A first delivery and the retries that it schedules, one after the other.
use cueapi_core.Prelude.{
  ℕ, zero, suc, ◌≡◌, ◌≢◌, ◌≤◌, sym, ap, ◌∙◌, Bool, true, String, none, some, nat_eq, find, find-key,
  IsKeyed, arith, inl, inr,
}
use cueapi_core.Redis.{Redis}
use cueapi_core.Store.{
  DeliveryState, delivery_eq, TaskType, Message, Agent, User, MessageTask, Db, message_keyed,
  agent_keyed, user_keyed,
}
use cueapi_core.Messages.Attempt.{
  AttemptResult, Request, Answered, deliver_message_to_webhook, last_time,
}
use cueapi_core.Messages.Attempt.Settled.{routed, next_time}
use cueapi_core.Messages.Push.{
  PushCtx, Loaded, load_message_context, message_claimed, claim_message, check_cap, attempt_message,
  run_message_task, deliver_message_task, retry_message_task,
}
use cueapi_core.Messages.Push.Settles.{
  attempt_message_settles, attempt_message_loses, claim_message-won, claim_message-lost,
  claim_message-tables,
}
use cueapi_core.Messages.Push.Holds.{
  IsOver, Progress, Holds, routed-Progress, routed-parties, loads, check_cap-db, claim-IsKeyed,
  route-IsKeyed,
}

-- Rounds k = 0, 1, ... run in the contexts that `at_round` gives.
module _ (R : Redis) (allowed : String → Bool) (post : Request → Answered) (at_round : ℕ → PushCtx)
    (quiet : (k : ℕ) (db : Db) → (at_round k).meanwhile db ≡ db)
    (free : (k user : ℕ) (task : TaskType) (p : MessageTask) (x : Db × R.State)
      → (check_cap R (at_round k) user task p x).0 ≡ true)
    (i to : ℕ) (a f : Agent) (u : User) (url : String) (has : a.webhook_url ≡ some url)
    (calls : (k : ℕ) (m : Message)
      → (result : AttemptResult) × (deliver_message_to_webhook allowed post m f a u.slug (suc k)
          ≡ some result)
        × (next_time (at_round k).finish (suc k) result ≤ last_time)) where
  attempts-IsKeyed :
      (k : ℕ) (expected : DeliveryState) (db : Db) (m : Message)
      → IsKeyed db.messages
      → find m.id db.messages ≡ some m
      → m.delivery_state ≡ expected
      → let l : Loaded = record { msg = m; to_agent = a; from_agent = f; user = u } in
        IsKeyed (attempt_message R allowed post (at_round k) expected l (suc k) db).messages
  unfolding attempt_message
  attempts-IsKeyed k expected db m keyed row state =
      let ctx = at_round k in
      let (result, sent, soon) = calls k (message_claimed ctx.start m) in
      let (won, claimed_row) = claim_message-won ctx.start m.id expected db m keyed row state in
      let claimed = (claim_message ctx.start m.id expected db).1 in
      let still = claim-IsKeyed ctx.start m.id expected db keyed in
      rw (won, claimed_row, sent, quiet k claimed)
        (route-IsKeyed ctx.finish m.id a (suc k) result claimed still soon)

  attempts :
      (k : ℕ) (expected : DeliveryState) (db : Db) (m : Message)
      → Holds i to a f u db m
      → m.delivery_state ≡ expected
      → let l : Loaded = record { msg = m; to_agent = a; from_agent = f; user = u } in
        let db' = attempt_message R allowed post (at_round k) expected l (suc k) db in
        (m' : Message) × Holds i to a f u db' m' × Progress (suc k) m'.delivery_state
  attempts k expected db m h state =
      let ctx = at_round k in
      let l : Loaded = record { msg = m; to_agent = a; from_agent = f; user = u } in
      let now' = message_claimed ctx.start m in
      let (result, sent, soon) = calls k now' in
      let key = find-key i db.messages m h.row in
      let row = ap (λ j. find j db.messages) key ∙ h.row in
      let claimed = (claim_message ctx.start m.id expected db).1 in
      let (won, claimed_row) = claim_message-won ctx.start m.id expected db m h.keyed row state in
      let seen = ap (λ (d : Db). find m.id d.messages) (quiet k claimed) ∙ claimed_row in
      let db' = attempt_message R allowed post ctx expected l (suc k) db in
      let (after, outbox, agents, users) =
        attempt_message_settles R allowed post ctx expected l (suc k) db m h.keyed row result now'
          state sent soon seen in
      let (_, same_agents, same_users) = claim_message-tables ctx.start m.id expected db in
      let all_agents = agents ∙ ap (λ (d : Db). d.agents) (quiet k claimed) ∙ same_agents in
      let all_users = users ∙ ap (λ (d : Db). d.users) (quiet k claimed) ∙ same_users in
      let m' = routed ctx.finish (suc k) result now' in
      let (same_from, same_user) = routed-parties ctx.finish (suc k) result now' in
      let holds : Holds i to a f u db' m' = record {
        keyed = attempts-IsKeyed k expected db m h.keyed row state;
        row = ap (λ j. find j db'.messages) (sym key) ∙ after;
        to_row = ap (find to) all_agents ∙ h.to_row;
        from_row =
            ap (λ j. find j db'.agents) same_from
            ∙ ap (find m.from_agent_id) all_agents
            ∙ h.from_row;
        user_row =
            ap (λ j. find j db'.users) same_user ∙ ap (find m.user_id) all_users ∙ h.user_row;
      } in
      (m', holds, routed-Progress ctx.finish (suc k) result now')

  passes-IsKeyed :
      (k n : ℕ) (expected : DeliveryState) (db : Db) (m : Message)
      → IsKeyed db.messages
      → find m.id db.messages ≡ some m
      → m.delivery_state ≢ expected
      → let l : Loaded = record { msg = m; to_agent = a; from_agent = f; user = u } in
        IsKeyed (attempt_message R allowed post (at_round k) expected l n db).messages
  unfolding attempt_message
  passes-IsKeyed k n expected db m keyed row other =
      let ctx = at_round k in
      let (lost, _) = claim_message-lost ctx.start m.id expected db m keyed row other in
      rw lost (claim-IsKeyed ctx.start m.id expected db keyed)

  passes :
      (k n : ℕ) (expected : DeliveryState) (db : Db) (m : Message)
      → Holds i to a f u db m
      → m.delivery_state ≢ expected
      → let l : Loaded = record { msg = m; to_agent = a; from_agent = f; user = u } in
        Holds i to a f u (attempt_message R allowed post (at_round k) expected l n db) m
  passes k n expected db m h other =
      let ctx = at_round k in
      let l : Loaded = record { msg = m; to_agent = a; from_agent = f; user = u } in
      let key = find-key i db.messages m h.row in
      let row = ap (λ j. find j db.messages) key ∙ h.row in
      let db' = attempt_message R allowed post ctx expected l n db in
      let (kept, outbox, agents, users) =
        attempt_message_loses R allowed post ctx expected l n db m h.keyed row other in
      record {
        keyed = passes-IsKeyed k n expected db m h.keyed row other;
        row = ap (λ j. find j db'.messages) (sym key) ∙ kept;
        to_row = ap (find to) agents ∙ h.to_row;
        from_row = ap (find m.from_agent_id) agents ∙ h.from_row;
        user_row = ap (find m.user_id) users ∙ h.user_row;
      }

  run :
      (k n : ℕ) (expected : DeliveryState) (task : TaskType) (p : MessageTask) (m : Message)
      (x : Db × R.State)
      → Holds i to a f u x.0 m
      → let l : Loaded = record { msg = m; to_agent = a; from_agent = f; user = u } in
        (run_message_task R allowed post
          (at_round k)
          expected
          task
          p
          n
          (load_message_context i to x.0)
          x).0
        ≡ attempt_message R allowed post (at_round k) expected l n x.0
  unfolding run_message_task
  run k n expected task p m (db, s) h =
      let goes = free k u.id task p (db, s) in
      rw (loads i to a f u url db m has h, goes)
        (ap
          (attempt_message R allowed post (at_round k) expected
            (record { msg = m; to_agent = a; from_agent = f; user = u }) n)
          (check_cap-db R (at_round k) u.id task p db s goes))

  -- Whatever the round does, the message stays on its way.
  advances :
      (k : ℕ) (task : TaskType) (p : MessageTask) (m : Message) (x : Db × R.State)
      → Holds i to a f u x.0 m
      → Progress (suc k) m.delivery_state
      → let db' =
          (run_message_task R allowed post
            (at_round (suc k))
            DeliveryState.retry_ready
            task
            p
            (suc (suc k))
            (load_message_context i to x.0)
            x).0 in
        (m' : Message) × Holds i to a f u db' m' × Progress (suc (suc k)) m'.delivery_state
  advances k task p m x h (inl over) =
      let ran = run (suc k) (suc (suc k)) DeliveryState.retry_ready task p m x h in
      rw ran (
        m,
        passes (suc k) (suc (suc k)) DeliveryState.retry_ready x.0 m h
            (elim over [ inl done ↦ λ e. cc | inr failed ↦ λ e. cc ]),
        inl over,
      )
  advances k task p m x h (inr (ready, _)) =
      let ran = run (suc k) (suc (suc k)) DeliveryState.retry_ready task p m x h in
      rw ran (attempts (suc k) DeliveryState.retry_ready x.0 m h ready)

  -- The delivery and then k retries, the payload of the last one with attempt k + 1.
  unfoldable pub conversation : ℕ → Db × R.State → Db × R.State
  conversation zero x =
      deliver_message_task R allowed post (at_round 0)
        (record { message_id = i; to_agent_id = to; webhook_url = a.webhook_url; attempt = none }) x
  conversation (suc k) x =
      retry_message_task R allowed post (at_round (suc k))
        (record {
          message_id = i;
          to_agent_id = to;
          webhook_url = none;
          attempt = some (suc (suc k));
        })
        (conversation k x)

  conversation-Progress :
      (k : ℕ) (m : Message) (x : Db × R.State)
      → Holds i to a f u x.0 m
      → m.delivery_state ≡ DeliveryState.queued
      → (m' : Message) × Holds i to a f u (conversation k x).0 m'
        × Progress (suc k) m'.delivery_state
  unfolding conversation
  conversation-Progress zero m x h state =
      let p : MessageTask = record {
        message_id = i;
        to_agent_id = to;
        webhook_url = a.webhook_url;
        attempt = none;
      } in
      let ran = run 0 1 DeliveryState.queued TaskType.deliver_message p m x h in
      rw ran (attempts 0 DeliveryState.queued x.0 m h state)
  conversation-Progress (suc k) m x h state =
      let p : MessageTask = record {
        message_id = i;
        to_agent_id = to;
        webhook_url = none;
        attempt = some (suc (suc k));
      } in
      let (m', h', progress) = conversation-Progress k m x h state in
      advances k TaskType.retry_message p m' (conversation k x) h' progress

  -- A queued message whose recipient keeps its URL is delivered or failed after the delivery and
  -- three retries, whatever the HTTP calls answer, if every call gives a result, every retry falls
  -- before the last date, the cap lets every round through, and no other transaction touches the
  -- message while a call runs.
  pub conversation_ends :
      (m : Message) (x : Db × R.State)
      → Holds i to a f u x.0 m
      → m.delivery_state ≡ DeliveryState.queued
      → (m' : Message) × (find i (conversation 3 x).0.messages ≡ some m') × IsOver m'.delivery_state
  conversation_ends m x h state =
      let (m', h', progress) = conversation-Progress 3 m x h state in
      (m', h'.row, elim progress [ inl over ↦ over | inr (_, early) ↦ absurd (omega arith) ])
