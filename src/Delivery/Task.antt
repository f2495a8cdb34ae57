-- ===== src/Delivery/Task.antt =====
-- deliver_webhook_task and retry_webhook_task. `send` stands for deliver_webhook, the HTTP call.
use mathlib.Core.Option
use cueapi_core.Prelude.{
  ℕ, ◌+◌, Bool, true, ◌&&◌, Option, none, some, List, [], ◌∷◌, ◌==◌, string_eq, false,
  if◌then◌else◌, or_else, find, ltb,
}
use cueapi_core.Redis.{Redis}
use cueapi_core.Store.{
  ExecStatus, Execution, Cue, CueTask, Note, said, recovered_from_stale, stuck_in_delivering, Db,
  execution_keyed, update_execution, update_cue,
}
use cueapi_core.Usage.Grace.{LimitCheck, check_execution_limit}
use cueapi_core.Delivery.Claim.{claim_execution}
use cueapi_core.Delivery.Outcome.{Effect, webhook_sent, handle_success, handle_failure}

-- What deliver_webhook returns.
pub record Reply : Type 0 where
  pub success : Bool
  pub http_status : Option ℕ
  pub text : Option Note

-- The context of a call: whether there is a Redis client, the times at which the task starts and
-- the reply is in, the current month, and whether the usage statements go through.
pub record Ctx : Type 0 where
  pub redis : Bool
  pub start : ℕ
  pub finish : ℕ
  pub month : ℕ
  pub durable : Bool

abbrev pub usage_ctx : Ctx → Option (ℕ × Bool)
usage_ctx c = if c.redis then some (c.month, c.durable) else none

-- `(exec_row.attempts if exec_row else 0) + 1`
abbrev pub next_attempt : ℕ → Db → ℕ
next_attempt i db =
    or_else (Option.map (λ (e : Execution). e.attempts) (find i db.executions)) 0 + 1

-- `response_text or "Unknown error"`
unfoldable pub error_text : Option Note → Note
error_text none = said "Unknown error"
error_text (some (said t)) = if t == "" then said "Unknown error" else said t
error_text (some (recovered_from_stale n)) = recovered_from_stale n
error_text (some (stuck_in_delivering n)) = stuck_in_delivering n

-- The execution that the monthly limit blocks.
abbrev pub limit_reached : ℕ → Execution → Execution
limit_reached now e = record e {
  status = ExecStatus.failed;
  error_message = some (said "Monthly execution limit reached");
  last_attempt_at = some now;
  updated_at = now;
}

module _ (R : Redis) (send : CueTask → ℕ → Reply) where
  open R use {State}

  -- The numbered attempt, to the end of the task.
  unfoldable pub attempt_delivery : Ctx → CueTask → ℕ → Db × State → Db × State × List Effect
  attempt_delivery c p attempt (db, s) =
      let reply = send p attempt in
      let counted =
        update_cue p.cue_id
          (λ (q : Cue). record q { run_count = q.run_count + 1; updated_at = c.finish }) db in
      let (won, s') =
        handle_success R c.finish p.execution_id reply.http_status reply.text attempt p.cue_id
          p.user_id (usage_ctx c) (counted, s) in
      let (lost, effects) =
        handle_failure c.finish p.execution_id reply.http_status (error_text reply.text) attempt
          p.cue_id p.retry_max_attempts p.retry_backoff_minutes counted in
      if reply.success
      then (won, s', webhook_sent p attempt ∷ [])
      else (lost, s, webhook_sent p attempt ∷ effects)

  -- The check of the monthly limit, if there is a user, a Redis client and a limit; none is an exception.
  unfoldable pub limit_gate : Ctx → CueTask → Db × State → Option Bool × State
  limit_gate c p (db, s) = elim p.user_id [
    | none ↦ (some true, s)
    | some user ↦
        let monthly_limit = or_else p.monthly_execution_limit 0 in
        let (check, s') = check_execution_limit R c.start c.month user monthly_limit (db, s) in
        if c.redis && ltb 0 monthly_limit
        then (Option.map (λ (l : LimitCheck). l.allowed) check, s')
        else (some true, s)
  ]

  -- After the check.
  unfoldable pub deliver_gated : Ctx → CueTask → Option Bool → Db × State → Db × State × List Effect
  deliver_gated c p none (db, s) = (db, s, [])
  deliver_gated c p (some false) (db, s) =
      (update_execution p.execution_id (limit_reached c.start) db, s, [])
  deliver_gated c p (some true) (db, s) =
      let (won, db₁) = claim_execution c.start p.execution_id ExecStatus.pending db in
      if won then attempt_delivery c p (next_attempt p.execution_id db₁) (db₁, s) else (db₁, s, [])

  unfoldable pub deliver_webhook_task : Ctx → CueTask → Db × State → Db × State × List Effect
  unfolding deliver_gated
  deliver_webhook_task c p (db, s) =
      let (allowed, s₁) = limit_gate c p (db, s) in deliver_gated c p allowed (db, s₁)

  unfoldable pub retry_webhook_task : Ctx → CueTask → Db × State → Db × State × List Effect
  retry_webhook_task c p (db, s) =
      let (won, db₁) = claim_execution c.start p.execution_id ExecStatus.retry_ready db in
      if won then attempt_delivery c p (next_attempt p.execution_id db₁) (db₁, s) else (db₁, s, [])
