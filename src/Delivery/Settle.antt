-- ===== src/Delivery/Settle.antt =====
-- The two delivery tasks as a whole, for a job that comes once and for one that comes again.
use cueapi_core.Prelude.{
  ℕ, ◌+◌, ◌≡◌, ◌≢◌, refl, true, false, none, some, string_eq, [], ◌==◌, nat_eq, find, arith,
  IsKeyed, ◌∙◌, first_where-find, first_where,
}
use cueapi_core.Redis.{Redis}
use cueapi_core.Store.{
  ExecStatus, exec_eq, exec_rank_iff, Execution, CueTask, said, Db, execution_keyed,
}
use cueapi_core.Delivery.Claim.{claimable, claimed, claim_execution}
use cueapi_core.Delivery.Attempt.{find-update_execution}
use cueapi_core.Delivery.Race.{update_none}
use cueapi_core.Delivery.Task.{
  deliver_gated, Reply, Ctx, limit_reached, limit_gate, deliver_webhook_task, retry_webhook_task,
}
use cueapi_core.Delivery.Settled.{settled, attempt_delivery-settled, claim_pending}

-- A claim of an execution that is not in the expected status loses and changes nothing.
claim_lost :
    (now i : ℕ) (x : ExecStatus) (db : Db) (e : Execution)
    → IsKeyed db.executions
    → find i db.executions ≡ some e
    → e.status ≢ x
    → claim_execution now i x db ≡ (false, db)
unfolding claim_execution
claim_lost now i x db e keyed h ne =
    let miss : first_where (claimable i x) db.executions ≡ none =
      first_where-find i (λ (r : Execution). r.status == x) db.executions keyed
      ∙ ground (arith, exec_rank_iff e.status x) in
    rw (miss, update_none (claimable i x) (claimed now) db.executions miss)

module _ (R : Redis) (send : CueTask → ℕ → Reply) where
  open R use {State}

  -- A job that the queue delivers again, once its execution is no longer pending, sends nothing, neither
  -- the webhook nor a notification, and
  -- leaves the database as it is (as long as the monthly limit lets it through).
  pub deliver_duplicate :
      (c : Ctx) (p : CueTask) (db : Db) (s : State) (e : Execution)
      → IsKeyed db.executions
      → find p.execution_id db.executions ≡ some e
      → e.status ≢ ExecStatus.pending
      → (limit_gate R send c p (db, s)).0 ≡ some true
      → deliver_webhook_task R send c p (db, s) ≡ (db, (limit_gate R send c p (db, s)).1, [])
  unfolding deliver_webhook_task deliver_gated
  deliver_duplicate c p db s e keyed h ne allowed =
      rw (allowed, claim_lost c.start p.execution_id ExecStatus.pending db e keyed h ne)

  -- The same of a retry, once its execution is no longer ready for one.
  pub retry_duplicate :
      (c : Ctx) (p : CueTask) (db : Db) (s : State) (e : Execution)
      → IsKeyed db.executions
      → find p.execution_id db.executions ≡ some e
      → e.status ≢ ExecStatus.retry_ready
      → retry_webhook_task R send c p (db, s) ≡ (db, s, [])
  unfolding retry_webhook_task
  retry_duplicate c p db s e keyed h ne =
      rw (claim_lost c.start p.execution_id ExecStatus.retry_ready db e keyed h ne)

  -- A job that the monthly limit refuses sends nothing and sets its execution to failed, whatever the status
  -- of that was, with the reason and nothing else of the row but its times changed; no cue changes.
  pub deliver_blocked :
      (c : Ctx) (p : CueTask) (db : Db) (s : State) (e : Execution)
      → find p.execution_id db.executions ≡ some e
      → (limit_gate R send c p (db, s)).0 ≡ some false
      → let (db', s', effects) = deliver_webhook_task R send c p (db, s) in
        (find p.execution_id db'.executions
          ≡ some (record e {
            status = ExecStatus.failed;
            error_message = some (said "Monthly execution limit reached");
            last_attempt_at = some c.start;
            updated_at = c.start;
          }))
        × (db'.cues ≡ db.cues)
        × (effects ≡ [])
  unfolding deliver_webhook_task deliver_gated
  deliver_blocked c p db s e h refused = (
    rw refused (
        ground (
          arith,
          find-update_execution p.execution_id p.execution_id (limit_reached c.start) (λ x. refl)
              db.executions e h,
        )),
    rw refused,
    rw refused,
  )

  -- The same of a retry: from retry_ready it makes the next attempt and settles the row.
  retry_settles :
      (c : Ctx) (p : CueTask) (db : Db) (s : State) (e : Execution)
      → IsKeyed db.executions
      → find p.execution_id db.executions ≡ some e
      → e.status ≡ ExecStatus.retry_ready
      → find p.execution_id (retry_webhook_task R send c p (db, s)).0.executions
        ≡ some (settled R send c p (e.attempts + 1) (claimed c.start e))
  unfolding retry_webhook_task
  retry_settles c p db s e keyed h same =
      let (won, row, number) =
        claim_pending R send c.start p.execution_id ExecStatus.retry_ready db e keyed h same in
      rw (won, number)
        (attempt_delivery-settled R send c p (e.attempts + 1)
          (claim_execution c.start p.execution_id ExecStatus.retry_ready db).1 s (claimed c.start e)
          row)
