-- ===== src/Poller/Finality.antt =====
-- The jobs of run_poller (worker/poller.py) that work on executions and the outbox, in any order.
pub mod Steps
pub mod Keeps
use mathlib.Core.Option.{some-injective}
use mathlib.Core.List.{Memᴰ}
use cueapi_core.Prelude.{
  ℕ, ◌-◌, ◌≡◌, ◌≢◌, refl, sym, ap, ◌∙◌, Bool, true, false, ◌||◌, String, Option, none, some, List,
  [], ◌∷◌, ◌==◌, nat_eq, is_some, find, first_where, where_, take, each, All, arith, IsKeyed,
  find-Mem, find-append, Bool-cases, inl, inr, find-untouched,
}
use cueapi_core.Store.{
  ExecStatus, exec_eq, Execution, Cue, Outbox, Db, execution_keyed, cue_keyed, outbox_keyed,
  seconds,
}
use cueapi_core.Delivery.Outcome.{Effect}
use cueapi_core.Poller.Due.{process_cue_batch}
use cueapi_core.Poller.Due.Dedup.{process_cue_batch_adds}
use cueapi_core.Poller.Retries.{is_ready, poll_retries}
use cueapi_core.Poller.Retries.Pairs.{IsRetry, is_for, poll_retries_pairs}
use cueapi_core.Poller.Dispatch.{
  Task, Job, send, send_round, route, dispatch_outbox, cleanup_outbox,
}
use cueapi_core.Poller.Recovery.{
  is_stale, is_expired_claim, is_unclaimed, exec_missed, recover_stale_executions,
  recover_stale_worker_claims, fail_unclaimed, fail_unclaimed_worker_executions,
}
use cueapi_core.Poller.Recovery.Escalation.{escalate-executions}
use cueapi_core.Poller.Recovery.Stale.{settled, settled-keeps, each-recover_stale}
use cueapi_core.Poller.Recovery.Claims.{given_back, each-executions, fail_unclaimed-executions}

-- One job, at any time and with any settings.
pub data PollerJob (cron : String → String → ℕ → ℕ) : Db → Db → Type 0 where
  fires :
      {db : Db} (now batch_size : ℕ) (uuid : ℕ → ℕ)
      → PollerJob cron db (process_cue_batch cron now uuid batch_size db).1
  hands_over : {db : Db} (now batch_size : ℕ) → PollerJob cron db (poll_retries now batch_size db).1
  recovers :
      {db db' : Db} (start now stale_seconds n : ℕ) (sent : List Effect)
      → ((i : ℕ) (c : Cue) → find i db.cues ≡ some c → c.retry_backoff_minutes ≢ [])
      → recover_stale_executions start now stale_seconds db ≡ some (n, db', sent)
      → PollerJob cron db db'
  resets :
      {db : Db} (now heartbeat_timeout claim_timeout : ℕ)
      → PollerJob cron db (recover_stale_worker_claims now heartbeat_timeout claim_timeout db).1
  gives_up :
      {db : Db} (now unclaimed_timeout : ℕ)
      → PollerJob cron db (fail_unclaimed_worker_executions now unclaimed_timeout db).1
  dispatches :
      {db : Db} (refusal : Outbox → Option String) (now batch_size : ℕ)
      → PollerJob cron db (dispatch_outbox refusal now batch_size db).1
  cleans :
      {db : Db} (now retention_days : ℕ)
      → PollerJob cron db (cleanup_outbox now retention_days db).1

-- A run of jobs. The primary key of executions is unique before each of them.
pub data Run (cron : String → String → ℕ → ℕ) : Db → Db → Type 0 where
  stop : {db : Db} → Run cron db db
  next :
      {db db' db'' : Db}
      → IsKeyed db.executions
      → PollerJob cron db db'
      → Run cron db' db''
      → Run cron db db''

-- The statuses that no job of the poller takes up.
abbrev pub is_final : ExecStatus → Bool
is_final s = s == ExecStatus.success || s == ExecStatus.failed || s == ExecStatus.missed
