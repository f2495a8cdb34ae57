-- ===== src/Poller/Recovery.antt =====
-- The recovery jobs of worker/poller.py: executions stuck in delivering, expired claims of workers,
-- and executions that no worker claims; and the escalation of the failures that they find.
pub mod Escalation
pub mod Stale
pub mod Claims
use mathlib.Core.Option
use cueapi_core.Prelude.{
  ℕ, ◌+◌, ◌-◌, min, ◌≡◌, Bool, true, false, not, ◌&&◌, String, Option, none, some, List, [], ◌∷◌,
  ◌++◌, ◌==◌, nat_eq, string_eq, if◌then◌else◌, or_else, is_null, is_some, find, first_where,
  where_, take, length, ltb, each, try_each,
}
use cueapi_core.Store.{
  ExecStatus, exec_eq, Transport, transport_eq, Execution, Cue, Worker, Note, said,
  recovered_from_stale, stuck_in_delivering, Db, cue_keyed, execution_keyed, seconds, minutes, nth,
  update_execution, update_cue,
}
use cueapi_core.Delivery.Outcome.{
  Effect, on_failure_of, is_once, cue_failed, cue_paused, escalations,
}

-- A column that may be NULL, against a time: `column < t`.
abbrev pub before : Option ℕ → ℕ → Bool
before none t = false
before (some a) t = ltb a t

-- A failure to escalate: cue, execution, error.
pub record Failure : Type 0 where
  pub cue_id : ℕ
  pub execution_id : ℕ
  pub error : Note

-- _run_on_failure_escalation: nothing for a cue that is gone.
unfoldable pub escalate : ℕ → Failure → Db × List Effect → Db × List Effect
escalate now failure (db, sent) =
    let cue_row = find failure.cue_id db.cues in
    let pause =
      or_else (on_failure_of cue_row).pause false && is_some cue_row && not (is_once cue_row) in
    (
      if pause then update_cue failure.cue_id (cue_paused now) db else db,
      sent ++ escalations now failure.execution_id cue_row failure.cue_id 0 none failure.error,
    )

-- recover_stale_executions
abbrev pub is_stale : ℕ → Execution → Bool
is_stale cutoff e = e.status == ExecStatus.delivering && ltb e.updated_at cutoff

abbrev pub max_attempts_of : Option Cue → ℕ
max_attempts_of none = 3
max_attempts_of (some c) = c.retry_max_attempts

abbrev pub backoff_of : Option Cue → List ℕ
backoff_of none = 1 ∷ 5 ∷ 15 ∷ []
backoff_of (some c) = c.retry_backoff_minutes

-- `xs[min(attempts, len(xs) - 1)]`, an IndexError if xs is empty.
abbrev pub stale_backoff : ℕ → List ℕ → Option ℕ
stale_backoff attempts [] = none
stale_backoff attempts (x ∷ xs) = some (nth (x ∷ xs) (min attempts (length xs)) 0)

abbrev pub stale_retrying : ℕ → ℕ → ℕ → Execution → Execution
stale_retrying now stale_seconds next_retry e = record e {
  status = ExecStatus.retrying;
  next_retry = some next_retry;
  error_message = some (recovered_from_stale stale_seconds);
  updated_at = now;
}

abbrev pub stale_failed : ℕ → ℕ → Execution → Execution
stale_failed now stale_seconds e = record e {
  status = ExecStatus.failed;
  error_message = some (stuck_in_delivering stale_seconds);
  next_retry = none;
  updated_at = now;
}

-- The count of the rows handled, the failures to escalate, and the database.
abbrev pub Progress : Type 0
Progress = ℕ × List Failure × Db

unfoldable pub recover_stale : ℕ → ℕ → Execution → Progress → Option Progress
recover_stale now stale_seconds e (count, failures, db) =
    let cue = find e.cue_id db.cues in
    let failure : Failure = record {
      cue_id = e.cue_id;
      execution_id = e.id;
      error = stuck_in_delivering stale_seconds;
    } in
    let failed = update_execution e.id (stale_failed now stale_seconds) db in
    if ltb e.attempts (max_attempts_of cue)
    then Option.map
        (λ m. (
          count + 1,
          failures,
          update_execution e.id (stale_retrying now stale_seconds (now + minutes m)) db,
        ))
        (stale_backoff e.attempts (backoff_of cue))
    else some (
      count + 1,
      failures ++ failure ∷ [],
      if is_once cue then update_cue e.cue_id (cue_failed now) failed else failed,
    )

-- The escalations after the commit.
abbrev pub after_commit : ℕ → Progress → ℕ × Db × List Effect
after_commit now (count, failures, db) =
    let (db', sent) = each (escalate now) failures (db, []) in (count, db', sent)

-- `start` is the time of the cutoff and `now` that of the statements; none is an exception, and
-- then the transaction is rolled back.
unfoldable pub recover_stale_executions : ℕ → ℕ → ℕ → Db → Option (ℕ × Db × List Effect)
recover_stale_executions start now stale_seconds db = Option.map (after_commit now) (
    try_each (recover_stale now stale_seconds)
      (take 100 (where_ (is_stale (start - seconds stale_seconds)) db.executions)) (0, [], db))

-- recover_stale_worker_claims
abbrev pub is_worker_cue : Option Cue → Bool
is_worker_cue none = false
is_worker_cue (some c) = c.callback_transport == Transport.worker

abbrev pub is_expired_claim : ℕ → List Cue → Execution → Bool
is_expired_claim claim_cutoff cues e =
    e.status == ExecStatus.delivering
    && is_worker_cue (find e.cue_id cues)
    && before e.claimed_at claim_cutoff
    && is_some e.claimed_by_worker

-- The worker of the claim, among those of the cue's user.
unfoldable pub claimant : Db → Execution → Option Worker
claimant db e = elim (find e.cue_id db.cues) [
  | none ↦ none
  | some c ↦
      first_where (λ w. w.user_id == c.user_id && w.worker_id == or_else e.claimed_by_worker "")
        db.workers
]

-- `worker_row is None or worker_row.last_heartbeat < heartbeat_cutoff`
abbrev pub is_silent : ℕ → Option Worker → Bool
is_silent heartbeat_cutoff none = true
is_silent heartbeat_cutoff (some w) = ltb w.last_heartbeat heartbeat_cutoff

abbrev pub exec_reset : ℕ → Execution → Execution
exec_reset now e = record e {
  status = ExecStatus.pending;
  claimed_by_worker = none;
  claimed_at = none;
  started_at = none;
  error_message = some (said "Reset: worker heartbeat stale and claim lease expired");
  updated_at = now;
}

unfoldable pub reset_claim : ℕ → ℕ → Execution → ℕ × Db → ℕ × Db
reset_claim now heartbeat_cutoff e (count, db) =
    if is_silent heartbeat_cutoff (claimant db e)
    then (count + 1, update_execution e.id (exec_reset now) db)
    else (count, db)

unfoldable pub recover_stale_worker_claims : ℕ → ℕ → ℕ → Db → ℕ × Db
recover_stale_worker_claims now heartbeat_timeout claim_timeout db =
    each (reset_claim now (now - seconds heartbeat_timeout))
      (take 100 (where_ (is_expired_claim (now - seconds claim_timeout) db.cues) db.executions))
      (0, db)

-- fail_unclaimed_worker_executions
abbrev pub is_unclaimed : ℕ → List Cue → Execution → Bool
is_unclaimed cutoff cues e =
    e.status == ExecStatus.pending
    && is_worker_cue (find e.cue_id cues)
    && ltb e.created_at cutoff
    && is_null e.claimed_by_worker

abbrev pub unclaimed_error : Note
unclaimed_error = said "No worker claimed this execution within timeout window"

abbrev pub exec_missed : ℕ → Execution → Execution
exec_missed now e = record e {
  status = ExecStatus.missed;
  error_message = some unclaimed_error;
  updated_at = now;
}

unfoldable pub fail_unclaimed : ℕ → Execution → Progress → Progress
fail_unclaimed now e (count, failures, db) =
    let missed = update_execution e.id (exec_missed now) db in
    let failure : Failure = record {
      cue_id = e.cue_id;
      execution_id = e.id;
      error = unclaimed_error;
    } in
    (
      count + 1,
      failures ++ failure ∷ [],
      if is_once (find e.cue_id db.cues)
          then update_cue e.cue_id (cue_failed now) missed
          else missed,
    )

unfoldable pub fail_unclaimed_worker_executions : ℕ → ℕ → Db → ℕ × Db × List Effect
fail_unclaimed_worker_executions now unclaimed_timeout db = after_commit now (
    each (fail_unclaimed now)
      (take 100 (where_ (is_unclaimed (now - seconds unclaimed_timeout) db.cues) db.executions))
      (0, [], db))
