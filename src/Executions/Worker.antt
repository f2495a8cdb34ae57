-- ===== src/Executions/Worker.antt =====
-- The claims of workers and their heartbeat.
pub mod Lease
use cueapi_core.Prelude.{
  ℕ, ◌+◌, ◌≡◌, Bool, true, false, not, ◌&&◌, String, Option, none, some, List, [], ◌∷◌, ◌==◌,
  nat_eq, string_eq, if◌then◌else◌, or_else, is_some, find, first_where, where_, order_by,
  update_where, update_row,
}
use cueapi_core.Store.{
  ExecStatus, exec_eq, Transport, transport_eq, Execution, Cue, Db, execution_keyed, cue_keyed,
  seconds, update_execution, truthy,
}
use cueapi_core.Executions.Answer.{Answer, refused, answered, not_found, owned}

abbrev pub is_own_worker : ℕ → Option Cue → Bool
is_own_worker user none = false
is_own_worker user (some c) = c.user_id == user && c.callback_transport == Transport.worker

-- A pending execution of a worker cue of the user.
abbrev pub is_claimable : ℕ → List Cue → Execution → Bool
is_claimable user cues e = e.status == ExecStatus.pending && is_own_worker user (find e.cue_id cues)

abbrev pub exec_claimed : ℕ → String → Execution → Execution
exec_claimed now worker_id e = record e {
  status = ExecStatus.delivering;
  claimed_by_worker = some worker_id;
  claimed_at = some now;
  started_at = some now;
  last_attempt_at = some now;
  attempts = e.attempts + 1;
  updated_at = now;
}

abbrev pub head {ℓ} : {A : Type ℓ} → List A → Option A
head [] = none
head (x ∷ xs) = some x

-- The subquery of claim_next_execution, in the snapshot of the statement.
unfoldable pub next_claimable : ℕ → Db → Option Execution
next_claimable user snapshot = head (
    order_by (λ (e : Execution). e.scheduled_for)
      (where_ (is_claimable user snapshot.cues) snapshot.executions))

-- The UPDATE, whose WHERE clause asks for the identifier only: it finds the row as the transactions
-- that were committed since the snapshot have left it.
unfoldable pub claim_row : ℕ → String → Option Execution → Db → Answer (ℕ × Db)
claim_row now worker_id none db = refused 409 "claim_failed"
claim_row now worker_id (some e) db =
    if is_some (find e.id db.executions)
    then answered (e.id, update_execution e.id (exec_claimed now worker_id) db)
    else refused 409 "claim_failed"

abbrev pub claim_next_execution : ℕ → ℕ → String → Db → Db → Answer (ℕ × Db)
claim_next_execution now user worker_id snapshot db =
    claim_row now worker_id (next_claimable user snapshot) db

-- POST /{execution_id}/claim
unfoldable pub claim_specific : ℕ → ℕ → ℕ → String → Db → Answer (ℕ × Db)
claim_specific now user i worker_id db =
    let p : Execution → Bool = λ e. e.id == i && is_claimable user db.cues e in
    if is_some (first_where p db.executions)
    then answered
        (i, record db { executions = update_where p (exec_claimed now worker_id) db.executions })
    else refused 409 "claim_failed"

-- The header names another worker than the one of the claim.
abbrev pub other_worker : Option String → Option String → Bool
other_worker x_worker_id claimed =
    truthy x_worker_id && truthy claimed && not (or_else x_worker_id "" == or_else claimed "")

abbrev pub exec_alive : ℕ → Execution → Execution
exec_alive now e = record e { last_heartbeat_at = some now; updated_at = now }

unfoldable pub heartbeat_row :
    ℕ → ℕ → Option String → Option (Execution × Cue) → Db → Answer (ℕ × Db)
heartbeat_row now lease x_worker_id none db = not_found
heartbeat_row now lease x_worker_id (some (e, c)) db =
    if not (e.status == ExecStatus.delivering)
    then refused 409 "execution_not_claiming"
    else if other_worker x_worker_id e.claimed_by_worker
    then refused 403 "not_execution_owner"
    else answered (now + seconds lease, update_execution e.id (exec_alive now) db)

-- execution_heartbeat answers with the time until which the lease is said to be extended; `lease` is
-- settings.WORKER_CLAIM_TIMEOUT_SECONDS.
abbrev pub execution_heartbeat : ℕ → ℕ → ℕ → ℕ → Option String → Db → Answer (ℕ × Db)
execution_heartbeat now lease user i x_worker_id db =
    heartbeat_row now lease x_worker_id (owned user i db) db
