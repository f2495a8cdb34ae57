-- ===== src/Executions/Worker/Lease.antt =====
-- Who holds the claim of an execution, and for how long.
use cueapi_core.Prelude.{
  ℕ, ◌+◌, ◌-◌, ◌≡◌, ◌≤◌, refl, Bool, true, false, ◌&&◌, String, Option, none, some, List, [], ◌∷◌,
  ◌==◌, nat_eq, is_some, find, first_where, update_where, find-update_row, arith, find-key,
}
use cueapi_core.Store.{
  ExecStatus, exec_eq, Execution, Cue, Db, execution_keyed, cue_keyed, seconds, update_execution,
}
use cueapi_core.Executions.Answer.{Answer, refused, answered, owned, owned-rows}
use cueapi_core.Executions.Worker.{
  is_claimable, exec_claimed, claim_specific, other_worker, exec_alive, heartbeat_row,
  execution_heartbeat,
}
use cueapi_core.Poller.Recovery.{is_stale, is_expired_claim}

-- After an update no row passes any more, if no row passes once it is updated.
first_where-update_where :
    (p : Execution → Bool) (f : Execution → Execution)
    → ((x : Execution) → p (f x) ≡ false)
    → (t : List Execution) → first_where p (update_where p f t) ≡ none
unfolding first_where update_where
first_where-update_where p f spent [] = refl
first_where-update_where p f spent (x ∷ t) =
    ground (arith, spent x, first_where-update_where p f spent t)

abbrev pub db_after : Db → Answer (ℕ × Db) → Db
db_after db (refused _ _) = db
db_after db (answered (n, db')) = db'

-- Of two claims of one execution by workers of a user, with no other change of the database in between, the
-- second is refused, at whatever time it comes and whichever worker makes it, if the first has gone through.
pub claim_specific-claim_specific :
    (now later user i : ℕ) (w w' : String) (db : Db)
    → is_some (first_where (λ e. e.id == i && is_claimable user db.cues e) db.executions) ≡ true
    → claim_specific later user i w' (db_after db (claim_specific now user i w db))
      ≡ refused 409 "claim_failed"
unfolding claim_specific
claim_specific-claim_specific now later user i w w' db h =
    let p : Execution → Bool = λ e. e.id == i && is_claimable user db.cues e in
    let spent = first_where-update_where p (exec_claimed now w) (λ x. ground arith) db.executions in
    rw h (rw spent refl)

-- A heartbeat that is accepted is one for a delivering execution of the user, and not from a worker
-- other than the one of the claim. Until five minutes after it the execution is not stale; but whether
-- its claim has expired is as before.
execution_heartbeat_keeps :
    (now lease user i start : ℕ) (x_worker_id : Option String) (db : Db) (e : Execution) (c : Cue)
    → owned user i db ≡ some (e, c)
    → e.status ≡ ExecStatus.delivering
    → other_worker x_worker_id e.claimed_by_worker ≡ false
    → start ≤ now + seconds 300
    → (db' : Db) × (e' : Execution) × (execution_heartbeat now lease user i x_worker_id db
        ≡ answered (now + seconds lease, db'))
      × (find i db'.executions ≡ some e')
      × (is_stale (start - seconds 300) e' ≡ false)
      × ((cutoff : ℕ) → is_expired_claim cutoff db.cues e' ≡ is_expired_claim cutoff db.cues e)
unfolding heartbeat_row
execution_heartbeat_keeps now lease user i start x db e c visible status ours soon =
    let row = (owned-rows user i db e c visible).0 in
    let kept = find-update_row e.id i (exec_alive now) (λ q. refl) db.executions in
    (
      update_execution e.id (exec_alive now) db,
      exec_alive now e,
      rw (visible, status, ours) refl,
      ground (arith, kept, find-key i db.executions e row),
      ground arith,
      λ cutoff. refl,
    )
