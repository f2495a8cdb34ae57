-- ===== src/Executions/Report/WriteOnce.antt =====
-- record_outcome: what a report leaves, and a report that comes after it.
use cueapi_core.Prelude.{
  ℕ, ◌≡◌, ◌↔◌, refl, sym, subst, ap, ◌∙◌, Bool, true, false, ◌&&◌, none, some, List, find, arith,
  ◌==◌, nat_eq, if◌then◌else◌, or_else, is_some, find-update_row, update_row, find-key,
}
use cueapi_core.Store.{
  ExecStatus, ScheduleType, schedule_eq, Transport, transport_eq, OutcomeState, VerificationMode,
  Execution, Cue, Db, execution_keyed, cue_keyed, truthy, update_execution,
}
use cueapi_core.Executions.Answer.{Answer, refused, answered, owned, owned-rows, owned-some}
use cueapi_core.Executions.Report.{
  Report, Alert, any_artifacts, too_large, judge, reported, complete_cue, count_run, close_cue,
  record_row, record_outcome,
}

-- The evidence that a mode asks for is in the report.
abbrev has_evidence : VerificationMode → Report → Bool
has_evidence VerificationMode.require_external_id body = truthy body.external_id
has_evidence VerificationMode.require_result_url body = is_some body.result_url
has_evidence VerificationMode.require_artifacts body = any_artifacts body.artifacts
has_evidence _ body = false

-- A report is verified at once exactly if it says success and has the evidence that the cue's mode
-- asks for, and never if the mode asks for none.
judge_verifies :
    (mode : VerificationMode) (body : Report)
    → ((judge mode body).0 ≡ OutcomeState.verified_success)
      ↔ (body.success && has_evidence mode body ≡ true)
unfolding judge
judge_verifies mode body = ground arith

reported-keeps :
    (now : ℕ) (body : Report) (c : Cue) (x : Execution) → (reported now body c x).id ≡ x.id
unfolding reported
reported-keeps now body c x = ground arith

complete_cue-executions :
    (now : ℕ) (success : Bool) (c : Cue) (db : Db)
    → (complete_cue now success c db).executions ≡ db.executions
unfolding complete_cue
complete_cue-executions now success c db = ground arith

-- What the report leaves of the cue.
abbrev pub reported_cue : ℕ → Bool → Cue → Cue
reported_cue now success c =
    if c.callback_transport == Transport.worker
    then if c.schedule_type == ScheduleType.once
      then close_cue now success (count_run now c)
      else count_run now c
    else c

complete_cue-cue :
    (now : ℕ) (success : Bool) (c : Cue) (db : Db)
    → find c.id db.cues ≡ some c
    → find c.id (complete_cue now success c db).cues ≡ some (reported_cue now success c)
unfolding complete_cue
complete_cue-cue now success c db h = ground (
  arith,
  find-update_row c.id c.id (count_run now) (λ x. refl) db.cues,
  find-update_row c.id c.id (close_cue now success) (λ x. refl)
      (update_row c.id (count_run now) db.cues),
)

reported-written :
    (now : ℕ) (body : Report) (c : Cue) (e : Execution)
    → let e' = reported now body c e in
      (e'.outcome_recorded_at ≡ some now)
      × (e'.outcome_success ≡ some body.success)
      × (e'.outcome_result ≡ body.result)
      × (e'.outcome_error ≡ body.error)
      × (e'.outcome_metadata ≡ body.metadata)
      × (e'.cue_id ≡ e.cue_id)
      × (e'.outcome_state ≡ some (judge (or_else c.verification_mode VerificationMode.none) body).0)
      × (e'.status ≡ (
          if c.callback_transport == Transport.worker
          then (if body.success then ExecStatus.success else ExecStatus.failed)
          else e.status))
unfolding reported
reported-written now body c e = (
  ground arith,
  ground arith,
  ground arith,
  ground arith,
  ground arith,
  ground arith,
  ground arith,
  ground arith,
)

reported_cue-keeps :
    (now : ℕ) (success : Bool) (c : Cue)
    → ((reported_cue now success c).user_id ≡ c.user_id) × ((reported_cue now success c).id ≡ c.id)
reported_cue-keeps now success c = (ground arith, ground arith)

-- The database of an answer.
abbrev db_of : Db → Answer (OutcomeState × Db × List Alert) → Db
db_of db (refused _ _) = db
db_of db (answered (state, db', raised)) = db'

module _ (now user i : ℕ) (body : Report) (db : Db) (e : Execution) (c : Cue)
    (visible : owned user i db ≡ some (e, c)) (fresh : e.outcome_recorded_at ≡ none)
    (small : too_large body.metadata ≡ false) where
  abbrev after : Db
  after = complete_cue now body.success c (update_execution e.id (reported now body c) db)

  after-row : find i after.executions ≡ some (reported now body c e)
  after-row =
      let row = (owned-rows user i db e c visible).0 in
      let update =
        find-update_row e.id i (reported now body c) (reported-keeps now body c) db.executions in
      rw
        (complete_cue-executions now body.success c
          (update_execution e.id (reported now body c) db))
        (ground (arith, row, update, find-key i db.executions e row))

  after-cue : find c.id after.cues ≡ some (reported_cue now body.success c)
  after-cue =
      let cue = (owned-rows user i db e c visible).1 in
      let key = find-key e.cue_id db.cues c cue in
      complete_cue-cue now body.success c (update_execution e.id (reported now body c) db)
        (ap (λ i. find i db.cues) key ∙ cue)

  after-owned : owned user i after ≡ some (reported now body c e, reported_cue now body.success c)
  after-owned =
      let (row, cue, mine) = owned-rows user i db e c visible in
      let key = find-key e.cue_id db.cues c cue in
      let same = (reported-written now body c e).5 in
      owned-some user i after (reported now body c e) (reported_cue now body.success c) after-row
        (ap (λ k. find k after.cues) (same ∙ sym key) ∙ after-cue)
        ((reported_cue-keeps now body.success c).0 ∙ mine)

  -- Any later report of it, at any time and with any content, is refused with a 409.
  pub record_outcome_once :
      (db' : Db) (state : OutcomeState) (raised : List Alert) (later : ℕ) (body' : Report)
      → record_outcome now user i body db ≡ answered (state, db', raised)
      → record_outcome later user i body' db' ≡ refused 409 "outcome_already_recorded"
  unfolding record_row
  record_outcome_once db' state raised later body' h =
      let same : after ≡ db' = ap (db_of db) (rw (visible, fresh, small) at h) in
      subst
        (λ d. record_row later body' (owned user i d) d ≡ refused 409 "outcome_already_recorded")
        same (rw (after-owned, (reported-written now body c e).0) refl)
