-- ===== src/Tests/Executions.antt =====
-- The endpoints of executions on small databases.
use cueapi_core.Prelude.{
  ◌≡◌, refl, true, false, ◌&&◌, none, some, [], ◌∷◌, ◌++◌, ◌==◌, if◌then◌else◌, find, first_where,
  nat_eq, string_eq,
}
use cueapi_core.Store.{
  ExecStatus, Transport, transport_eq, OutcomeState, VerificationMode, Execution, Cue, Db,
  execution_keyed, cue_keyed, truthy, update_execution,
}
use cueapi_core.Poller.Due.{new_execution}
use cueapi_core.Executions.Answer.{refused, answered, owned}
use cueapi_core.Executions.Report.{
  Report, judge, record_outcome, record_row, reported, complete_cue, alerts,
}
use cueapi_core.Executions.Report.WriteOnce.{record_outcome_once}
use cueapi_core.Executions.Worker.{claim_specific}
use cueapi_core.Executions.Worker.Lease.{db_after, claim_specific-claim_specific}
use cueapi_core.Executions.Replay.{is_over, replay_execution}
use cueapi_core.Executions.Replay.Fresh.{replay_outbox, replay_execution_adds}
use cueapi_core.Tests.Samples.{daily, waiting, done, empty_db, done_db}

-- A worker cue that asks for an external identifier, and its execution under way.
abbrev picky : Cue
picky = record daily {
  callback_transport = Transport.worker;
  verification_mode = some VerificationMode.require_external_id;
}

abbrev running : Execution
running = record waiting { status = ExecStatus.delivering; claimed_by_worker = some "w" }

abbrev running_db : Db
running_db = record empty_db { executions = running ∷ []; cues = picky ∷ [] }

abbrev success_report : Report
success_report = record {
  success = true;
  result = none;
  error = none;
  metadata = none;
  external_id = none;
  result_url = none;
  result_ref = none;
  result_type = none;
  summary = none;
  artifacts = none;
}

-- The database after the report.
abbrev outcome_db : Db
outcome_db =
    complete_cue 3000 true picky
      (update_execution 40 (reported 3000 success_report picky) running_db)

record_outcome_once_example :
    record_outcome 3001 7 40 success_report outcome_db ≡ refused 409 "outcome_already_recorded"
unfolding owned find record_row
record_outcome_once_example =
    let state = (judge VerificationMode.require_external_id success_report).0 in
    record_outcome_once 3000 7 40 success_report running_db running picky refl refl refl outcome_db
      state (alerts state success_report 40 1 outcome_db) 3001 success_report refl

abbrev open_db : Db
open_db = record running_db { executions = waiting ∷ [] }

claim_specific-claim_specific_example :
    claim_specific 2100 7 40 "v" (db_after open_db (claim_specific 2000 7 40 "w" open_db))
    ≡ refused 409 "claim_failed"
unfolding first_where find
claim_specific-claim_specific_example =
    claim_specific-claim_specific 2000 2100 7 40 "w" "v" open_db refl

false_ne_true : false ≡ true → ⊥
false_ne_true h = cc

-- An execution with a recorded success, of a webhook cue.
abbrev told : Execution
told = record done {
  outcome_recorded_at = some 2500;
  outcome_state = some OutcomeState.reported_success;
}

abbrev told_db : Db
told_db = record done_db { executions = told ∷ [] }

replay_execution_adds_example :
    (db' : Db) × (db'.executions
      ≡ done_db.executions ++ new_execution 9000 41 1 9000 (some "replay") ∷ [])
    × (db'.outbox ≡ (
        if daily.callback_transport == Transport.webhook && truthy daily.callback_url
        then done_db.outbox ++ replay_outbox 9000 7 41 daily done_db ∷ []
        else done_db.outbox))
    × (db'.cues ≡ done_db.cues)
    × (replay_execution 9000 7 40 41 done_db
        ≡ (if is_over done.status then answered (41, db') else refused 409 "execution_in_flight"))
unfolding owned find
replay_execution_adds_example = replay_execution_adds 9000 7 40 41 done_db done daily refl
