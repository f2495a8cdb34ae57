-- ===== src/Executions/Report.antt =====
-- record_outcome of services/outcome_service.py, and count_consecutive_failures of
-- services/alert_service.py. The alerts that it raises after the commit are reported: create_alert
-- is not modelled.
pub mod WriteOnce
use mathlib.Core.Option
use Prim.Native.String.{len}
use cueapi_core.Prelude.{
  ℕ, zero, suc, ◌+◌, Bool, true, false, not, ◌&&◌, ◌||◌, String, Option, none, some, List, [], ◌∷◌,
  ◌++◌, ◌==◌, nat_eq, if◌then◌else◌, or_else, is_some, where_, take, order_by, ltb, leb,
}
use cueapi_core.Store.{
  ExecStatus, exec_eq, CueStatus, ScheduleType, schedule_eq, Transport, transport_eq, OutcomeState,
  outcome_eq, VerificationMode, Execution, Cue, Note, said, Db, update_execution, update_cue,
  truthy, clip,
}
use cueapi_core.Executions.Answer.{Answer, refused, answered, not_found, owned}

-- OutcomeRequest. `metadata` is the text that json.dumps writes, `result_url` that of the HttpUrl.
pub record Report : Type 0 where
  pub success : Bool
  pub result : Option String
  pub error : Option String
  pub metadata : Option String
  pub external_id : Option String
  pub result_url : Option String
  pub result_ref : Option String
  pub result_type : Option String
  pub summary : Option String
  pub artifacts : Option (List String)

-- Whether a list is there and not empty.
abbrev pub any_artifacts : Option (List String) → Bool
any_artifacts none = false
any_artifacts (some []) = false
any_artifacts (some (x ∷ xs)) = true

-- The metadata is over 10 KB.
abbrev pub too_large : Option String → Bool
too_large none = false
too_large (some m) = ltb 10240 (len m)

abbrev pub write_outcome : ℕ → Report → Execution → Execution
write_outcome now body e = record e {
  outcome_success = some body.success;
  outcome_result = body.result;
  outcome_error = body.error;
  outcome_metadata = body.metadata;
  outcome_recorded_at = some now;
  updated_at = now;
}

abbrev pub write_evidence : ℕ → Report → Execution → Execution
write_evidence now body e = record e {
  evidence_external_id =
      if truthy body.external_id then body.external_id else e.evidence_external_id;
  evidence_result_url = if is_some body.result_url then body.result_url else e.evidence_result_url;
  evidence_result_ref = if truthy body.result_ref then body.result_ref else e.evidence_result_ref;
  evidence_result_type =
      if truthy body.result_type then body.result_type else e.evidence_result_type;
  evidence_summary =
      if truthy body.summary then Option.map (clip 500) body.summary else e.evidence_summary;
  evidence_artifacts =
      if any_artifacts body.artifacts then body.artifacts else e.evidence_artifacts;
  evidence_produced_at =
      if truthy body.external_id || is_some body.result_url || any_artifacts body.artifacts
      then some now
      else e.evidence_produced_at;
}

-- A mode that requires evidence, with whether it is there: the state and the validation.
abbrev pub required : Bool → OutcomeState × Option Bool
required true = (OutcomeState.verified_success, some true)
required false = (OutcomeState.verification_failed, some false)

-- The state of a report, and its validation where the mode makes one.
unfoldable pub judge : VerificationMode → Report → OutcomeState × Option Bool
judge mode body =
    let verdict : OutcomeState × Option Bool = elim mode [
      | VerificationMode.none ↦ (OutcomeState.reported_success, none)
      | VerificationMode.manual ↦ (OutcomeState.verification_pending, none)
      | VerificationMode.require_external_id ↦ required (truthy body.external_id)
      | VerificationMode.require_result_url ↦ required (is_some body.result_url)
      | VerificationMode.require_artifacts ↦ required (any_artifacts body.artifacts)
      | VerificationMode.other ↦ (OutcomeState.reported_success, none)
    ] in
    if body.success then verdict else (OutcomeState.reported_failure, none)

abbrev pub write_state : OutcomeState × Option Bool → Execution → Execution
write_state (state, valid) e = record e {
  outcome_state = some state;
  evidence_validation_state = if is_some valid then valid else e.evidence_validation_state;
}

-- For worker transport the outcome completes the execution.
abbrev pub complete : ℕ → Report → Execution → Execution
complete now body e =
    if body.success
    then record e { status = ExecStatus.success; delivered_at = some now; updated_at = now }
    else record e {
      status = ExecStatus.failed;
      error_message = Option.map said body.error;
      updated_at = now;
    }

-- The row after the report.
unfoldable pub reported : ℕ → Report → Cue → Execution → Execution
reported now body c e =
    let mode = or_else c.verification_mode VerificationMode.none in
    let written =
      write_state (judge mode body) (write_evidence now body (write_outcome now body e)) in
    if c.callback_transport == Transport.worker then complete now body written else written

abbrev pub count_run : ℕ → Cue → Cue
count_run now c = record c { last_run = some now; run_count = c.run_count + 1; updated_at = now }

abbrev pub close_cue : ℕ → Bool → Cue → Cue
close_cue now success c = record c {
  status = if success then CueStatus.completed else CueStatus.failed;
  updated_at = now;
}

-- The statements on the cue of a worker's execution.
unfoldable pub complete_cue : ℕ → Bool → Cue → Db → Db
complete_cue now success c db =
    let counted = update_cue c.id (count_run now) db in
    if c.callback_transport == Transport.worker
    then if c.schedule_type == ScheduleType.once
      then update_cue c.id (close_cue now success) counted
      else counted
    else db

-- count_consecutive_failures: the failures in front of the newest executions that are over.
abbrev pub onto {ℓ} : {A : Type ℓ} → List A → List A → List A
onto [] ys = ys
onto (x ∷ xs) ys = onto xs (x ∷ ys)

unfoldable pub streak : List Execution → ℕ
streak [] = 0
streak (e ∷ es) = let rest = streak es in if e.status == ExecStatus.failed then suc rest else 0

unfoldable pub count_consecutive_failures : ℕ → Db → ℕ
count_consecutive_failures cue_id db =
    let over : List Execution =
      where_
        (λ (e : Execution).
          e.cue_id == cue_id && (e.status == ExecStatus.success || e.status == ExecStatus.failed))
        db.executions in
    streak (take 8 (onto (order_by (λ (e : Execution). e.created_at) over) []))

pub data Alert : Type 0 where
  verification_failed_alert : ℕ → Alert
  consecutive_failures_alert : ℕ → ℕ → Alert

unfoldable pub alerts : OutcomeState → Report → ℕ → ℕ → Db → List Alert
alerts state body i cue_id db =
    let failures = count_consecutive_failures cue_id db in
    let unverified : List Alert =
      if state == OutcomeState.verification_failed then verification_failed_alert i ∷ [] else [] in
    let failing : List Alert =
      if not body.success && leb 3 failures
      then consecutive_failures_alert cue_id failures ∷ []
      else [] in
    unverified ++ failing

-- record_outcome for the row that the query gave.
unfoldable pub record_row :
    ℕ → Report → Option (Execution × Cue) → Db → Answer (OutcomeState × Db × List Alert)
record_row now body none db = not_found
record_row now body (some (e, c)) db =
    let state = (judge (or_else c.verification_mode VerificationMode.none) body).0 in
    let db' = complete_cue now body.success c (update_execution e.id (reported now body c) db) in
    if is_some e.outcome_recorded_at
    then refused 409 "outcome_already_recorded"
    else if too_large body.metadata
    then refused 400 "metadata_too_large"
    else answered (state, db', alerts state body e.id e.cue_id db')

abbrev pub record_outcome : ℕ → ℕ → ℕ → Report → Db → Answer (OutcomeState × Db × List Alert)
record_outcome now user i body db = record_row now body (owned user i db) db
