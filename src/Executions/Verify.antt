-- ===== src/Executions/Verify.antt =====
-- Verification, evidence after the outcome, and the attestation of a live claim.
pub mod Attest
use mathlib.Core.Option
use Prim.Native.String.{◌++◌ as joined}
use cueapi_core.Prelude.{
  ℕ, Bool, true, false, not, ◌||◌, String, Option, none, some, List, ◌==◌, string_eq, if◌then◌else◌,
  or_else, is_some,
}
use cueapi_core.Store.{OutcomeState, outcome_eq, Execution, Cue, Db, update_execution, truthy, clip}
use cueapi_core.Executions.Answer.{Answer, refused, answered, not_found, owned}
use cueapi_core.Executions.Report.{any_artifacts}

-- VerifyRequest
pub record VerifyRequest : Type 0 where
  pub valid : Bool
  pub reason : Option String

abbrev pub default_request : VerifyRequest
default_request = record { valid = true; reason = none }

-- The states from which verify is accepted.
abbrev pub verifiable : Option OutcomeState → Bool
verifiable none = false
verifiable (some s) =
    s == OutcomeState.reported_success
    || s == OutcomeState.reported_failure
    || s == OutcomeState.verification_pending

-- The summary with the reason of a rejection.
unfoldable pub rejected_summary : Option String → Option String → Option String
rejected_summary summary reason =
    let truncated = clip 500 (or_else reason "") in
    let combined = joined (joined (or_else summary "") " | verification rejected: ") truncated in
    if truthy reason
    then (if truthy summary then some (clip 500 combined) else some truncated)
    else summary

unfoldable pub exec_verified : ℕ → VerifyRequest → Execution → Execution
exec_verified now body e =
    if body.valid
    then record e {
      outcome_state = some OutcomeState.verified_success;
      evidence_validation_state = some true;
      updated_at = now;
    }
    else record e {
      outcome_state = some OutcomeState.verification_failed;
      evidence_validation_state = some false;
      evidence_summary = rejected_summary e.evidence_summary body.reason;
      updated_at = now;
    }

unfoldable pub verify_row : ℕ → VerifyRequest → Option (Execution × Cue) → Db → Answer Db
verify_row now body none db = not_found
verify_row now body (some (e, c)) db =
    if verifiable e.outcome_state
    then answered (update_execution e.id (exec_verified now body) db)
    else refused 409 "invalid_state"

abbrev pub verify_execution : ℕ → ℕ → ℕ → Option VerifyRequest → Db → Answer Db
verify_execution now user i body db =
    verify_row now (or_else body default_request) (owned user i db) db

abbrev pub exec_pending : ℕ → Execution → Execution
exec_pending now e = record e {
  outcome_state = some OutcomeState.verification_pending;
  updated_at = now;
}

unfoldable pub pending_row : ℕ → Option (Execution × Cue) → Db → Answer Db
pending_row now none db = not_found
pending_row now (some (e, c)) db =
    if is_some e.outcome_recorded_at
    then answered (update_execution e.id (exec_pending now) db)
    else refused 409 "no_outcome"

abbrev pub mark_verification_pending : ℕ → ℕ → ℕ → Db → Answer Db
mark_verification_pending now user i db = pending_row now (owned user i db) db

-- The body of PATCH /evidence, by key.
pub record Evidence : Type 0 where
  pub external_id : Option String
  pub result_url : Option String
  pub result_ref : Option String
  pub result_type : Option String
  pub summary : Option String
  pub artifacts : Option (List String)
  pub metadata : Option String

-- Whether a JSON object is there and not empty.
abbrev pub is_document : Option String → Bool
is_document none = false
is_document (some t) = not (t == "{}")

abbrev pub exec_evidence : ℕ → Evidence → Execution → Execution
exec_evidence now body e = record e {
  evidence_external_id =
      if truthy body.external_id then body.external_id else e.evidence_external_id;
  evidence_result_url = if truthy body.result_url then body.result_url else e.evidence_result_url;
  evidence_result_ref = if truthy body.result_ref then body.result_ref else e.evidence_result_ref;
  evidence_result_type =
      if truthy body.result_type then body.result_type else e.evidence_result_type;
  evidence_summary =
      if truthy body.summary then Option.map (clip 500) body.summary else e.evidence_summary;
  evidence_artifacts =
      if any_artifacts body.artifacts then body.artifacts else e.evidence_artifacts;
  evidence_metadata = if is_document body.metadata then body.metadata else e.evidence_metadata;
  updated_at = now;
}

unfoldable pub evidence_row : ℕ → Evidence → Option (Execution × Cue) → Db → Answer Db
evidence_row now body none db = not_found
evidence_row now body (some (e, c)) db =
    if is_some e.outcome_recorded_at
    then answered (update_execution e.id (exec_evidence now body) db)
    else refused 409 "no_outcome"

abbrev pub append_evidence : ℕ → ℕ → ℕ → Evidence → Db → Answer Db
append_evidence now user i body db = evidence_row now body (owned user i db) db

-- _resolve_live_claim_attestation: the time of the attestation, and the row where it is fresh.
abbrev pub exec_attested : ℕ → String → Execution → Execution
exec_attested now session_token e = record e {
  live_claim_session_token = some session_token;
  live_claimed_at = some now;
  updated_at = now;
}

abbrev pub same_token : Option String → String → Bool
same_token none t = false
same_token (some s) t = s == t

unfoldable pub attest : ℕ → String → Execution → Option ℕ → Db → Answer (ℕ × Db)
attest now session_token e none db =
    answered (now, update_execution e.id (exec_attested now session_token) db)
attest now session_token e (some at_time) db =
    if same_token e.live_claim_session_token session_token
    then answered (at_time, db)
    else refused 409 "already_attested"

unfoldable pub live_claim_row : ℕ → String → Option (Execution × Cue) → Db → Answer (ℕ × Db)
live_claim_row now session_token none db = not_found
live_claim_row now session_token (some (e, c)) db = attest now session_token e e.live_claimed_at db

abbrev pub live_claim_execution : ℕ → ℕ → ℕ → String → Db → Answer (ℕ × Db)
live_claim_execution now user i session_token db =
    live_claim_row now session_token (owned user i db) db
