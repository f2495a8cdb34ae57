-- ===== src/Store/Enums.antt =====
-- The CHECK-constrained text columns of app/models as enumerations, each with its equality test.
use cueapi_core.Prelude.{ℕ, ◌≡◌, ◌↔◌, true, arith, Testable, nat_beq}

-- executions.status
pub data ExecStatus : Type 0 where
  pending delivering success failed retrying retry_ready missed pending_outcome outcome_timeout :
      ExecStatus

abbrev pub exec_rank : ExecStatus → ℕ
exec_rank ExecStatus.pending = 0
exec_rank ExecStatus.delivering = 1
exec_rank ExecStatus.success = 2
exec_rank ExecStatus.failed = 3
exec_rank ExecStatus.retrying = 4
exec_rank ExecStatus.retry_ready = 5
exec_rank ExecStatus.missed = 6
exec_rank ExecStatus.pending_outcome = 7
exec_rank ExecStatus.outcome_timeout = 8

pub exec_rank_iff : (a b : ExecStatus) → (nat_beq (exec_rank a) (exec_rank b) ≡ true) ↔ (a ≡ b)
exec_rank_iff a b = ground arith

instance abbrev pub exec_eq : Testable ExecStatus
exec_eq = record { same = λ a b. nat_beq (exec_rank a) (exec_rank b); same_iff = exec_rank_iff }

-- cues.status
pub data CueStatus : Type 0 where
  active paused completed failed : CueStatus

abbrev pub cue_rank : CueStatus → ℕ
cue_rank CueStatus.active = 0
cue_rank CueStatus.paused = 1
cue_rank CueStatus.completed = 2
cue_rank CueStatus.failed = 3

pub cue_rank_iff : (a b : CueStatus) → (nat_beq (cue_rank a) (cue_rank b) ≡ true) ↔ (a ≡ b)
cue_rank_iff a b = ground arith

instance abbrev pub cue_eq : Testable CueStatus
cue_eq = record { same = λ a b. nat_beq (cue_rank a) (cue_rank b); same_iff = cue_rank_iff }

-- cues.schedule_type
pub data ScheduleType : Type 0 where
  once recurring : ScheduleType

abbrev pub schedule_rank : ScheduleType → ℕ
schedule_rank ScheduleType.once = 0
schedule_rank ScheduleType.recurring = 1

pub schedule_rank_iff :
    (a b : ScheduleType) → (nat_beq (schedule_rank a) (schedule_rank b) ≡ true) ↔ (a ≡ b)
schedule_rank_iff a b = ground arith

instance abbrev pub schedule_eq : Testable ScheduleType
schedule_eq = record {
  same = λ a b. nat_beq (schedule_rank a) (schedule_rank b);
  same_iff = schedule_rank_iff;
}

-- cues.callback_transport
pub data Transport : Type 0 where
  webhook worker : Transport

abbrev pub transport_rank : Transport → ℕ
transport_rank Transport.webhook = 0
transport_rank Transport.worker = 1

pub transport_rank_iff :
    (a b : Transport) → (nat_beq (transport_rank a) (transport_rank b) ≡ true) ↔ (a ≡ b)
transport_rank_iff a b = ground arith

instance abbrev pub transport_eq : Testable Transport
transport_eq = record {
  same = λ a b. nat_beq (transport_rank a) (transport_rank b);
  same_iff = transport_rank_iff;
}

-- dispatch_outbox.task_type, and a text that names no task
pub data TaskType : Type 0 where
  deliver retry deliver_message retry_message other : TaskType

abbrev pub task_rank : TaskType → ℕ
task_rank TaskType.deliver = 0
task_rank TaskType.retry = 1
task_rank TaskType.deliver_message = 2
task_rank TaskType.retry_message = 3
task_rank TaskType.other = 4

pub task_rank_iff : (a b : TaskType) → (nat_beq (task_rank a) (task_rank b) ≡ true) ↔ (a ≡ b)
task_rank_iff a b = ground arith

instance abbrev pub task_eq : Testable TaskType
task_eq = record { same = λ a b. nat_beq (task_rank a) (task_rank b); same_iff = task_rank_iff }

-- messages.delivery_state
pub data DeliveryState : Type 0 where
  queued delivering retry_ready delivered read claimed acked expired failed : DeliveryState

abbrev pub delivery_rank : DeliveryState → ℕ
delivery_rank DeliveryState.queued = 0
delivery_rank DeliveryState.delivering = 1
delivery_rank DeliveryState.retry_ready = 2
delivery_rank DeliveryState.delivered = 3
delivery_rank DeliveryState.read = 4
delivery_rank DeliveryState.claimed = 5
delivery_rank DeliveryState.acked = 6
delivery_rank DeliveryState.expired = 7
delivery_rank DeliveryState.failed = 8

pub delivery_rank_iff :
    (a b : DeliveryState) → (nat_beq (delivery_rank a) (delivery_rank b) ≡ true) ↔ (a ≡ b)
delivery_rank_iff a b = ground arith

instance abbrev pub delivery_eq : Testable DeliveryState
delivery_eq = record {
  same = λ a b. nat_beq (delivery_rank a) (delivery_rank b);
  same_iff = delivery_rank_iff;
}

-- executions.outcome_state
pub data OutcomeState : Type 0 where
  reported_success reported_failure verified_success verification_failed verification_pending :
      OutcomeState

abbrev pub outcome_rank : OutcomeState → ℕ
outcome_rank OutcomeState.reported_success = 0
outcome_rank OutcomeState.reported_failure = 1
outcome_rank OutcomeState.verified_success = 2
outcome_rank OutcomeState.verification_failed = 3
outcome_rank OutcomeState.verification_pending = 4

pub outcome_rank_iff :
    (a b : OutcomeState) → (nat_beq (outcome_rank a) (outcome_rank b) ≡ true) ↔ (a ≡ b)
outcome_rank_iff a b = ground arith

instance abbrev pub outcome_eq : Testable OutcomeState
outcome_eq = record {
  same = λ a b. nat_beq (outcome_rank a) (outcome_rank b);
  same_iff = outcome_rank_iff;
}

-- cues.verification_mode, and a text that names no mode
pub data VerificationMode : Type 0 where
  none require_external_id require_result_url require_artifacts manual other : VerificationMode

abbrev pub mode_rank : VerificationMode → ℕ
mode_rank VerificationMode.none = 0
mode_rank VerificationMode.require_external_id = 1
mode_rank VerificationMode.require_result_url = 2
mode_rank VerificationMode.require_artifacts = 3
mode_rank VerificationMode.manual = 4
mode_rank VerificationMode.other = 5

pub mode_rank_iff :
    (a b : VerificationMode) → (nat_beq (mode_rank a) (mode_rank b) ≡ true) ↔ (a ≡ b)
mode_rank_iff a b = ground arith

instance abbrev pub mode_eq : Testable VerificationMode
mode_eq = record { same = λ a b. nat_beq (mode_rank a) (mode_rank b); same_iff = mode_rank_iff }
