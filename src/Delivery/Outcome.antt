-- ===== src/Delivery/Outcome.antt =====
-- _handle_success and _handle_failure: what a delivery attempt leaves in the database.
pub mod Backoff
use text.Mathlib.Text.{◌==◌ as str_eq}
use mathlib.Core.Option
use cueapi_core.Prelude.{
  ℕ, ◌+◌, ◌≡◌, Bool, true, false, not, ◌&&◌, String, Option, none, some, List, [], ◌∷◌, ◌++◌, ◌==◌,
  if◌then◌else◌, or_else, is_some, find, ltb,
}
use cueapi_core.Redis.{Redis}
use cueapi_core.Store.{
  ExecStatus, CueStatus, ScheduleType, schedule_eq, Execution, Cue, CueTask, OnFailure, Note, Db,
  cue_keyed, minutes, update_execution, update_cue, truthy,
}
use cueapi_core.Usage.Counter.{increment_usage}
use cueapi_core.Delivery.Outcome.Backoff.{backoff_for}

-- The calls that leave the server, in order.
pub data Effect : Type 0 where
  -- the POST of a job, with the number of its attempt
  webhook_sent : CueTask → ℕ → Effect
  -- user, cue, name (if it is not empty), execution, error
  failure_email : ℕ → ℕ → Option String → ℕ → Note → Effect
  -- url, cue, name, attempts, last HTTP status, error, time
  failure_webhook : String → ℕ → Option String → ℕ → Option ℕ → Note → ℕ → Effect

-- `cue_row.name or cue_id`
abbrev pub label : String → Option String
label t = if str_eq t "" then none else some t

-- `cue_row.on_failure if cue_row and cue_row.on_failure else {}`
abbrev pub on_failure_of : Option Cue → OnFailure
on_failure_of none = record { email = none; webhook = none; pause = none }
on_failure_of (some c) =
    or_else c.on_failure (record { email = none; webhook = none; pause = none })

abbrev pub is_once : Option Cue → Bool
is_once none = false
is_once (some c) = c.schedule_type == ScheduleType.once

abbrev pub cue_failed : ℕ → Cue → Cue
cue_failed now c = record c { status = CueStatus.failed; updated_at = now }

abbrev pub cue_paused : ℕ → Cue → Cue
cue_paused now c = record c { status = CueStatus.paused; next_run = none; updated_at = now }

-- The three rows that an attempt may leave.
abbrev pub exec_retrying : ℕ → Option ℕ → Note → ℕ → ℕ → Execution → Execution
exec_retrying now http_status error attempt next_retry e = record e {
  status = ExecStatus.retrying;
  http_status = http_status;
  error_message = some error;
  last_attempt_at = some now;
  attempts = attempt;
  next_retry = some next_retry;
  updated_at = now;
}

abbrev pub exec_failed : ℕ → Option ℕ → Note → ℕ → Execution → Execution
exec_failed now http_status error attempt e = record e {
  status = ExecStatus.failed;
  http_status = http_status;
  error_message = some error;
  last_attempt_at = some now;
  attempts = attempt;
  next_retry = none;
  updated_at = now;
}

abbrev pub exec_success : ℕ → Option ℕ → Option Note → ℕ → Execution → Execution
exec_success now http_status body attempt e = record e {
  status = ExecStatus.success;
  http_status = http_status;
  response_body = body;
  delivered_at = some now;
  last_attempt_at = some now;
  attempts = attempt;
  next_retry = none;
  updated_at = now;
}

-- The notifications of a final failure.
unfoldable pub escalations : ℕ → ℕ → Option Cue → ℕ → ℕ → Option ℕ → Note → List Effect
escalations now i none cue_id attempt http_status error = []
escalations now i (some c) cue_id attempt http_status error =
    let on_failure = on_failure_of (some c) in
    let email : List Effect =
      if or_else on_failure.email true
      then failure_email c.user_id cue_id (label c.name) i error ∷ []
      else [] in
    let webhook : List Effect =
      if truthy on_failure.webhook
      then failure_webhook (or_else on_failure.webhook "") cue_id (label c.name) attempt http_status
          error now
        ∷ []
      else [] in
    email ++ webhook

-- _handle_failure
unfoldable pub handle_failure : ℕ → ℕ → Option ℕ → Note → ℕ → ℕ → ℕ → List ℕ → Db → Db × List Effect
handle_failure now i http_status error attempt cue_id max_attempts backoff db =
    let retried =
      update_execution i
        (exec_retrying now http_status error attempt (now + minutes (backoff_for attempt backoff)))
        db in
    let exhausted =
      update_cue cue_id (λ c. record c { last_run = some now; updated_at = now })
        (update_execution i (exec_failed now http_status error attempt) db) in
    let cue_row = find cue_id exhausted.cues in
    let closed =
      if is_once cue_row then update_cue cue_id (cue_failed now) exhausted else exhausted in
    let paused =
      if or_else (on_failure_of cue_row).pause false && is_some cue_row && not (is_once cue_row)
      then update_cue cue_id (cue_paused now) closed
      else closed in
    if ltb attempt max_attempts
    then (retried, [])
    else (paused, escalations now i cue_row cue_id attempt http_status error)

-- _handle_success up to its commit.
unfoldable pub commit_success : ℕ → ℕ → Option ℕ → Option Note → ℕ → ℕ → Db → Db
commit_success now i http_status body attempt cue_id db =
    let delivered =
      update_cue cue_id (λ c. record c { last_run = some now; updated_at = now })
        (update_execution i (exec_success now http_status body attempt) db) in
    if is_once (find cue_id delivered.cues)
    then update_cue cue_id (λ c. record c { status = CueStatus.completed; updated_at = now })
        delivered
    else delivered

module _ (R : Redis) where
  open R use {State}

  -- _handle_success. `usage` is what the usage counter needs: the month, and whether the
  -- statements of increment_usage go through; it is none if there is no Redis client.
  unfoldable pub handle_success :
      ℕ
      → ℕ
      → Option ℕ
      → Option Note
      → ℕ
      → ℕ
      → Option ℕ
      → Option (ℕ × Bool)
      → Db × State
      → Db × State
  handle_success now i http_status body attempt cue_id user usage (db, s) =
      let closed = commit_success now i http_status body attempt cue_id db in
      elim user [
        | none ↦ (closed, s)
        | some u ↦ elim usage [
          | none ↦ (closed, s)
          | some (month, durable) ↦ increment_usage R now month u durable (closed, s)
        ]
      ]
