-- ===== src/Cues/Update.antt =====
-- update_cue of services/cue_service.py: each part of the body changes the row or ends the request, which
-- then commits nothing.
use cueapi_core.Prelude.{
  ◌||◌, ℕ, Bool, not, ◌&&◌, String, Option, none, some, ◌==◌, nat_eq, string_eq, or_else, is_some,
  if◌then◌else◌, find, passing, first_where,
}
use cueapi_core.Store.{
  CueStatus, ScheduleType, schedule_eq, Transport, transport_eq, VerificationMode, OnFailure, Cue,
  Db, cue_keyed, truthy, update_cue as set_cue,
}
use cueapi_core.Executions.Answer.{Answer, refused, answered}
use cueapi_core.Cues.Documents.{Json}
use cueapi_core.Cues.{
  Outside, ScheduleCreate, CallbackCreate, RetryConfig, Plan, ◌>>=◌, check, check_payload,
  plan_recurring, plan_once, is_safe_escalation, has_name, is_callback_method,
}

-- The status that a request asks for: the schema knows no other.
pub data StatusChange : Type 0 where
  pause resume : StatusChange

pub record CueUpdate : Type 0 where
  pub name : Option String
  pub description : Option String
  pub status : Option StatusChange
  pub schedule : Option ScheduleCreate
  pub callback : Option CallbackCreate
  pub payload : Option Json
  pub retry : Option RetryConfig
  pub on_failure : Option OnFailure
  pub verification : Option VerificationMode

abbrev pub with_texts : CueUpdate → Cue → Cue
with_texts body c = record c {
  name = or_else body.name c.name;
  description = if is_some body.description then body.description else c.description;
}

unfoldable pub with_callback : Outside → Option CallbackCreate → Cue → Answer Cue
with_callback out none c = answered c
with_callback out (some callback) c =
    if c.callback_transport == Transport.webhook
      && is_some callback.url
      && not (out.is_safe (or_else callback.url ""))
    then refused 400 "invalid_callback_url"
    else answered (record c {
      callback_url = if is_some callback.url then callback.url else c.callback_url;
      callback_method = callback.method;
      callback_headers = some (or_else callback.headers "{}");
    })

unfoldable pub with_payload : Outside → Option Json → Cue → Answer Cue
unfolding check_payload
with_payload out none c = answered c
with_payload out (some payload) c = do
  stored ← check_payload out payload
  answered (record c { payload = some stored })

abbrev pub with_retry : Option RetryConfig → Cue → Cue
with_retry none c = c
with_retry (some retry) c = record c {
  retry_max_attempts = retry.max_attempts;
  retry_backoff_minutes = retry.backoff_minutes;
}

abbrev pub with_verification : Option VerificationMode → Cue → Cue
with_verification none c = c
with_verification (some mode) c = record c { verification_mode = some mode }

unfoldable pub with_on_failure : Outside → Option OnFailure → Cue → Answer Cue
with_on_failure out none c = answered c
with_on_failure out (some f) c = do
  _ ← check (is_safe_escalation out (some f)) 400 "invalid_callback_url"
  answered (record c { on_failure = some f })

abbrev pub planned : String → Plan → Cue → Cue
planned timezone plan c = record c {
  schedule_type = plan.kind;
  schedule_cron = plan.cron;
  schedule_at = plan.at;
  schedule_timezone = timezone;
  next_run = some plan.next;
}

abbrev pub with_plan : String → Cue → Answer Plan → Answer Cue
with_plan timezone c (refused status code) = refused status code
with_plan timezone c (answered plan) = answered (planned timezone plan c)

-- A schedule of another type is passed over.
unfoldable pub with_schedule : Outside → ℕ → Option ScheduleCreate → Cue → Answer Cue
unfolding plan_recurring plan_once
with_schedule out now none c = answered c
with_schedule out now (some s) c =
    if not (out.is_timezone s.timezone)
    then refused 422 "invalid_timezone"
    else if s.schedule_type == "recurring"
    then with_plan s.timezone c (plan_recurring out now s s.cron)
    else if s.schedule_type == "once"
    then with_plan s.timezone c (plan_once now (record s { cron = none }) s.at)
    else answered c

-- When a cue that is resumed runs next.
unfoldable pub resumed_run : Outside → ℕ → Cue → Option ℕ
resumed_run out now c =
    if c.schedule_type == ScheduleType.recurring && truthy c.schedule_cron
    then some (out.next_run (or_else c.schedule_cron "") c.schedule_timezone now)
    else if c.schedule_type == ScheduleType.once && is_some c.schedule_at
    then c.schedule_at
    else c.next_run

unfoldable pub with_status : Outside → ℕ → Option StatusChange → Cue → Cue
unfolding resumed_run
with_status out now none c = c
with_status out now (some pause) c = record c { status = CueStatus.paused; next_run = none }
with_status out now (some resume) c = record c {
  status = CueStatus.active;
  next_run = resumed_run out now c;
}

-- The row that the request commits.
unfoldable pub updated_cue : Outside → ℕ → CueUpdate → Cue → Answer Cue
unfolding with_callback with_payload with_on_failure with_schedule with_status
updated_cue out now body c = do
  called ← with_callback out body.callback (with_texts body c)
  loaded ← with_payload out body.payload called
  escalated ←
      with_on_failure out body.on_failure
        (with_verification body.verification (with_retry body.retry loaded))
  scheduled ← with_schedule out now body.schedule escalated
  answered (record (with_status out now body.status scheduled) { updated_at = now })

abbrev pub is_other : Cue → Cue → Bool
is_other c d = has_name c.user_id c.name d && not (d.id == c.id)

-- The commit: nothing catches that a name which another cue of the user has violates unique_user_cue_name, or
-- that a method violates valid_callback_method.
unfoldable pub commit_cue : Answer Cue → Db → Answer Cue × Db
commit_cue (refused status code) db = (refused status code, db)
commit_cue (answered c) db =
    if is_some (first_where (is_other c) db.cues) || not (is_callback_method c.callback_method)
    then (refused 500 "internal_error", db)
    else (answered c, set_cue c.id (λ old. c) db)

abbrev pub cue_not_found : Answer Cue
cue_not_found = refused 404 "cue_not_found"

abbrev pub is_owned : ℕ → Cue → Bool
is_owned user c = c.user_id == user

unfoldable pub update_found : Outside → ℕ → CueUpdate → Option Cue → Db → Answer Cue × Db
unfolding updated_cue commit_cue
update_found out now body none db = (cue_not_found, db)
update_found out now body (some c) db = commit_cue (updated_cue out now body c) db

unfoldable pub update_cue : Outside → ℕ → ℕ → ℕ → CueUpdate → Db → Answer Cue × Db
unfolding update_found
update_cue out now user i body db =
    update_found out now body (passing (is_owned user) (find i db.cues)) db
