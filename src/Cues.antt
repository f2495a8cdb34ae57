-- ===== src/Cues.antt =====
-- services/cue_service.py: the bodies of the requests, their checks, and the creation of a cue.
pub mod Documents
pub mod Update
pub mod Manage
pub mod Requests
pub mod Sound
pub mod Fires
pub mod Limit
pub mod Answers
pub mod Planned
pub mod Updated
pub mod Drafted
use cueapi_core.Prelude.{
  ℕ, ◌-◌, Bool, true, false, not, ◌&&◌, ◌||◌, String, Option, none, some, List, [], ◌∷◌, ◌++◌, ◌==◌,
  nat_eq, string_eq, ltb, leb, is_some, or_else, if◌then◌else◌, count_where, first_where,
}
use cueapi_core.Store.{
  CueStatus, cue_eq, ScheduleType, Transport, transport_eq, VerificationMode, OnFailure, Cue,
  Worker, Db, truthy, seconds,
}
use cueapi_core.Executions.Answer.{Answer, refused, answered}
use cueapi_core.Cues.Documents.{Json, contains_null_byte}

-- What the service asks of others: validate_callback_url, pytz, croniter with pytz (whether an expression is
-- read, and its next time after a given one), json.dumps, and the size of a text in UTF-8.
pub record Outside : Type 0 where
  pub is_safe : String → Bool
  pub is_timezone : String → Bool
  pub is_cron : String → Bool
  pub next_run : String → String → ℕ → ℕ
  pub dumps : Json → String
  pub size : String → ℕ

-- The user of the request, and the settings.
pub record Caller : Type 0 where
  pub id : ℕ
  pub active_cue_limit : ℕ
  pub quota_disabled : Bool
  pub heartbeat_timeout_seconds : ℕ

-- The parts of the bodies, as the schemas let them through, and in CueCreate with what the code takes in the
-- place of a part that is absent.
pub record ScheduleCreate : Type 0 where
  pub schedule_type : String
  pub cron : Option String
  pub at : Option ℕ
  pub timezone : String

pub record CallbackCreate : Type 0 where
  pub url : Option String
  pub method : String
  pub headers : Option String

pub record RetryConfig : Type 0 where
  pub max_attempts : ℕ
  pub backoff_minutes : List ℕ

pub record CueCreate : Type 0 where
  pub name : String
  pub description : Option String
  pub schedule : ScheduleCreate
  pub callback : CallbackCreate
  pub transport : Transport
  pub payload : Json
  pub retry : RetryConfig
  pub on_failure : Option OnFailure
  pub verification : Option VerificationMode

-- What the checks find: an error, or a value.
infixl 5 ◌>>=◌
abbrev pub ◌>>=◌ {ℓ κ} : {A : Type ℓ} {B : Type κ} → Answer A → (A → Answer B) → Answer B
refused status code >>= f = refused status code
answered a >>= f = f a

abbrev pub check : Bool → ℕ → String → Answer Bool
check ok status code = if ok then answered true else refused status code

abbrev pub max_payload_bytes : ℕ
max_payload_bytes = 1048576

unfoldable pub check_payload : Outside → Json → Answer String
unfolding contains_null_byte
check_payload out payload =
    if contains_null_byte payload
    then refused 400 "invalid_payload"
    else if ltb max_payload_bytes (out.size (out.dumps payload))
    then refused 400 "invalid_payload_size"
    else answered (out.dumps payload)

-- The columns that a schedule gives: type, expression, time and next run.
pub record Plan : Type 0 where
  pub kind : ScheduleType
  pub cron : Option String
  pub at : Option ℕ
  pub next : ℕ

abbrev invalid_schedule : Answer Plan
invalid_schedule = refused 400 "invalid_schedule"

-- `if not data.schedule.cron: ...`
unfoldable pub plan_recurring : Outside → ℕ → ScheduleCreate → Option String → Answer Plan
plan_recurring out now s none = invalid_schedule
plan_recurring out now s (some cron) =
    if cron == "" || not (out.is_cron cron)
    then invalid_schedule
    else answered (record {
      kind = ScheduleType.recurring;
      cron = some cron;
      at = none;
      next = out.next_run cron s.timezone now;
    })

unfoldable pub plan_once : ℕ → ScheduleCreate → Option ℕ → Answer Plan
plan_once now s none = invalid_schedule
plan_once now s (some at) =
    if leb at now
    then invalid_schedule
    else answered (record { kind = ScheduleType.once; cron = s.cron; at = some at; next = at })

unfoldable pub plan_of : Outside → ℕ → ScheduleCreate → Answer Plan
unfolding plan_recurring plan_once
plan_of out now s =
    if s.schedule_type == "recurring"
    then plan_recurring out now s s.cron
    else if s.schedule_type == "once"
    then plan_once now s s.at
    else invalid_schedule

abbrev pub has_name : ℕ → String → Cue → Bool
has_name user name c = c.user_id == user && c.name == name

abbrev pub counts : ℕ → Cue → Bool
counts user c = c.user_id == user && (c.status == CueStatus.active || c.status == CueStatus.paused)

abbrev pub is_active_worker : ℕ → ℕ → Worker → Bool
is_active_worker user cutoff w = w.user_id == user && leb cutoff w.last_heartbeat

abbrev pub default_on_failure : OnFailure
default_on_failure = record { email = some true; webhook = none; pause = some false }

-- The webhook of the escalation is safe, if there is one.
abbrev pub is_safe_escalation : Outside → Option OnFailure → Bool
is_safe_escalation out none = true
is_safe_escalation out (some f) =
    if truthy f.webhook then out.is_safe (or_else f.webhook "") else true

unfoldable pub new_cue : ℕ → ℕ → ℕ → CueCreate → String → Plan → Cue
new_cue now i user body payload plan = record {
  id = i;
  user_id = user;
  name = body.name;
  description = body.description;
  status = CueStatus.active;
  schedule_type = plan.kind;
  schedule_cron = body.schedule.cron;
  schedule_at = plan.at;
  schedule_timezone = body.schedule.timezone;
  callback_url = body.callback.url;
  callback_method = body.callback.method;
  callback_transport = body.transport;
  callback_headers = some (or_else body.callback.headers "{}");
  payload = some payload;
  retry_max_attempts = body.retry.max_attempts;
  retry_backoff_minutes = body.retry.backoff_minutes;
  next_run = some plan.next;
  last_run = none;
  run_count = 0;
  fired_count = 0;
  on_failure = some (or_else body.on_failure default_on_failure);
  verification_mode = body.verification;
  created_at = now;
  updated_at = now;
}

-- Up to the INSERT, over the tables that the SELECTs see. The first part is the warning.
unfoldable pub draft_cue : Outside → ℕ → ℕ → Caller → CueCreate → Db → Answer (Bool × Cue)
unfolding check_payload plan_of new_cue
draft_cue out now i user body db = do
  _ ←
      check (not (is_some (first_where (has_name user.id body.name) db.cues))) 409
        "duplicate_cue_name"
  _ ←
      check
        (user.quota_disabled || ltb (count_where (counts user.id) db.cues) user.active_cue_limit)
        403 "cue_limit_exceeded"
  _ ←
      check (body.transport == Transport.worker || out.is_safe (or_else body.callback.url "")) 400
        "invalid_callback_url"
  payload ← check_payload out body.payload
  _ ← check (out.is_timezone body.schedule.timezone) 422 "invalid_timezone"
  plan ← plan_of out now body.schedule
  _ ← check (is_safe_escalation out body.on_failure) 400 "invalid_callback_url"
  answered (
    body.transport == Transport.worker
        && count_where (is_active_worker user.id (now - seconds user.heartbeat_timeout_seconds))
            db.workers
          == 0,
    new_cue now i user.id body payload plan,
  )

-- The CHECK constraint valid_callback_method.
abbrev pub is_callback_method : String → Bool
is_callback_method t = t == "POST" || t == "GET" || t == "PUT" || t == "PATCH"

-- The INSERT with its commit, into the tables as they then are: whichever constraint is violated,
-- unique_user_cue_name or valid_callback_method, the answer is the same.
unfoldable pub insert_cue : Answer (Bool × Cue) → Db → Answer (Bool × Cue) × Db
insert_cue (refused status code) db = (refused status code, db)
insert_cue (answered (warning, c)) db =
    if is_some (first_where (has_name c.user_id c.name) db.cues)
      || not (is_callback_method c.callback_method)
    then (refused 409 "duplicate_cue_name", db)
    else (answered (warning, c), record db { cues = db.cues ++ c ∷ [] })

-- `seen` are the tables that the request reads, `db` those in which it commits.
unfoldable pub create_cue :
    Outside → ℕ → ℕ → Caller → CueCreate → Db → Db → Answer (Bool × Cue) × Db
unfolding draft_cue insert_cue
create_cue out now i user body seen db = insert_cue (draft_cue out now i user body seen) db
