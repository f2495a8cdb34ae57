-- ===== src/Delivery/Attempt.antt =====
-- What one attempt leaves of the execution and of its cue.
use cueapi_core.Prelude.{
  ℕ, ◌+◌, ◌≡◌, ◌<◌, refl, Bool, false, Option, none, some, List, [], ◌∷◌, true, ◌==◌, ap, ◌∙◌,
  nat_eq, if◌then◌else◌, or_else, find, arith, update_row, where_, Bool-cases, inl, inr,
  find-update_row, ltb,
}
use cueapi_core.Redis.{Redis}
use cueapi_core.Store.{
  ExecStatus, CueStatus, truthy, ScheduleType, schedule_eq, Execution, Cue, Note, Db,
  execution_keyed, cue_keyed, minutes,
}
use cueapi_core.Usage.Counter.{increment_usage-tables}
use cueapi_core.Delivery.Outcome.{
  exec_retrying, exec_failed, exec_success, on_failure_of, handle_failure, handle_success,
  commit_success, escalations, Effect, webhook_sent, failure_email, failure_webhook, label,
}
use cueapi_core.Delivery.Outcome.Backoff.{backoff_for}

-- An update of one execution, by key.
pub find-update_execution :
    (i j : ℕ) (f : Execution → Execution)
    → ((e : Execution) → (f e).id ≡ e.id)
    → (t : List Execution) (e : Execution) → find j t ≡ some e
    → find j (update_row i f t) ≡ some (if i == j then f e else e)
find-update_execution i j f keeps t e h = ground (arith, find-update_row i j f keeps t)

find-update_cue :
    (k : ℕ) (f : Cue → Cue)
    → ((c : Cue) → (f c).id ≡ c.id)
    → (t : List Cue) (c : Cue) → find k t ≡ some c
    → find k (update_row k f t) ≡ some (f c)
find-update_cue k f keeps t c h = ground (arith, find-update_row k k f keeps t)

pub handle_failure-executions :
    (now i : ℕ) (http_status : Option ℕ) (error : Note) (attempt cue_id max : ℕ) (backoff : List ℕ)
    (db : Db)
    → (handle_failure now i http_status error attempt cue_id max backoff db).0.executions ≡ (
        if ltb attempt max
        then update_row i
            (exec_retrying now http_status error attempt
              (now + minutes (backoff_for attempt backoff)))
            db.executions
        else update_row i (exec_failed now http_status error attempt) db.executions)
unfolding handle_failure
handle_failure-executions now i http_status error attempt cue_id max backoff db = ground arith

pub commit_success-executions :
    (now i : ℕ) (http_status : Option ℕ) (body : Option Note) (attempt cue_id : ℕ) (db : Db)
    → (commit_success now i http_status body attempt cue_id db).executions
      ≡ update_row i (exec_success now http_status body attempt) db.executions
unfolding commit_success
commit_success-executions now i http_status body attempt cue_id db = ground arith

module _ (now i : ℕ) (http_status : Option ℕ) (error : Note) (attempt cue_id max : ℕ)
    (backoff : List ℕ) (db : Db) where
  -- A failed attempt under the budget schedules the next one after the backoff of that attempt: the
  -- execution is retrying, nothing is sent, no cue changes and no other execution does.
  failure_retries :
      (j : ℕ) (e : Execution)
      → attempt < max
      → find j db.executions ≡ some e
      → let (db', effects) = handle_failure now i http_status error attempt cue_id max backoff db in
        (find j db'.executions
          ≡ some (
              if i == j
              then exec_retrying now http_status error attempt
                  (now + minutes (backoff_for attempt backoff))
                  e
              else e))
        × (db'.cues ≡ db.cues)
        × (effects ≡ [])
  unfolding handle_failure
  failure_retries j e less h =
      let row =
        find-update_execution i j
          (exec_retrying now http_status error attempt
            (now + minutes (backoff_for attempt backoff)))
          (λ x. refl) db.executions e h in
      (ground (arith, row), ground arith, ground arith)

  -- The cue of an execution that has failed for good.
  abbrev pub exhausted_cue : Cue → Cue
  exhausted_cue c =
      let ran = record c { last_run = some now; updated_at = now } in
      if c.schedule_type == ScheduleType.once
      then record ran { status = CueStatus.failed }
      else if or_else (on_failure_of (some c)).pause false
      then record ran { status = CueStatus.paused; next_run = none }
      else ran

  abbrev pub given_up : Execution → Execution
  given_up e = record e {
    status = ExecStatus.failed;
    http_status = http_status;
    error_message = some error;
    last_attempt_at = some now;
    attempts = attempt;
    next_retry = none;
    updated_at = now;
  }

  abbrev pub wanted_email : Cue → List Effect
  wanted_email c =
      if or_else (on_failure_of (some c)).email true
      then failure_email c.user_id cue_id (label c.name) i error ∷ []
      else []

  abbrev pub wanted_webhook : Cue → List Effect
  wanted_webhook c =
      if truthy (on_failure_of (some c)).webhook
      then failure_webhook (or_else (on_failure_of (some c)).webhook "") cue_id (label c.name)
          attempt http_status error now
        ∷ []
      else []

-- The POSTs among the effects; the notifications of a failure are none.
abbrev pub is_send : Effect → Bool
is_send (webhook_sent p n) = true
is_send (failure_email user cue name i error) = false
is_send (failure_webhook url cue name n http_status error now) = false

escalations-sends :
    (now i : ℕ) (o : Option Cue) (cue_id attempt : ℕ) (http_status : Option ℕ) (error : Note)
    → where_ is_send (escalations now i o cue_id attempt http_status error) ≡ []
unfolding escalations where_
escalations-sends now i none cue_id attempt http_status error = refl
escalations-sends now i (some c) cue_id attempt http_status error = ground arith

pub handle_failure-sends :
    (now i : ℕ) (http_status : Option ℕ) (error : Note) (attempt cue_id max : ℕ) (backoff : List ℕ)
    (db : Db)
    → where_ is_send (handle_failure now i http_status error attempt cue_id max backoff db).1 ≡ []
unfolding handle_failure where_
handle_failure-sends now i http_status error attempt cue_id max backoff db =
    let touch : Cue → Cue = λ q. record q { last_run = some now; updated_at = now } in
    elim (Bool-cases (ltb attempt max)) [
      | inl less ↦ rw less refl
      | inr full ↦ rw full (
          escalations-sends now i (find cue_id (update_row cue_id touch db.cues)) cue_id attempt
            http_status error)
    ]

abbrev pub delivered_cue : ℕ → Cue → Cue
delivered_cue now c =
    let ran = record c { last_run = some now; updated_at = now } in
    if c.schedule_type == ScheduleType.once
    then record ran { status = CueStatus.completed }
    else ran

commit_success_rows :
    (now i : ℕ) (http_status : Option ℕ) (body : Option Note) (attempt cue_id : ℕ) (db : Db) (j : ℕ)
    (e : Execution) (c : Cue)
    → find j db.executions ≡ some e
    → find cue_id db.cues ≡ some c
    → let db' = commit_success now i http_status body attempt cue_id db in
      (find j db'.executions
        ≡ some (if i == j then exec_success now http_status body attempt e else e))
      × (find cue_id db'.cues ≡ some (delivered_cue now c))
unfolding commit_success
commit_success_rows now i http_status body attempt cue_id db j e c h hc =
    let row =
      find-update_execution i j (exec_success now http_status body attempt) (λ x. refl)
        db.executions e h in
    let touch : Cue → Cue = λ q. record q { last_run = some now; updated_at = now } in
    let close : Cue → Cue = λ q. record q { status = CueStatus.completed; updated_at = now } in
    let ran = find-update_cue cue_id touch (λ q. refl) db.cues c hc in
    let done =
      find-update_cue cue_id close (λ q. refl) (update_row cue_id touch db.cues) (touch c) ran in
    (ground (arith, row), ground (arith, ran, done))

module _ (R : Redis) where
  open R use {State}

  pub handle_success-commit_success :
      (now i : ℕ) (http_status : Option ℕ) (body : Option Note) (attempt cue_id : ℕ)
      (user : Option ℕ) (usage : Option (ℕ × Bool)) (db : Db) (s : State)
      → let db' = (handle_success R now i http_status body attempt cue_id user usage (db, s)).0 in
        let done = commit_success now i http_status body attempt cue_id db in
        (db'.executions ≡ done.executions) × (db'.cues ≡ done.cues)
  unfolding handle_success
  handle_success-commit_success now i http_status body attempt cue_id none usage db s = (refl, refl)
  handle_success-commit_success now i http_status body attempt cue_id (some u) none db s =
      (refl, refl)
  handle_success-commit_success now i http_status body attempt cue_id (some u) (some (m, d)) db s =
      increment_usage-tables R now m u d (commit_success now i http_status body attempt cue_id db) s

  -- A delivered execution is a success without a next retry, and a one-time cue is completed; no
  -- other execution changes.
  success_settles :
      (now i : ℕ) (http_status : Option ℕ) (body : Option Note) (attempt cue_id : ℕ)
      (user : Option ℕ) (usage : Option (ℕ × Bool)) (db : Db) (s : State) (j : ℕ) (e : Execution)
      (c : Cue)
      → find j db.executions ≡ some e
      → find cue_id db.cues ≡ some c
      → let db' = (handle_success R now i http_status body attempt cue_id user usage (db, s)).0 in
        (find j db'.executions
          ≡ some (if i == j then exec_success now http_status body attempt e else e))
        × (find cue_id db'.cues ≡ some (delivered_cue now c))
  success_settles now i http_status body attempt cue_id user usage db s j e c h hc =
      let same =
        handle_success-commit_success now i http_status body attempt cue_id user usage db s in
      let rows = commit_success_rows now i http_status body attempt cue_id db j e c h hc in
      (ap (find j) same.0 ∙ rows.0, ap (find cue_id) same.1 ∙ rows.1)
