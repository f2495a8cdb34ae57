-- ===== src/Cues/Manage.antt =====
-- list_cues, get_cue and delete_cue of services/cue_service.py, and fire_cue of routers/cues.py.
use mathlib.Core.List.{reverse}
use mathlib.Core.Option
use cueapi_core.Prelude.{
  ℕ, Bool, true, false, not, ◌&&◌, ◌||◌, String, Option, none, some, List, [], ◌∷◌, ◌++◌, ◌==◌,
  nat_eq, is_null, is_some, first_where, ltb, length, take, where_, order_by, find, passing,
  if◌then◌else◌,
}
use cueapi_core.Store.{
  CueStatus, cue_eq, Transport, transport_eq, TaskType, Execution, Cue, Outbox, Db, cue_keyed,
  execution_keyed, user_keyed, cue_task, insert_outbox, truthy,
}
use cueapi_core.Executions.Answer.{Answer, refused, answered}
use cueapi_core.Executions.Replay.{replay_payload}
use cueapi_core.Poller.Due.{new_execution, same_run}
use cueapi_core.Messages.Inbox.{drop}
use cueapi_core.Cues.Update.{is_owned}

abbrev pub of_status : Option CueStatus → Cue → Bool
of_status none c = true
of_status (some s) c = c.status == s

-- A page, with the total.
pub record Paged {ℓ} (A : Type ℓ) : Type ℓ where
  pub rows : List A
  pub total : ℕ

-- ORDER BY created_at DESC LIMIT limit OFFSET offset
abbrev pub page_by {ℓ} : {A : Type ℓ} → (A → ℕ) → ℕ → ℕ → List A → Paged A
page_by k limit offset xs = record {
  rows = take limit (drop offset (reverse (order_by k xs)));
  total = length xs;
}

unfoldable pub list_cues : ℕ → Option CueStatus → ℕ → ℕ → Db → Paged Cue
list_cues user status limit offset db =
    page_by (λ c. c.created_at) limit offset
      (where_ (λ c. is_owned user c && of_status status c) db.cues)

abbrev pub own_cue : ℕ → ℕ → Db → Option Cue
own_cue user i db = passing (is_owned user) (find i db.cues)

unfoldable pub get_cue : ℕ → ℕ → ℕ → ℕ → Db → Option (Cue × Paged Execution)
get_cue user i limit offset db =
    Option.map
      (λ c.
        (c, page_by (λ e. e.created_at) limit offset (where_ (λ e. e.cue_id == i) db.executions)))
      (own_cue user i db)

abbrev pub is_run_of : ℕ → Option Execution → Bool
is_run_of i none = false
is_run_of i (some e) = e.cue_id == i

abbrev pub refers : ℕ → Option ℕ → List Execution → Bool
refers i none executions = false
refers i (some x) executions = is_run_of i (find x executions)

abbrev pub is_col : Option ℕ → ℕ → Bool
is_col none i = false
is_col (some j) i = j == i

-- The foreign keys to cues and to executions are ON DELETE CASCADE.
abbrev pub is_outbox_of : ℕ → List Execution → Outbox → Bool
is_outbox_of i executions o = is_col o.cue_id i || refers i o.execution_id executions

abbrev pub without_cue : ℕ → Db → Db
without_cue i db = record db {
  cues = where_ (λ c. not (c.id == i)) db.cues;
  executions = where_ (λ e. not (e.cue_id == i)) db.executions;
  outbox = where_ (λ o. not (is_outbox_of i db.executions o)) db.outbox;
}

-- Whether there was a cue to delete.
unfoldable pub delete_found : ℕ → Option Cue → Db → Bool × Db
delete_found i none db = (false, db)
delete_found i (some c) db = (true, without_cue i db)

unfoldable pub delete_cue : ℕ → ℕ → Db → Bool × Db
unfolding delete_found
delete_cue user i db = delete_found i (own_cue user i db) db

-- agent_live_sessions, as far as _build_ipc_delivery_metadata reads it.
pub record LiveSession : Type 0 where
  pub cue_id : ℕ
  pub is_ipc : Bool
  pub detached_at : Option ℕ

abbrev pub is_attached_ipc : ℕ → LiveSession → Bool
is_attached_ipc i s = s.cue_id == i && s.is_ipc && is_null s.detached_at

-- scalar_one_or_none raises if there are two rows, which the unique index on cue_id rules out: the outer none.
abbrev pub ipc_request : List LiveSession → Option (Option String)
ipc_request [] = some none
ipc_request (s ∷ []) = some (some "{\"delivery_mode_requested\": \"ipc\"}")
ipc_request (s ∷ t ∷ ss) = none

unfoldable pub build_ipc_delivery_metadata : ℕ → List LiveSession → Option (Option String)
build_ipc_delivery_metadata i sessions = ipc_request (where_ (is_attached_ipc i) sessions)

-- The time of a request, with a timezone or without.
pub data SendAt : Type 0 where
  aware naive : ℕ → SendAt

-- When a fire is due: in the past is now. A time without a timezone cannot be compared with now: none is the
-- TypeError.
unfoldable pub effective_time : ℕ → Option SendAt → Option ℕ
effective_time now none = some now
effective_time now (some (aware at)) = if ltb now at then some at else some now
effective_time now (some (naive at)) = none

-- `scheduled_at` of the outbox row.
abbrev pub gate : ℕ → ℕ → Option ℕ
gate now at = if ltb now at then some at else none

unfoldable pub fire_rows : ℕ → ℕ → ℕ → Option String → ℕ → Cue → Db → Db
fire_rows now user new_id metadata at c db =
    let execution = record (new_execution now new_id c.id at (some "manual_fire")) {
      outcome_metadata = metadata;
    } in
    let added = record db { executions = db.executions ++ execution ∷ [] } in
    let sent =
      insert_outbox now (some new_id) (some c.id) TaskType.deliver
        (cue_task (replay_payload user (find user db.users) c new_id at)) (gate now at) added in
    if c.callback_transport == Transport.webhook && truthy c.callback_url then sent else added

abbrev pub cue_missing : Answer ℕ
cue_missing = refused 404 "cue_not_found"

abbrev internal_error : Answer ℕ
internal_error = refused 500 "internal_error"

abbrev pub has_run : ℕ → ℕ → Db → Bool
has_run i at db = is_some (first_where (same_run i at) db.executions)

-- Nothing catches the TypeError, what scalar_one_or_none raises, or the violation of idx_executions_dedup.
unfoldable pub fire_found : ℕ → ℕ → ℕ → Option ℕ → Cue → Option (Option String) → Db → Answer ℕ × Db
unfolding fire_rows
fire_found now user new_id none c metadata db = (internal_error, db)
fire_found now user new_id (some at) c none db = (internal_error, db)
fire_found now user new_id (some at) c (some metadata) db =
    if has_run c.id at db
    then (internal_error, db)
    else (answered new_id, fire_rows now user new_id metadata at c db)

unfoldable pub fire_own :
    ℕ → ℕ → ℕ → Option SendAt → List LiveSession → Option Cue → Db → Answer ℕ × Db
unfolding fire_found effective_time build_ipc_delivery_metadata
fire_own now user new_id send_at sessions none db = (cue_missing, db)
fire_own now user new_id send_at sessions (some c) db =
    fire_found now user new_id (effective_time now send_at) c
      (build_ipc_delivery_metadata c.id sessions) db

unfoldable pub fire_cue : ℕ → ℕ → ℕ → ℕ → Option SendAt → List LiveSession → Db → Answer ℕ × Db
unfolding fire_own
fire_cue now user i new_id send_at sessions db =
    fire_own now user new_id send_at sessions (own_cue user i db) db
