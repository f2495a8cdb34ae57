-- ===== src/Tests/Recovery.antt =====
-- Retries, the outbox and the recovery jobs on small databases.
use mathlib.Core.Option
use cueapi_core.Prelude.{
  ◌+◌, ◌-◌, ◌≡◌, ◌≤◌, refl, true, false, String, none, some, [], ◌∷◌, find, count_where, where_,
  Option, update_row, each, order_by, nat_eq,
}
use cueapi_core.Store.{
  ExecStatus, Transport, TaskType, Execution, Outbox, Db, cue_task, execution_keyed, cue_keyed,
  outbox_keyed, seconds,
}
use cueapi_core.Poller.Retries.{poll_retries, hand_over}
use cueapi_core.Poller.Dispatch.{dispatch_outbox, send, route}
use cueapi_core.Poller.Dispatch.Once.{of_row, dispatch_outbox_once}
use cueapi_core.Poller.Recovery.{is_stale}
use cueapi_core.Tests.Samples.{daily, waiting, empty_db, waiting_db, job}

-- An execution that may be tried again since time 4000.
abbrev retrying_db : Db
retrying_db = record empty_db {
  executions = record waiting { status = ExecStatus.retrying; next_retry = some 4000 } ∷ [];
}

-- It is handed over.
retry_polled : (poll_retries 5000 10 retrying_db).0 ≡ 1
unfolding poll_retries where_ hand_over find each
retry_polled = refl

-- An outbox with one row.
abbrev row : Outbox
row = record {
  id = 1;
  execution_id = some 40;
  cue_id = some 1;
  task_type = TaskType.deliver;
  payload = cue_task job;
  dispatched = false;
  dispatch_attempts = 0;
  last_dispatch_error = none;
  scheduled_at = none;
  created_at = 1000;
}

abbrev row_db : Db
row_db = record waiting_db { outbox = row ∷ [] }

abbrev accepts : Outbox → Option String
accepts o = none

dispatch_outbox_once_example :
    let db = (dispatch_outbox accepts 2000 10 row_db).1 in
    count_where (of_row 1) (dispatch_outbox accepts 2000 10 row_db).0
      + count_where (of_row 1) (dispatch_outbox accepts 2100 10 db).0
    ≤ 1
unfolding find dispatch_outbox send route where_ order_by each update_row
dispatch_outbox_once_example =
    dispatch_outbox_once accepts accepts 2000 2100 10 10 1 row_db
      (dispatch_outbox accepts 2000 10 row_db).1 (refl, tt) (refl, tt) refl

-- A worker has claimed the execution of a worker cue at time 10 s and is alive at 320 s.
abbrev claimed_one : Execution
claimed_one = record waiting {
  status = ExecStatus.delivering;
  claimed_by_worker = some "w";
  claimed_at = some (seconds 10);
  updated_at = seconds 10;
}

abbrev claimed_db : Db
claimed_db = record empty_db {
  executions = claimed_one ∷ [];
  cues = record daily { callback_transport = Transport.worker } ∷ [];
  workers = record { user_id = 7; worker_id = "w"; last_heartbeat = seconds 319 } ∷ [];
}

-- Its lease lasts until 910 s, and it is taken from the worker at 320 s.
lease_ignored : is_stale (seconds 320 - seconds 300) claimed_one ≡ true
lease_ignored = refl

abbrev unclaimed_db : Db
unclaimed_db = record claimed_db { executions = waiting ∷ [] }
