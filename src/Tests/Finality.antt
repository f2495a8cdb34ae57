-- ===== src/Tests/Finality.antt =====
-- Runs of the poller's jobs beside an execution that is over.
use cueapi_core.Prelude.{ℕ, ◌+◌, ◌≡◌, refl, String, some, find, each, where_}
use cueapi_core.Store.{Db, execution_keyed}
use cueapi_core.Poller.Retries.{poll_retries}
use cueapi_core.Poller.Recovery.{recover_stale_worker_claims}
use cueapi_core.Poller.Finality.{Run, stop, next, hands_over, resets}
use cueapi_core.Poller.Finality.Keeps.{poller_keeps_final}
use cueapi_core.Tests.Samples.{done, done_db}

abbrev hourly : String → String → ℕ → ℕ
hourly e z t = t + 3600000000

-- A retry round after which the claims are looked at.
abbrev after_retries : Db
after_retries = (poll_retries 5000 10 done_db).1

two_jobs : Run hourly done_db (recover_stale_worker_claims 6000 180 900 after_retries).1
unfolding find poll_retries each where_
two_jobs = next (refl, tt) (hands_over 5000 10) (next (refl, tt) (resets 6000 180 900) stop)

poller_keeps_final_example :
    find 40 (recover_stale_worker_claims 6000 180 900 after_retries).1.executions ≡ some done
unfolding find
poller_keeps_final_example = poller_keeps_final hourly 40 done refl two_jobs refl
