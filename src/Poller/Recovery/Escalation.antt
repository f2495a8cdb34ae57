-- ===== src/Poller/Recovery/Escalation.antt =====
-- _run_on_failure_escalation and the table of executions.
use cueapi_core.Prelude.{ℕ, ◌≡◌, refl, List, [], ◌∷◌, each, arith}
use cueapi_core.Store.{Db}
use cueapi_core.Delivery.Outcome.{Effect}
use cueapi_core.Poller.Recovery.{Failure, escalate}

pub escalate-executions :
    (now : ℕ) (fs : List Failure) (db : Db) (sent : List Effect)
    → (each (escalate now) fs (db, sent)).0.executions ≡ db.executions
unfolding each escalate
escalate-executions now [] db sent = refl
escalate-executions now (f ∷ fs) db sent =
    let next = escalate now f (db, sent) in ground (arith, escalate-executions now fs next.0 next.1)
