-- ===== src/Delivery/Claim.antt =====
-- _claim_execution: the conditional UPDATE by which one worker wins an execution.
use cueapi_core.Prelude.{
  ℕ, Bool, ◌&&◌, some, ◌==◌, nat_eq, or_else, is_some, first_where, update_where,
}
use cueapi_core.Store.{ExecStatus, exec_eq, Execution, Db, execution_keyed}

-- The WHERE clause.
abbrev pub claimable : ℕ → ExecStatus → Execution → Bool
claimable i expected e = e.id == i && e.status == expected

-- The VALUES: started_at is set by the first claim only.
abbrev pub claimed : ℕ → Execution → Execution
claimed now e = record e {
  status = ExecStatus.delivering;
  started_at = some (or_else e.started_at now);
  updated_at = now;
}

unfoldable pub claim_execution : ℕ → ℕ → ExecStatus → Db → Bool × Db
claim_execution now i expected db = (
  is_some (first_where (claimable i expected) db.executions),
  record db { executions = update_where (claimable i expected) (claimed now) db.executions },
)
