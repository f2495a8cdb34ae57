-- ===== src/Poller/Recovery/Claims.antt =====
-- Which claims of workers are reset, and which executions are given up.
use mathlib.Core.Option
use cueapi_core.Prelude.{
  ℕ, ◌-◌, ◌≡◌, ◌≤◌, refl, ap, ◌∙◌, List, [], ◌∷◌, if◌then◌else◌, find, where_, take, length, each,
  arith, IsKeyed, update_row, updates, find-selection, update_row-if, nat_eq,
}
use cueapi_core.Store.{Execution, Db, execution_keyed, cue_keyed, seconds}
use cueapi_core.Poller.Recovery.Escalation.{escalate-executions}
use cueapi_core.Poller.Recovery.{
  Progress, is_silent, claimant, exec_reset, reset_claim, is_unclaimed, exec_missed, fail_unclaimed,
  fail_unclaimed_worker_executions,
}

-- The loop reads these tables only.
abbrev SameReads : Db → Db → Type 0
SameReads from db = (db.cues ≡ from.cues) × (db.workers ≡ from.workers)

claimant-SameReads :
    (from db : Db) (e : Execution) → SameReads from db → claimant db e ≡ claimant from e
unfolding claimant
claimant-SameReads from db e same = rw (same.0, same.1) refl

module _ (now cutoff : ℕ) (from : Db) where
  abbrev pub given_back : Execution → Execution → Execution
  given_back e x = if is_silent cutoff (claimant from e) then exec_reset now x else x

  reset_claim-executions :
      (e : Execution) (n : ℕ) (db : Db)
      → SameReads from db
      → let db' = (reset_claim now cutoff e (n, db)).1 in
        (db'.executions ≡ update_row e.id (given_back e) db.executions) × SameReads from db'
  unfolding reset_claim
  reset_claim-executions e n db same =
      let silent = is_silent cutoff (claimant from e) in
      let row = update_row-if silent e.id (exec_reset now) db.executions in
      rw (claimant-SameReads from db e same)
        (ground (arith, row), (ground (arith, same.0), ground (arith, same.1)))

  pub each-executions :
      (es : List Execution) (n : ℕ) (db : Db)
      → SameReads from db
      → (each (reset_claim now cutoff) es (n, db)).1.executions
        ≡ updates given_back es db.executions
  unfolding each updates
  each-executions [] n db same = refl
  each-executions (e ∷ es) n db same =
      let next = reset_claim now cutoff e (n, db) in
      let (here, same') = reset_claim-executions e n db same in
      each-executions es next.0 next.1 same' ∙ ap (updates given_back es) here

pub fail_unclaimed-executions :
    (now : ℕ) (es : List Execution) (p : Progress)
    → (each (fail_unclaimed now) es p).2.executions
      ≡ updates (λ e. exec_missed now) es p.2.executions
unfolding each updates fail_unclaimed
fail_unclaimed-executions now [] p = refl
fail_unclaimed-executions now (e ∷ es) p =
    let here = fail_unclaimed-executions now es (fail_unclaimed now e p) in ground (arith, here)

-- With at most a hundred unclaimed executions, the call makes an execution missed exactly if it is
-- pending, for a worker cue, older than the timeout and without a claim; every other execution stays
-- as it is, whatever the escalations do.
fail_unclaimed_worker_executions_misses :
    (now unclaimed_timeout : ℕ) (db : Db) (j : ℕ)
    → IsKeyed db.executions
    → length (where_ (is_unclaimed (now - seconds unclaimed_timeout) db.cues) db.executions) ≤ 100
    → find j (fail_unclaimed_worker_executions now unclaimed_timeout db).1.executions
      ≡ Option.map
          (λ (e : Execution).
            if is_unclaimed (now - seconds unclaimed_timeout) db.cues e
            then exec_missed now e
            else e)
          (find j db.executions)
unfolding fail_unclaimed_worker_executions
fail_unclaimed_worker_executions_misses now unclaimed_timeout db j keyed few =
    let q = is_unclaimed (now - seconds unclaimed_timeout) db.cues in
    let selected = take 100 (where_ q db.executions) in
    let loop = fail_unclaimed-executions now selected (0, [], db) in
    let p = each (fail_unclaimed now) selected (0, [], db) in
    ap (find j) (escalate-executions now p.1 p.2 [] ∙ loop)
    ∙ find-selection (λ e. exec_missed now) (λ e x. refl) j 100 q db.executions keyed few
