-- ===== src/Poller/Finality/Keeps.antt =====
-- Runs of the poller's jobs, beside an execution that is over.
use cueapi_core.Prelude.{
  ℕ, ◌-◌, ◌≡◌, ◌≢◌, refl, sym, ap, ◌∙◌, true, String, Option, none, some, List, [], nat_eq, find,
  where_, take, each, arith, IsKeyed, find-append, find-untouched,
}
use cueapi_core.Store.{
  exec_eq, Execution, Cue, Db, execution_keyed, cue_keyed, outbox_keyed, seconds,
}
use cueapi_core.Delivery.Outcome.{Effect}
use cueapi_core.Poller.Due.{process_cue_batch}
use cueapi_core.Poller.Due.Dedup.{process_cue_batch_adds}
use cueapi_core.Poller.Retries.{poll_retries}
use cueapi_core.Poller.Retries.Pairs.{poll_retries_pairs}
use cueapi_core.Poller.Recovery.{
  is_stale, is_expired_claim, is_unclaimed, exec_missed, recover_stale_executions,
  recover_stale_worker_claims, fail_unclaimed, fail_unclaimed_worker_executions,
}
use cueapi_core.Poller.Recovery.Escalation.{escalate-executions}
use cueapi_core.Poller.Recovery.Stale.{settled, settled-keeps, each-recover_stale}
use cueapi_core.Poller.Recovery.Claims.{given_back, each-executions, fail_unclaimed-executions}
use cueapi_core.Poller.Finality.{
  Run, is_final, fires, hands_over, recovers, resets, gives_up, dispatches, cleans, stop, next,
}
use cueapi_core.Poller.Finality.Steps.{
  not_delivering, not_pending, no_retry, dispatch_outbox-executions, cleanup_outbox-executions,
}

-- The executions of a result.
abbrev executions_of : Db → Option (ℕ × Db × List Effect) → List Execution
executions_of db none = db.executions
executions_of db (some (n, db', sent)) = db'.executions

module _ (cron : String → String → ℕ → ℕ) (j : ℕ) (e : Execution)
    (final : is_final e.status ≡ true) where
  fires_keeps :
      (now batch_size : ℕ) (uuid : ℕ → ℕ) (db : Db)
      → find j db.executions ≡ some e
      → find j (process_cue_batch cron now uuid batch_size db).1.executions ≡ some e
  fires_keeps now batch_size uuid db row =
      let (es, grown, fired) = process_cue_batch_adds cron now uuid batch_size db in
      ap (find j) grown ∙ find-append j db.executions es ∙ rw row refl

  hands_over_keeps :
      (now batch_size : ℕ) (db : Db)
      → IsKeyed db.executions
      → find j db.executions ≡ some e
      → find j (poll_retries now batch_size db).1.executions ≡ some e
  hands_over_keeps now batch_size db keyed row =
      let (rows, grown, count, ok, each_row) = poll_retries_pairs now batch_size db in
      each_row j ∙ rw (row, no_retry now j db e rows keyed row final ok) refl

  resets_keeps :
      (now heartbeat_timeout claim_timeout : ℕ) (db : Db)
      → IsKeyed db.executions
      → find j db.executions ≡ some e
      → find j (recover_stale_worker_claims now heartbeat_timeout claim_timeout db).1.executions
        ≡ some e
  unfolding recover_stale_worker_claims
  resets_keeps now heartbeat_timeout claim_timeout db keyed row =
      let q = is_expired_claim (now - seconds claim_timeout) db.cues in
      let cutoff = now - seconds heartbeat_timeout in
      ap (find j)
        (each-executions now cutoff db (take 100 (where_ q db.executions)) 0 db (refl, refl))
      ∙ find-untouched (given_back now cutoff db) (λ d x. ground arith) j 100 q db.executions e
          keyed row (rw (not_delivering e.status final) refl)

  gives_up_keeps :
      (now unclaimed_timeout : ℕ) (db : Db)
      → IsKeyed db.executions
      → find j db.executions ≡ some e
      → find j (fail_unclaimed_worker_executions now unclaimed_timeout db).1.executions ≡ some e
  unfolding fail_unclaimed_worker_executions
  gives_up_keeps now unclaimed_timeout db keyed row =
      let q = is_unclaimed (now - seconds unclaimed_timeout) db.cues in
      let selected = take 100 (where_ q db.executions) in
      let p = each (fail_unclaimed now) selected (0, [], db) in
      ap (find j)
        (escalate-executions now p.1 p.2 [] ∙ fail_unclaimed-executions now selected (0, [], db))
      ∙ find-untouched (λ d. exec_missed now) (λ d x. refl) j 100 q db.executions e keyed row
          (rw (not_pending e.status final) refl)

  recovers_keeps :
      (start now stale_seconds n : ℕ) (db db' : Db) (sent : List Effect)
      → ((i : ℕ) (c : Cue) → find i db.cues ≡ some c → c.retry_backoff_minutes ≢ [])
      → recover_stale_executions start now stale_seconds db ≡ some (n, db', sent)
      → IsKeyed db.executions
      → find j db.executions ≡ some e
      → find j db'.executions ≡ some e
  unfolding recover_stale_executions
  recovers_keeps start now stale_seconds n db db' sent nonempty h keyed row =
      let q = is_stale (start - seconds stale_seconds) in
      let selected = take 100 (where_ q db.executions) in
      let f : Execution → Execution → Execution =
        λ d. settled now stale_seconds (find d.cue_id db.cues) d in
      let (p, done, rows) =
        each-recover_stale now stale_seconds db nonempty selected (0, [], db) (λ i. (refl, refl)) in
      let kept =
        find-untouched f (settled-keeps now stale_seconds db) j 100 q db.executions e keyed row
          (rw (not_delivering e.status final) refl) in
      let same = ap (executions_of db) (rw done at h) in
      ap (find j) (sym same ∙ escalate-executions now p.1 p.2 [] ∙ rows) ∙ kept

  -- Whatever the jobs of the poller that work on executions and the outbox do, in whatever order and
  -- how often, an execution that is a success, failed or missed keeps its row as it is, if the
  -- identifiers of executions are unique before each job and a stale recovery finds a backoff with
  -- every cue.
  pub poller_keeps_final :
      {db db' : Db}
      → Run cron db db'
      → find j db.executions ≡ some e
      → find j db'.executions ≡ some e
  poller_keeps_final stop row = row
  poller_keeps_final {db} (next keyed (fires now b uuid) run) row =
      poller_keeps_final run (fires_keeps now b uuid db row)
  poller_keeps_final {db} (next keyed (hands_over now b) run) row =
      poller_keeps_final run (hands_over_keeps now b db keyed row)
  poller_keeps_final {db} (next keyed (recovers {db' = d} start now s n sent nonempty h) run) row =
      poller_keeps_final run (recovers_keeps start now s n db d sent nonempty h keyed row)
  poller_keeps_final {db} (next keyed (resets now hb cl) run) row =
      poller_keeps_final run (resets_keeps now hb cl db keyed row)
  poller_keeps_final {db} (next keyed (gives_up now u) run) row =
      poller_keeps_final run (gives_up_keeps now u db keyed row)
  poller_keeps_final {db} (next keyed (dispatches r now b) run) row =
      poller_keeps_final run (ap (find j) (dispatch_outbox-executions r now b db) ∙ row)
  poller_keeps_final {db} (next keyed (cleans now days) run) row =
      poller_keeps_final run (ap (find j) (cleanup_outbox-executions now days db) ∙ row)
