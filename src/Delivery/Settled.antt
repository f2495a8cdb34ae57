-- ===== src/Delivery/Settled.antt =====
-- The row that one attempt leaves, and what it sends.
use cueapi_core.Prelude.{
  ℕ, ◌+◌, ◌≡◌, refl, Bool, true, false, Option, none, some, List, ◌∷◌, where_, string_eq, [], ◌==◌,
  nat_eq, if◌then◌else◌, or_else, find, arith, ltb, Bool-cases, inl, inr, IsKeyed, ap, ◌∙◌,
}
use cueapi_core.Redis.{Redis}
use cueapi_core.Store.{
  ExecStatus, exec_eq, exec_rank_iff, Execution, Cue, CueTask, Note, said, recovered_from_stale,
  stuck_in_delivering, Db, execution_keyed, minutes, update_cue,
}
use cueapi_core.Delivery.Claim.{claimed, claim_execution}
use cueapi_core.Delivery.Outcome.{
  Effect, webhook_sent, exec_retrying, exec_failed, exec_success, handle_success, handle_failure,
}
use cueapi_core.Delivery.Outcome.Backoff.{backoff_for}
use cueapi_core.Delivery.Attempt.{
  handle_success-commit_success, is_send, handle_failure-sends, find-update_execution,
  handle_failure-executions, commit_success-executions,
}
use cueapi_core.Delivery.Race.{claim-won, find-claim}
use cueapi_core.Delivery.Task.{error_text, Reply, Ctx, usage_ctx, next_attempt, attempt_delivery}

module _ (R : Redis) (send : CueTask → ℕ → Reply) where
  open R use {State}

  -- No text, or an empty one.
  abbrev pub blank : Option Note → Bool
  blank none = true
  blank (some (said t)) = t == ""
  blank (some (recovered_from_stale n)) = false
  blank (some (stuck_in_delivering n)) = false

  -- The row that a numbered attempt leaves of an execution: by the reply, and by what is left of
  -- the budget.
  abbrev pub settled : Ctx → CueTask → ℕ → Execution → Execution
  settled c p attempt e =
      let reply = send p attempt in
      if reply.success
      then record e {
        status = ExecStatus.success;
        http_status = reply.http_status;
        response_body = reply.text;
        delivered_at = some c.finish;
        last_attempt_at = some c.finish;
        attempts = attempt;
        next_retry = none;
        updated_at = c.finish;
      }
      else record e {
        status =
            if ltb attempt p.retry_max_attempts then ExecStatus.retrying else ExecStatus.failed;
        http_status = reply.http_status;
        error_message =
            some (if blank reply.text then said "Unknown error" else or_else reply.text (said ""));
        last_attempt_at = some c.finish;
        attempts = attempt;
        next_retry =
            if ltb attempt p.retry_max_attempts
            then some (c.finish + minutes (backoff_for attempt p.retry_backoff_minutes))
            else none;
        updated_at = c.finish;
      }

  error_text-blank :
      (o : Option Note)
      → error_text o ≡ (if blank o then said "Unknown error" else or_else o (said ""))
  unfolding error_text
  error_text-blank none = refl
  error_text-blank (some (said t)) = refl
  error_text-blank (some (recovered_from_stale n)) = refl
  error_text-blank (some (stuck_in_delivering n)) = refl

  module _ (c : Ctx) (p : CueTask) (n : ℕ) (db : Db) (s : State) (e : Execution)
      (h : find p.execution_id db.executions ≡ some e) where
    counted : Db
    counted =
        update_cue p.cue_id
          (λ (q : Cue). record q { run_count = q.run_count + 1; updated_at = c.finish }) db

    won_row :
        find p.execution_id
          (handle_success R c.finish p.execution_id
            (send p n).http_status
            (send p n).text
            n
            p.cue_id
            p.user_id
            (usage_ctx c)
            (counted, s)).0.executions
        ≡ some (exec_success c.finish (send p n).http_status (send p n).text n e)
    unfolding counted
    won_row =
        let same =
          handle_success-commit_success R c.finish p.execution_id (send p n).http_status
            (send p n).text n p.cue_id p.user_id (usage_ctx c) counted s in
        let rows =
          commit_success-executions c.finish p.execution_id (send p n).http_status (send p n).text n
            p.cue_id counted in
        ap (find p.execution_id) (same.0 ∙ rows)
        ∙ ground (
          arith,
          find-update_execution p.execution_id p.execution_id
              (exec_success c.finish (send p n).http_status (send p n).text n) (λ x. refl)
              db.executions e h,
        )

    lost_row :
        find p.execution_id
          (handle_failure c.finish p.execution_id
            (send p n).http_status
            (error_text (send p n).text)
            n
            p.cue_id
            p.retry_max_attempts
            p.retry_backoff_minutes
            counted).0.executions
        ≡ some (
            if ltb n p.retry_max_attempts
            then exec_retrying c.finish
                (send p n).http_status
                (error_text (send p n).text)
                n
                (c.finish + minutes (backoff_for n p.retry_backoff_minutes))
                e
            else exec_failed c.finish (send p n).http_status (error_text (send p n).text) n e)
    unfolding counted
    lost_row =
        let error = error_text (send p n).text in
        let rows =
          handle_failure-executions c.finish p.execution_id (send p n).http_status error n p.cue_id
            p.retry_max_attempts p.retry_backoff_minutes counted in
        ap (find p.execution_id) rows
        ∙ ground (
          arith,
          find-update_execution p.execution_id p.execution_id
              (exec_retrying c.finish (send p n).http_status error n
                (c.finish + minutes (backoff_for n p.retry_backoff_minutes)))
              (λ x. refl) db.executions e h,
          find-update_execution p.execution_id p.execution_id
              (exec_failed c.finish (send p n).http_status error n) (λ x. refl) db.executions e h,
        )

    pub attempt_delivery-settled :
        find p.execution_id (attempt_delivery R send c p n (db, s)).0.executions
        ≡ some (settled c p n e)
    unfolding attempt_delivery counted
    attempt_delivery-settled = elim (Bool-cases (send p n).success) [
      | inl delivered ↦ rw delivered won_row
      | inr refused ↦ rw refused (lost_row ∙ ground (arith, error_text-blank (send p n).text))
    ]

  pub attempt_delivery-sends :
      (c : Ctx) (p : CueTask) (n : ℕ) (db : Db) (s : State)
      → where_ is_send (attempt_delivery R send c p n (db, s)).2 ≡ webhook_sent p n ∷ []
  unfolding attempt_delivery where_
  attempt_delivery-sends c p n db s = elim (Bool-cases (send p n).success) [
    | inl delivered ↦ rw delivered refl
    | inr refused ↦
        let counted =
          update_cue p.cue_id
            (λ (q : Cue). record q { run_count = q.run_count + 1; updated_at = c.finish }) db in
        rw refused (
          ap (λ (t : List Effect). webhook_sent p n ∷ t)
            (handle_failure-sends c.finish p.execution_id (send p n).http_status
              (error_text (send p n).text) n p.cue_id p.retry_max_attempts p.retry_backoff_minutes
              counted))
  ]

  pub claim_pending :
      (now i : ℕ) (x : ExecStatus) (db : Db) (e : Execution)
      → IsKeyed db.executions
      → find i db.executions ≡ some e
      → e.status ≡ x
      → ((claim_execution now i x db).0 ≡ true)
        × (find i (claim_execution now i x db).1.executions ≡ some (claimed now e))
        × (next_attempt i (claim_execution now i x db).1 ≡ e.attempts + 1)
  claim_pending now i x db e keyed h same =
      let row = find-claim now i i x db e h in
      let won = claim-won now i x db keyed in
      let hit : (e.status == x) ≡ true = (exec_rank_iff e.status x).1 same in
      let after : find i (claim_execution now i x db).1.executions ≡ some (claimed now e) =
        ground (arith, row, hit) in
      (ground (arith, won, h, hit), after, rw after)
