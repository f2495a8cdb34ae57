-- ===== src/Poller/Due/Dedup.antt =====
-- What one round and one batch of the due-cue poller add to the tables.
use mathlib.Core.List.{Memᴰ, append-nil, append_assoc}
use cueapi_core.Prelude.{
  ℕ, zero, suc, ◌+◌, ◌<◌, ◌≡◌, refl, ap, ◌∙◌, Bool, true, false, String, none, some, List, [], ◌∷◌,
  ◌++◌, nat_eq, if◌then◌else◌, or_else, is_some, find, first_where, ltb, col_le, arith, All,
  where_-All, order_by-All, take-All, append-All, Bool-cases, inl, inr, find-update_row, update_row,
  Option-cases,
}
use cueapi_core.Store.{ExecStatus, cue_eq, transport_eq, Execution, Cue, Db, cue_keyed, user_keyed}
use cueapi_core.Poller.Due.{
  new_execution, is_due, same_run, fire, next_run_of, process_cue, process_cues, due_cues,
  process_cue_batch, drain, poll_due_cues, max_drain_iterations,
}

-- No two executions of one cue are for the same time.
abbrev pub IsUniqueRuns : List Execution → Type 0
IsUniqueRuns [] = Unit
IsUniqueRuns (e ∷ t) = (first_where (same_run e.cue_id e.scheduled_for) t ≡ none) × IsUniqueRuns t

first_where-append :
    (p : Execution → Bool) (t : List Execution) (e : Execution)
    → first_where p t ≡ none
    → p e ≡ false
    → first_where p (t ++ e ∷ []) ≡ none
unfolding first_where
first_where-append p [] e h f = ground arith
first_where-append p (x ∷ t) e h f = ground (arith, first_where-append p t e)

append-IsUniqueRuns :
    (t : List Execution) (e : Execution)
    → IsUniqueRuns t
    → first_where (same_run e.cue_id e.scheduled_for) t ≡ none
    → IsUniqueRuns (t ++ e ∷ [])
unfolding first_where
append-IsUniqueRuns [] e h new = (refl, tt)
append-IsUniqueRuns (x ∷ t) e h new = (
  first_where-append (same_run x.cue_id x.scheduled_for) t e h.0 (ground arith),
  append-IsUniqueRuns t e h.1 (ground arith),
)

module _ (cron : String → String → ℕ → ℕ) (now : ℕ) where
  process_cue-executions :
      (i : ℕ) (c : Cue) (db : Db)
      → (process_cue cron now i c db).executions ≡ (
          if is_some (first_where (same_run c.id (or_else c.next_run 0)) db.executions)
          then db.executions
          else db.executions ++ new_execution now i c.id (or_else c.next_run 0) none ∷ [])
  unfolding process_cue fire
  process_cue-executions i c db = ground arith

  process_cue-IsUniqueRuns :
      (i : ℕ) (c : Cue) (db : Db)
      → IsUniqueRuns db.executions
      → IsUniqueRuns (process_cue cron now i c db).executions
  unfolding new_execution
  process_cue-IsUniqueRuns i c db h =
      let slot : ℕ = or_else c.next_run 0 in
      elim (Option-cases (first_where (same_run c.id slot) db.executions)) [
        | inl new ↦
            rw (process_cue-executions i c db) (
              rw new (append-IsUniqueRuns db.executions (new_execution now i c.id slot none) h new))
        | inr (e, old) ↦ rw (process_cue-executions i c db) (rw old h)
      ]

  -- After a round the cue's next run is that of its schedule: NULL for a one-time cue, and a later
  -- time for a recurring one if the cron's next time is later than the time it is asked from. The
  -- cue has fired once more exactly if it had no execution for the time.
  process_cue_advances :
      (i : ℕ) (c : Cue) (slot : ℕ) (db : Db) (q : Cue)
      → ((e z : String) (t : ℕ) → t < cron e z t)
      → c.next_run ≡ some slot
      → find c.id db.cues ≡ some q
      → (q' : Cue) × (find c.id (process_cue cron now i c db).cues ≡ some q')
        × (q'.next_run ≡ next_run_of cron c slot)
        × (col_le q'.next_run slot ≡ false)
        × (q'.fired_count ≡ (
            if is_some (first_where (same_run c.id slot) db.executions)
            then q.fired_count
            else q.fired_count + 1))
  unfolding process_cue fire next_run_of
  process_cue_advances i c slot db q later h hq =
      let old = is_some (first_where (same_run c.id slot) db.executions) in
      let bump : Cue → Cue = λ r. record r { fired_count = r.fired_count + 1; updated_at = now } in
      let move : Cue → Cue =
        λ r. record r { next_run = next_run_of cron c slot; updated_at = now } in
      let after = find-update_row c.id c.id bump (λ r. refl) db.cues in
      let moved = find-update_row c.id c.id move (λ r. refl) db.cues in
      let both = find-update_row c.id c.id move (λ r. refl) (update_row c.id bump db.cues) in
      (
        move (if old then q else bump q),
        ground (arith, after, moved, both),
        ground arith,
        ground (arith, later (or_else c.schedule_cron "") c.schedule_timezone slot),
        ground arith,
      )

  process_cues-IsUniqueRuns :
      (uuid : ℕ → ℕ) (k : ℕ) (cs : List Cue) (db : Db)
      → IsUniqueRuns db.executions
      → IsUniqueRuns (process_cues cron now uuid k cs db).executions
  unfolding process_cues
  process_cues-IsUniqueRuns uuid k [] db h = h
  process_cues-IsUniqueRuns uuid k (c ∷ cs) db h =
      process_cues-IsUniqueRuns uuid (suc k) cs (process_cue cron now (uuid k) c db)
        (process_cue-IsUniqueRuns (uuid k) c db h)

  -- An execution that a batch may add: pending, without an attempt, for the next run of a cue that
  -- was active and due.
  abbrev pub IsFired : Db → Execution → Type 0
  IsFired db e =
      (c : Cue) × Memᴰ c db.cues
      × (is_due now c ≡ true)
      × (e.cue_id ≡ c.id)
      × (e.scheduled_for ≡ or_else c.next_run 0)
      × (e.status ≡ ExecStatus.pending)
      × (e.attempts ≡ 0)

  abbrev Added : Db → Db → Db → Type 0
  Added from db db' =
      (es : List Execution) × (db'.executions ≡ db.executions ++ es) × All (IsFired from) es

  process_cue-Added :
      (from : Db) (i : ℕ) (c : Cue) (db : Db)
      → Memᴰ c from.cues
      → is_due now c ≡ true
      → Added from db (process_cue cron now i c db)
  unfolding new_execution
  process_cue-Added from i c db m due =
      elim (Option-cases (first_where (same_run c.id (or_else c.next_run 0)) db.executions)) [
        | inl new ↦ (
          new_execution now i c.id (or_else c.next_run 0) none ∷ [],
          rw (process_cue-executions i c db) (rw new),
          ((c, m, due, refl, refl, refl, refl), tt),
        )
        | inr (e, old) ↦ ([], rw (process_cue-executions i c db) (rw old (rw append-nil)), tt)
      ]

  abbrev IsSelected : Db → Cue → Type 0
  IsSelected from c = Memᴰ c from.cues × (is_due now c ≡ true)

  process_cues-Added :
      (from : Db) (uuid : ℕ → ℕ) (k : ℕ) (cs : List Cue) (db : Db)
      → All (IsSelected from) cs
      → Added from db (process_cues cron now uuid k cs db)
  unfolding process_cues
  process_cues-Added from uuid k [] db h = ([], rw append-nil, tt)
  process_cues-Added from uuid k (c ∷ cs) db h =
      let (es, grown, fired) = process_cue-Added from (uuid k) c db h.0.0 h.0.1 in
      let (fs, rest, others) =
        process_cues-Added from uuid (suc k) cs (process_cue cron now (uuid k) c db) h.1 in
      (
        es ++ fs,
        rest ∙ ap (λ (t : List Execution). t ++ fs) grown ∙ append_assoc db.executions es fs,
        append-All (IsFired from) es fs fired others,
      )

  -- A batch keeps every execution as it is, and adds only pending ones for cues of the database that
  -- are active and due, each for the time at which its cue was to run: a paused, completed or failed
  -- cue never fires.
  pub process_cue_batch_adds :
      (uuid : ℕ → ℕ) (batch_size : ℕ) (db : Db)
      → (es : List Execution) × ((process_cue_batch cron now uuid batch_size db).1.executions
          ≡ db.executions ++ es)
        × All (IsFired db) es
  unfolding process_cue_batch due_cues
  process_cue_batch_adds uuid batch_size db =
      process_cues-Added db uuid 0 (due_cues now batch_size db) db (
        take-All (IsSelected db) batch_size _ (
          order_by-All (IsSelected db) _ _
            (where_-All (IsSelected db) (is_due now) db.cues (λ c m due. (m, due)))))

module _ (cron : String → String → ℕ → ℕ) (clock : ℕ → ℕ) (uuid : ℕ → ℕ → ℕ) (batch_size : ℕ) where
  process_cue_batch-IsUniqueRuns :
      (n : ℕ) (db : Db)
      → IsUniqueRuns db.executions
      → IsUniqueRuns (process_cue_batch cron (clock n) (uuid n) batch_size db).1.executions
  unfolding process_cue_batch
  process_cue_batch-IsUniqueRuns n db h =
      process_cues-IsUniqueRuns cron (clock n) (uuid n) 0 (due_cues (clock n) batch_size db) db h

  drain-IsUniqueRuns :
      (n total : ℕ) (db : Db)
      → IsUniqueRuns db.executions
      → IsUniqueRuns (drain cron clock uuid batch_size n total db).1.executions
  unfolding drain
  drain-IsUniqueRuns zero total db h = h
  drain-IsUniqueRuns (suc n) total db h =
      let kept = process_cue_batch-IsUniqueRuns n db h in
      let (count, db') = process_cue_batch cron (clock n) (uuid n) batch_size db in
      elim (Bool-cases (ltb count batch_size)) [
        | inl last ↦ rw last kept
        | inr more ↦ rw more (drain-IsUniqueRuns n (total + count) db' kept)
      ]

  -- Draining the due cues never makes two executions of one cue for the same time.
  pub poll_due_cues-IsUniqueRuns :
      (db : Db)
      → IsUniqueRuns db.executions
      → IsUniqueRuns (poll_due_cues cron clock uuid batch_size db).1.executions
  unfolding poll_due_cues
  poll_due_cues-IsUniqueRuns db h = drain-IsUniqueRuns max_drain_iterations 0 db h
