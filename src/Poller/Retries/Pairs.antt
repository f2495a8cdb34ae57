-- ===== src/Poller/Retries/Pairs.antt =====
-- The executions that poll_retries takes up, and the outbox rows that it adds.
use mathlib.Core.Option
use mathlib.Core.List.{Memᴰ, append-nil, append_assoc}
use cueapi_core.Prelude.{
  ℕ, ◌+◌, ◌≡◌, refl, sym, ap, ◌∙◌, Bool, true, false, Option, none, some, List, [], ◌∷◌, ◌++◌, ◌==◌,
  nat_eq, if◌then◌else◌, is_some, find, first_where, where_, take, length, each, All, arith,
  where_-All, take-All, append-All, find-update_row, length-append, is_some-append,
}
use cueapi_core.Store.{
  exec_eq, TaskType, Execution, Cue, Outbox, cue_task, Db, execution_keyed, cue_keyed, user_keyed,
}
use cueapi_core.Poller.Retries.{
  is_ready, retry_payload, retry_ready, slot_of, hand_over, retry_round, poll_retries,
}

-- An outbox row that is for an execution.
abbrev pub is_for : ℕ → Outbox → Bool
is_for j o = elim o.execution_id [ none ↦ false | some i ↦ i == j ]

-- What a round may add to the outbox: a retry of an execution of the table that was due.
abbrev pub IsRetry : ℕ → Db → Outbox → Type 0
IsRetry now db o =
    (e : Execution) × (c : Cue) × Memᴰ e db.executions
    × (is_ready now e ≡ true)
    × (find e.cue_id db.cues ≡ some c)
    × (o.execution_id ≡ some e.id)
    × (o.task_type ≡ TaskType.retry)
    × (o.dispatched ≡ false)
    × (o.payload
        ≡ cue_task (retry_payload (find c.user_id db.users) c e.id (slot_of e.id db.executions)))

-- The state of the loop against that at its start.
abbrev SoFar : ℕ → Db → ℕ × Db → ℕ × Db → Type 0
SoFar now from (n, db) (n', db') =
    (rows : List Outbox) × (db'.outbox ≡ db.outbox ++ rows)
    × (n' ≡ n + length rows)
    × All (IsRetry now from) rows
    × ((j : ℕ)
        → find j db'.executions
          ≡ Option.map (λ e. if is_some (first_where (is_for j) rows) then retry_ready now e else e)
              (find j db.executions))

-- What the loop leaves alone.
abbrev Keeps : Db → Db → Type 0
Keeps from db =
    (db.cues ≡ from.cues)
    × (db.users ≡ from.users)
    × ((j : ℕ) → slot_of j db.executions ≡ slot_of j from.executions)

module _ (now : ℕ) (from : Db) where
  hand_over-Keeps :
      (e : Execution) (o : Option Cue) (n : ℕ) (db : Db)
      → Keeps from db
      → Keeps from (hand_over now e o (n, db)).1
  unfolding hand_over
  hand_over-Keeps e none n db k = k
  hand_over-Keeps e (some c) n db k = (
    k.0,
    k.1,
    λ j. ground (arith, find-update_row e.id j (retry_ready now) (λ x. refl) db.executions, k.2 j),
  )

  hand_over-SoFar :
      (e : Execution) (o : Option Cue) (n : ℕ) (db : Db)
      → Memᴰ e from.executions
      → is_ready now e ≡ true
      → find e.cue_id from.cues ≡ o
      → Keeps from db
      → SoFar now from (n, db) (hand_over now e o (n, db))
  unfolding hand_over first_where
  hand_over-SoFar e none n db m due hc k = ([], rw append-nil, omega arith, tt, λ j. ground arith)
  hand_over-SoFar e (some c) n db m due hc k = (
    _ ∷ [],
    refl,
    omega arith,
    ((e, c, m, due, hc, refl, refl, refl, ground (arith, k.1, k.2 e.id)), tt),
    λ j. ground (arith, find-update_row e.id j (retry_ready now) (λ x. refl) db.executions),
  )

  SoFar-trans : (a b c : ℕ × Db) → SoFar now from a b → SoFar now from b c → SoFar now from a c
  unfolding first_where
  SoFar-trans (n, a) (n', b) (m, c) (es, grown, count, ok, rows) (fs, grown', count', ok', rows') =
      (
        es ++ fs,
        grown' ∙ ap (λ (t : List Outbox). t ++ fs) grown ∙ append_assoc a.outbox es fs,
        ground (arith, length-append es fs),
        append-All (IsRetry now from) es fs ok ok',
        λ j. ground (arith, is_some-append (is_for j) es fs, rows j, rows' j),
      )

  each-SoFar :
      (es : List Execution) (n : ℕ) (db : Db)
      → All (λ e. Memᴰ e from.executions × (is_ready now e ≡ true)) es
      → Keeps from db
      → SoFar now from (n, db) (each (retry_round now) es (n, db))
  unfolding each first_where
  each-SoFar [] n db h k = ([], rw append-nil, omega arith, tt, λ j. ground arith)
  each-SoFar (e ∷ es) n db h k =
      let o = find e.cue_id db.cues in
      let next = hand_over now e o (n, db) in
      SoFar-trans (n, db) next (each (retry_round now) es next)
        (hand_over-SoFar e o n db h.0.0 h.0.1 (ap (find e.cue_id) (sym k.0)) k)
        (each-SoFar es next.0 next.1 h.1 (hand_over-Keeps e o n db k))

pub poll_retries_pairs :
    (now batch_size : ℕ) (db : Db)
    → let (count, db') = poll_retries now batch_size db in
      (rows : List Outbox) × (db'.outbox ≡ db.outbox ++ rows)
      × (count ≡ length rows)
      × All (IsRetry now db) rows
      × ((j : ℕ)
          → find j db'.executions
            ≡ Option.map
                (λ e. if is_some (first_where (is_for j) rows) then retry_ready now e else e)
                (find j db.executions))
unfolding poll_retries
poll_retries_pairs now batch_size db =
    let selected = take batch_size (where_ (is_ready now) db.executions) in
    let (rows, grown, count, ok, each_row) =
      each-SoFar now db selected 0 db
        (take-All _ batch_size _ (where_-All _ (is_ready now) db.executions (λ e m due. (m, due))))
        (refl, refl, λ j. refl) in
    (rows, grown, omega arith, ok, each_row)
