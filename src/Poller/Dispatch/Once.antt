-- ===== src/Poller/Dispatch/Once.antt =====
-- The rows of the outbox and their jobs, over one round of dispatch_outbox and over two.
use mathlib.Core.Option
use mathlib.Core.List.{Memᴰ, append-nil, append_assoc}
use cueapi_core.Prelude.{
  ℕ, ◌+◌, ◌≡◌, ◌≤◌, refl, ap, ◌∙◌, Bool, true, false, ◌||◌, String, Option, none, some, List, [],
  ◌∷◌, ◌++◌, ◌==◌, nat_eq, if◌then◌else◌, is_some, find, first_where, where_, order_by, take, each,
  All, arith, where_-All, order_by-All, take-All, append-All, find-update_row, is_some-append,
  IsKeyed, selection-IsKeyed, find-Mem, count_where,
}
use cueapi_core.Store.{Outbox, Db, outbox_keyed}
use cueapi_core.Poller.Dispatch.{
  Task, Job, route, is_waiting, row_dispatched, row_refused, send, send_round, dispatch_outbox,
}

abbrev pub of_row : ℕ → Job → Bool
of_row j job = job.row == j

-- A job that a round may enqueue: for a row that was waiting, by its route.
abbrev pub IsJob : ℕ → List Outbox → Job → Type 0
IsJob now t job =
    (o : Outbox) × Memᴰ o t
    × (is_waiting now o ≡ true)
    × (job.row ≡ o.id)
    × (route o.task_type ≡ some job.task)
    × (job.payload ≡ o.payload)

-- The mark of the row under a key.
abbrev pub mark : ℕ → List Outbox → Option Bool
mark j t = Option.map (λ (o : Outbox). o.dispatched) (find j t)

-- The state of the loop against that at its start; `es` are the rows in between.
abbrev SoFar : ℕ → List Outbox → List Outbox → List Job × Db → List Job × Db → Type 0
SoFar now from es (jobs, db) (jobs', db') =
    (added : List Job) × (jobs' ≡ jobs ++ added)
    × All (IsJob now from) added
    × ((j : ℕ)
        → mark j db'.outbox
          ≡ Option.map (λ d. d || is_some (first_where (of_row j) added)) (mark j db.outbox))
    × ((j : ℕ) → count_where (of_row j) added ≤ (if is_some (find j es) then 1 else 0))

count_where-append :
    (p : Job → Bool) (t u : List Job) → count_where p (t ++ u) ≡ count_where p t + count_where p u
unfolding count_where
count_where-append p [] u = omega arith
count_where-append p (x ∷ t) u = ground (arith, count_where-append p t u)

module _ (refusal : Outbox → Option String) (now : ℕ) (from : List Outbox) where
  send-SoFar :
      (o : Outbox) (t : Option Task) (r : Option String) (jobs : List Job) (db : Db)
      → Memᴰ o from
      → is_waiting now o ≡ true
      → route o.task_type ≡ t
      → SoFar now from (o ∷ []) (jobs, db) (send o t r (jobs, db))
  unfolding send first_where count_where find
  send-SoFar o none r jobs db m w h = ([], rw append-nil, tt, λ j. ground arith, λ j. ground arith)
  send-SoFar o (some t) none jobs db m w h = (
    _ ∷ [],
    refl,
    ((o, m, w, refl, h, refl), tt),
    λ j. ground (arith, find-update_row o.id j row_dispatched (λ x. refl) db.outbox),
    λ j. ground arith,
  )
  send-SoFar o (some t) (some e) jobs db m w h = (
    [],
    rw append-nil,
    tt,
    λ j. ground (arith, find-update_row o.id j (row_refused e) (λ x. refl) db.outbox),
    λ j. ground arith,
  )

  SoFar-trans :
      (o : Outbox) (es : List Outbox) (a b c : List Job × Db)
      → find o.id es ≡ none
      → SoFar now from (o ∷ []) a b
      → SoFar now from es b c
      → SoFar now from (o ∷ es) a c
  unfolding find
  SoFar-trans o es (n, a) (n', b) (m, c) new (xs, grown, ok, marks, one)
        (ys, grown', ok', marks', one') =
      (
        xs ++ ys,
        grown' ∙ ap (λ (t : List Job). t ++ ys) grown ∙ append_assoc n xs ys,
        append-All (IsJob now from) xs ys ok ok',
        λ j. ground (arith, is_some-append (of_row j) xs ys, marks j, marks' j),
        λ j. ground (arith, count_where-append (of_row j) xs ys, one j, one' j),
      )

  each-SoFar :
      (es : List Outbox) (jobs : List Job) (db : Db)
      → IsKeyed es
      → All (λ o. Memᴰ o from × (is_waiting now o ≡ true)) es
      → SoFar now from es (jobs, db) (each (send_round refusal) es (jobs, db))
  unfolding each first_where count_where find
  each-SoFar [] jobs db k h = ([], rw append-nil, tt, λ j. ground arith, λ j. ground arith)
  each-SoFar (o ∷ es) jobs db k h =
      let next = send o (route o.task_type) (refusal o) (jobs, db) in
      SoFar-trans o es (jobs, db) next (each (send_round refusal) es next) k.0
        (send-SoFar o (route o.task_type) (refusal o) jobs db h.0.0 h.0.1 refl)
        (each-SoFar es next.0 next.1 k.1 h.1)

-- What one round does: every job is for a row that was waiting, by the route of its task type and
-- with its payload; no row has two jobs; and a row is marked dispatched exactly if it was, or if it
-- has a job.
dispatch_outbox_jobs :
    (refusal : Outbox → Option String) (now batch_size : ℕ) (db : Db)
    → IsKeyed db.outbox
    → let (jobs, db') = dispatch_outbox refusal now batch_size db in
      All (IsJob now db.outbox) jobs
      × ((j : ℕ) → count_where (of_row j) jobs ≤ 1)
      × ((j : ℕ)
          → mark j db'.outbox
            ≡ Option.map (λ d. d || is_some (first_where (of_row j) jobs)) (mark j db.outbox))
unfolding dispatch_outbox
dispatch_outbox_jobs refusal now batch_size db keyed =
    let P : Outbox → Type 0 = λ o. Memᴰ o db.outbox × (is_waiting now o ≡ true) in
    let rows = order_by (λ (o : Outbox). o.created_at) (where_ (is_waiting now) db.outbox) in
    let (added, grown, ok, marks, one) =
      each-SoFar refusal now db.outbox (take batch_size rows) [] db
        (selection-IsKeyed batch_size _ (is_waiting now) db.outbox keyed)
        (take-All P batch_size rows
          (order_by-All P _ _ (where_-All P (is_waiting now) db.outbox (λ o m w. (m, w))))) in
    rw grown (ok, λ j. ground (arith, one j), marks)

job_waits :
    (now j : ℕ) (t : List Outbox) (job : Job)
    → IsKeyed t
    → IsJob now t job
    → job.row ≡ j
    → mark j t ≡ some false
job_waits now j t job keyed (o, m, w, row, r, p) h = ground (arith, find-Mem o t keyed m)

job_mark :
    (now j : ℕ) (t : List Outbox) (jobs : List Job)
    → IsKeyed t
    → All (IsJob now t) jobs
    → is_some (first_where (of_row j) jobs) ≡ true
    → mark j t ≡ some false
unfolding first_where
job_mark now j t [] keyed h f = cc
job_mark now j t (x ∷ jobs) keyed h f =
    ground (arith, job_waits now j t x keyed h.0, job_mark now j t jobs keyed h.1)

no_job :
    (j : ℕ) (jobs : List Job)
    → is_some (first_where (of_row j) jobs) ≡ false
    → count_where (of_row j) jobs ≡ 0
unfolding first_where count_where
no_job j [] h = refl
no_job j (x ∷ jobs) h = ground (arith, no_job j jobs)

-- Two rounds that commit give one row of the outbox one job at most, if nothing in between takes the
-- mark of the row back.
pub dispatch_outbox_once :
    (refusal refusal' : Outbox → Option String) (now now' batch_size batch_size' j : ℕ)
    (db db' : Db)
    → IsKeyed db.outbox
    → IsKeyed db'.outbox
    → mark j db'.outbox ≡ mark j (dispatch_outbox refusal now batch_size db).1.outbox
    → count_where (of_row j) (dispatch_outbox refusal now batch_size db).0
        + count_where (of_row j) (dispatch_outbox refusal' now' batch_size' db').0
      ≤ 1
dispatch_outbox_once refusal refusal' now now' batch_size batch_size' j db db' k k' kept =
    let (jobs, after) = dispatch_outbox refusal now batch_size db in
    let (jobs', after') = dispatch_outbox refusal' now' batch_size' db' in
    let (ok, one, marks) = dispatch_outbox_jobs refusal now batch_size db k in
    let (ok', one', marks') = dispatch_outbox_jobs refusal' now' batch_size' db' k' in
    ground (
      arith,
      one j,
      one' j,
      marks j,
      kept,
      no_job j jobs,
      no_job j jobs',
      job_mark now j db.outbox jobs k ok,
      job_mark now' j db'.outbox jobs' k' ok',
    )
