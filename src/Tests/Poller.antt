-- ===== src/Tests/Poller.antt =====
-- The poller on small databases.
use cueapi_core.Prelude.{
  ℕ, ◌+◌, ◌*◌, ◌≡◌, refl, String, none, [], ◌∷◌, first_where, List, ◌++◌, All, where_, order_by,
}
use cueapi_core.Store.{Execution, transport_eq, user_keyed, cue_keyed}
use cueapi_core.Poller.Due.{
  new_execution, fire, process_cue, process_cues, due_cues, process_cue_batch, poll_due_cues,
}
use cueapi_core.Poller.Due.Dedup.{
  IsUniqueRuns, IsFired, process_cue_batch_adds, poll_due_cues-IsUniqueRuns,
}
use cueapi_core.Tests.Samples.{waiting_db, empty_db}

-- A cron that runs a hundred microseconds later.
abbrev later : String → String → ℕ → ℕ
later e z t = t + 100

abbrev uuids : ℕ → ℕ
uuids k = k + 50

-- At time 5000 the daily cue fires for time 1000 and is next due at 1100.
one_fires :
    let (count, db) = process_cue_batch later 5000 uuids 10 empty_db in
    (count ≡ 1) × (db.executions ≡ new_execution 5000 50 1 1000 none ∷ [])
unfolding process_cue_batch due_cues process_cues process_cue fire order_by where_ first_where
one_fires = (refl, refl)

poll_due_cues-IsUniqueRuns_example :
    IsUniqueRuns
      (poll_due_cues later (λ n. 5000) (λ n k. n * 10 + k + 50) 10 waiting_db).1.executions
unfolding first_where
poll_due_cues-IsUniqueRuns_example =
    poll_due_cues-IsUniqueRuns later (λ n. 5000) (λ n k. n * 10 + k + 50) 10 waiting_db (refl, tt)

process_cue_batch_adds_example :
    (es : List Execution) × ((process_cue_batch later 5000 uuids 10 waiting_db).1.executions
      ≡ waiting_db.executions ++ es)
    × All (IsFired later 5000 waiting_db) es
process_cue_batch_adds_example = process_cue_batch_adds later 5000 uuids 10 waiting_db
