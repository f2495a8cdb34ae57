-- ===== src/Usage/Counter.antt =====
-- Reading and incrementing the monthly count.
use cueapi_core.Prelude.{
  ℕ, ◌+◌, ◌≡◌, Bool, ◌&&◌, Option, none, some, List, [], ◌∷◌, arith, ◌==◌, nat_eq, if◌then◌else◌,
  or_else, first_where,
}
use mathlib.Core.Option
use cueapi_core.Redis.{Redis, usage_key}
use cueapi_core.Store.{UsageMonthly, Db, days}

is_month : ℕ → ℕ → UsageMonthly → Bool
is_month user month r = r.user_id == user && r.month_start == month

-- SELECT execution_count ... scalar_one_or_none() or 0
unfoldable pub stored_count : ℕ → ℕ → List UsageMonthly → ℕ
unfolding is_month
stored_count user month t =
    or_else
      (Option.map (λ (r : UsageMonthly). r.execution_count) (first_where (is_month user month) t)) 0

-- INSERT ... ON CONFLICT (user_id, month_start) DO UPDATE SET execution_count = execution_count + 1
unfoldable pub upsert_usage : ℕ → ℕ → List UsageMonthly → List UsageMonthly
unfolding is_month
upsert_usage user month [] =
    record { user_id = user; month_start = month; execution_count = 1 } ∷ []
upsert_usage user month (r ∷ t) =
    if is_month user month r
    then record r { execution_count = r.execution_count + 1 } ∷ t
    else r ∷ upsert_usage user month t

pub stored_count-upsert_usage :
    (user month j m : ℕ) (t : List UsageMonthly)
    → stored_count j m (upsert_usage user month t)
      ≡ (if user == j && month == m then stored_count j m t + 1 else stored_count j m t)
unfolding stored_count upsert_usage first_where
stored_count-upsert_usage user month j m [] = ground arith
stored_count-upsert_usage user month j m (r ∷ t) =
    ground (arith, stored_count-upsert_usage user month j m t)

module _ (R : Redis) where
  open R use {State, get, set_ex, incr, expire}

  -- `_` of a best-effort command: an exception leaves the state as it was.
  abbrev pub try_state : State → Option State → State
  try_state s o = or_else o s

  -- get_monthly_usage with a database session. Redis first, then Postgres, warming the cache.
  unfoldable pub get_monthly_usage : ℕ → ℕ → ℕ → Db × State → ℕ × State
  get_monthly_usage now month user (db, s) =
      let count = stored_count user month db.usage_monthly in
      let warmed = try_state s (set_ex s now (usage_key user month) count (days 1)) in
      elim (get s now (usage_key user month)) [
        | none ↦ (count, warmed)
        | some cached ↦ elim cached [ none ↦ (count, warmed) | some n ↦ (n, s) ]
      ]

  -- increment_usage: INCR and EXPIRE (one pipeline), then the upsert, then the write-through.
  -- `durable` says whether the Postgres statement and its commit go through.
  unfoldable pub increment_usage : ℕ → ℕ → ℕ → Bool → Db × State → Db × State
  increment_usage now month user durable (db, s) =
      let k = usage_key user month in
      let s₁ : State = elim (incr s now k) [
        | none ↦ s
        | some (n, s') ↦ try_state s' (expire s' now k (days 35))
      ] in
      let t = upsert_usage user month db.usage_monthly in
      if durable
      then (
        record db { usage_monthly = t },
        try_state s₁ (set_ex s₁ now k (stored_count user month t) (days 35)),
      )
      else (db, s₁)

  -- An increment touches no other table.
  pub increment_usage-tables :
      (now month user : ℕ) (durable : Bool) (db : Db) (s : State)
      → let db' = (increment_usage now month user durable (db, s)).0 in
        (db'.executions ≡ db.executions) × (db'.cues ≡ db.cues)
  unfolding increment_usage
  increment_usage-tables now month user durable db s = (ground arith, ground arith)

  -- An increment that goes through counts one more execution for that user and month, and leaves
  -- every other count; one that does not changes no count.
  increment_usage_counts :
      (now month user j m : ℕ) (durable : Bool) (db : Db) (s : State)
      → stored_count j m (increment_usage now month user durable (db, s)).0.usage_monthly ≡ (
          if durable && (user == j && month == m)
          then stored_count j m db.usage_monthly + 1
          else stored_count j m db.usage_monthly)
  unfolding increment_usage
  increment_usage_counts now month user j m durable db s =
      ground (arith, stored_count-upsert_usage user month j m db.usage_monthly)
