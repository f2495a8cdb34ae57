-- ===== src/Usage/Grace.antt =====
-- check_execution_limit: under the limit, in the grace period, or blocked. Its only caller passes the client of
-- arq, which does not decode: GET gives bytes, which int reads and datetime.fromisoformat does not, so a grace
-- period that is there raises a TypeError. The answer none is that exception.
pub mod Raises
use cueapi_core.Prelude.{
  ℕ, ◌+◌, ◌-◌, ◌<◌, ◌≡◌, refl, Bool, true, false, Option, none, some, ltb, leb, or_else,
  if◌then◌else◌, arith, Option-cases, ◌⊎◌, inl, inr, ltb→lt,
}
use cueapi_core.Redis.{Redis, usage_key, grace_key}
use cueapi_core.Store.{Db, days}
use cueapi_core.Usage.Counter.{get_monthly_usage, stored_count, try_state}

pub record LimitCheck : Type 0 where
  pub allowed : Bool
  pub over_limit : Bool
  pub grace_active : Bool
  pub usage : ℕ

abbrev in_grace : ℕ → LimitCheck
in_grace n = record { allowed = true; over_limit = true; grace_active = true; usage = n }

abbrev blocked : ℕ → LimitCheck
blocked n = record { allowed = false; over_limit = true; grace_active = false; usage = n }

module _ (R : Redis) where
  open R use {State, get, set_ex}

  -- The part after `usage >= monthly_limit`.
  unfoldable pub check_grace : ℕ → ℕ → ℕ → State → Option LimitCheck × State
  check_grace now user usage s = elim (get s now (grace_key user)) [
    | none ↦ (some (blocked usage), s)
    | some grace_start ↦ elim grace_start [
      | none ↦ (some (in_grace usage), try_state R s (set_ex s now (grace_key user) now (days 1)))
      | some start ↦ (none, s)
    ]
  ]

  unfoldable pub check_execution_limit : ℕ → ℕ → ℕ → ℕ → Db × State → Option LimitCheck × State
  unfolding check_grace
  check_execution_limit now month user monthly_limit (db, s) =
      let (usage, s₁) = get_monthly_usage R now month user (db, s) in
      if ltb usage monthly_limit
      then (
        some (record { allowed = true; over_limit = false; grace_active = false; usage = usage }),
        s₁,
      )
      else check_grace now user usage s₁
