-- ===== src/Usage/Grace/Raises.antt =====
-- A check of the limit within a grace period.
use cueapi_core.Prelude.{
  ℕ, ◌+◌, ◌≤◌, ◌<◌, ◌≡◌, ◌≢◌, refl, ap, ◌∙◌, true, none, some, ltb, arith, Option-cases, inl, inr,
}
use cueapi_core.Redis.{Redis, usage_key, grace_key}
use cueapi_core.Store.{Db, days}
use cueapi_core.Usage.Counter.{get_monthly_usage, stored_count, try_state}
use cueapi_core.Usage.Grace.{check_grace, check_execution_limit}

usage-ne-grace : (u m v : ℕ) → grace_key v ≢ usage_key u m
usage-ne-grace u m v = ground arith

module _ (R : Redis) where
  open R use {State, get, set_ex, get-set_ex, get-set_ex_ne}

  -- Reading the count touches the usage key only.
  warm-grace :
      (u m user now t v ttl : ℕ) (s : State)
      → get (try_state R s (set_ex s now (usage_key u m) v ttl)) t (grace_key user)
        ≡ get s t (grace_key user)
  warm-grace u m user now t v ttl s = elim (Option-cases (set_ex s now (usage_key u m) v ttl)) [
    | inl e ↦ rw e
    | inr (s', e) ↦ rw e (
        get-set_ex_ne s s' now t (usage_key u m) (grace_key user) v ttl (usage-ne-grace u m user) e)
  ]

  get_monthly_usage-grace :
      (now month u user t : ℕ) (db : Db) (s : State)
      → get (get_monthly_usage R now month u (db, s)).1 t (grace_key user)
        ≡ get s t (grace_key user)
  unfolding get_monthly_usage
  get_monthly_usage-grace now month u user t db s =
      let w = warm-grace u month user now t (stored_count u month db.usage_monthly) (days 1) s in
      ground (arith, w)

  check_grace-starts :
      (now user usage : ℕ) (s s₁ : State)
      → get s now (grace_key user) ≡ some none
      → set_ex s now (grace_key user) now (days 1) ≡ some s₁
      → check_grace R now user usage s ≡ (
        some (record { allowed = true; over_limit = true; grace_active = true; usage = usage }),
        s₁,
      )
  unfolding check_grace
  check_grace-starts now user usage s s₁ fresh set = rw (check_grace, fresh, set) refl

  check_grace-raises :
      (now user usage start : ℕ) (s : State)
      → get s now (grace_key user) ≡ some (some start)
      → (check_grace R now user usage s).0 ≡ none
  unfolding check_grace
  check_grace-raises now user usage start s there = rw (check_grace, there) refl

  over-grace :
      (now month user limit : ℕ) (db : Db) (s : State)
      → limit ≤ (get_monthly_usage R now month user (db, s)).0
      → check_execution_limit R now month user limit (db, s)
        ≡ check_grace R now user
            (get_monthly_usage R now month user (db, s)).0
            (get_monthly_usage R now month user (db, s)).1
  unfolding check_execution_limit
  over-grace now month user limit db s over = ground arith

  stored_start :
      (s s₁ : State) (now t user : ℕ)
      → set_ex s now (grace_key user) now (days 1) ≡ some s₁
      → t < now + days 1
      → get s₁ t (grace_key user) ≢ none
      → get s₁ t (grace_key user) ≡ some (some now)
  stored_start s s₁ now t user set soon up = elim (Option-cases (get s₁ t (grace_key user))) [
    | inl down ↦ absurd (up down)
    | inr (r, there) ↦
        let value = get-set_ex s s₁ now t (grace_key user) now (days 1) r set there in
        let open_yet : ltb t (now + days 1) ≡ true = ground arith in
        there ∙ ap some (rw open_yet at value)
  ]

  -- The first check of a user who is over the limit, if no grace period is there and Redis stores a new one,
  -- lets the execution through; and each check of the user over a limit in the 24 hours from then on, right
  -- after it and as long as Redis answers the lookup of the grace key, raises instead of answering.
  pub check_execution_limit_raises :
      (now month user limit t month' limit' : ℕ) (db db' : Db) (s s₁ : State)
      → limit ≤ (get_monthly_usage R now month user (db, s)).0
      → get s now (grace_key user) ≡ some none
      → set_ex (get_monthly_usage R now month user (db, s)).1 now (grace_key user) now (days 1)
        ≡ some s₁
      → t < now + days 1
      → get s₁ t (grace_key user) ≢ none
      → limit' ≤ (get_monthly_usage R t month' user (db', s₁)).0
      → let (first, s') = check_execution_limit R now month user limit (db, s) in
        (first
          ≡ some (record {
            allowed = true;
            over_limit = true;
            grace_active = true;
            usage = (get_monthly_usage R now month user (db, s)).0;
          }))
        × ((check_execution_limit R t month' user limit' (db', s')).0 ≡ none)
  check_execution_limit_raises now month user limit t month' limit' db db' s s₁ over fresh set soon
        up over' =
      let (usage, warm) = get_monthly_usage R now month user (db, s) in
      let (usage', warm') = get_monthly_usage R t month' user (db', s₁) in
      let start =
        over-grace now month user limit db s over
        ∙ check_grace-starts now user usage warm s₁
            (get_monthly_usage-grace now month user user now db s ∙ fresh) set in
      let raises =
        ap (λ r. r.0) (over-grace t month' user limit' db' s₁ over')
        ∙ check_grace-raises t user usage' now warm' (
            get_monthly_usage-grace t month' user user t db' s₁
            ∙ stored_start warm s₁ now t user set soon up) in
      (
        ap (λ r. r.0) start,
        ap (λ r. (check_execution_limit R t month' user limit' (db', r.1)).0) start ∙ raises,
      )
