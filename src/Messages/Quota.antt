-- ===== src/Messages/Quota.antt =====
-- services/message_usage_service.py: the monthly quota, the rate per minute and the limits on high
-- priorities. The Redis commands that it sends are an interface; a command that raises answers none.
pub mod Window
use mathlib.Core.Option
use cueapi_core.Prelude.{
  ℕ, ◌+◌, ◌-◌, Bool, true, false, ◌&&◌, String, Option, none, some, List, [], ◌∷◌, ◌==◌, nat_eq,
  string_eq, if◌then◌else◌, or_else, leb, ltb, find, first_where, length, where_, ◌≡◌, ◌≤◌, ◌++◌,
}
use cueapi_core.Store.{User, UsageMessagesMonthly, Db, user_keyed, truthy, days}
use cueapi_core.Executions.Answer.{Answer, refused, answered}

-- msg_quota:{user}:{month}, msg_ratelimit:{user}, msg_priority_high:{user} and
-- msg_inbound_priority:{from}:{to}
pub data MessageKey : Type 0 where
  quota_key : ℕ → ℕ → MessageKey
  window_key : ℕ → MessageKey
  sender_key : ℕ → MessageKey
  pair_key : ℕ → ℕ → MessageKey

-- Each command at a time. ZADD adds an entry that no other call adds, with the time as its score.
pub record MessageRedis : Type 1 where
  pub State : Type 0
  pub get : State → ℕ → MessageKey → Option (Option ℕ)
  pub set_ex : State → ℕ → MessageKey → ℕ → ℕ → Option State
  pub incr : State → ℕ → MessageKey → Option (ℕ × State)
  pub expire : State → ℕ → MessageKey → ℕ → Option State
  pub remove_until : State → ℕ → MessageKey → ℕ → Option State
  pub card : State → ℕ → MessageKey → Option ℕ
  pub add_entry : State → ℕ → MessageKey → ℕ → Option State
  -- The scores of the entries of a sorted set that are there at a time.
  pub scores : State → ℕ → MessageKey → List ℕ
  pub card-scores :
      (s : State) (t : ℕ) (k : MessageKey) (n : ℕ) → card s t k ≡ some n → n ≡ length (scores s t k)
  -- ZREMRANGEBYSCORE key 0 u
  pub scores-remove_until :
      (s s' : State) (now t : ℕ) (k : MessageKey) (u : ℕ)
      → now ≤ t
      → remove_until s now k u ≡ some s'
      → scores s' t k ≡ where_ (λ x. ltb u x) (scores s t k)
  pub scores-add_entry :
      (s s' : State) (now : ℕ) (k : MessageKey) (v : ℕ)
      → add_entry s now k v ≡ some s'
      → scores s' now k ≡ scores s now k ++ v ∷ []
  -- EXPIRE: the key is gone once its time to live has passed, and not before.
  pub scores-expire :
      (s s' : State) (now t : ℕ) (k : MessageKey) (ttl : ℕ)
      → now ≤ t
      → expire s now k ttl ≡ some s'
      → scores s' t k ≡ (if ltb t (now + ttl) then scores s now k else [])

-- The limits of the plans, for a minute.
abbrev pub per_minute_by_plan : String → ℕ
per_minute_by_plan plan = if plan == "pro" then 60 else if plan == "scale" then 300 else 10

abbrev pub plan_of : Option User → String
plan_of none = "free"
plan_of (some u) = if truthy u.plan then or_else u.plan "free" else "free"

-- `row.monthly_message_limit or 300`
abbrev pub limit_or_default : Option ℕ → ℕ
limit_or_default none = 300
limit_or_default (some n) = if n == 0 then 300 else n

abbrev pub message_limit_of : Option User → ℕ
message_limit_of none = 300
message_limit_of (some u) = limit_or_default u.monthly_message_limit

unfoldable pub get_user_plan_and_msg_limit : ℕ → Db → String × ℕ
get_user_plan_and_msg_limit user db =
    let row = find user db.users in (plan_of row, message_limit_of row)

abbrev is_message_month : ℕ → ℕ → UsageMessagesMonthly → Bool
is_message_month user month r = r.user_id == user && r.month_start == month

unfoldable pub stored_message_count : ℕ → ℕ → List UsageMessagesMonthly → ℕ
stored_message_count user month t =
    or_else
      (Option.map (λ (r : UsageMessagesMonthly). r.message_count)
        (first_where (is_message_month user month) t))
      0

-- INSERT ... ON CONFLICT (user_id, month_start) DO UPDATE SET message_count = message_count + 1
unfoldable pub upsert_message_count : ℕ → ℕ → List UsageMessagesMonthly → List UsageMessagesMonthly
upsert_message_count user month [] =
    record { user_id = user; month_start = month; message_count = 1 } ∷ []
upsert_message_count user month (r ∷ t) =
    let rest = upsert_message_count user month t in
    if is_message_month user month r
    then record r { message_count = r.message_count + 1 } ∷ t
    else r ∷ rest

module _ (R : MessageRedis) where
  open R use {State, get, set_ex, incr, expire, remove_until, card, add_entry}

  -- get_monthly_message_count with a session: Redis, then Postgres, which warms the cache.
  unfoldable pub get_monthly_message_count : ℕ → ℕ → ℕ → Db × State → ℕ × State
  get_monthly_message_count now month user (db, s) =
      let count = stored_message_count user month db.usage_messages_monthly in
      let warmed = or_else (set_ex s now (quota_key user month) count (days 35)) s in
      elim (get s now (quota_key user month)) [
        | none ↦ (count, warmed)
        | some cached ↦ elim cached [ none ↦ (count, warmed) | some n ↦ (n, s) ]
      ]

  unfoldable pub check_message_quota : ℕ → ℕ → ℕ → ℕ → Db × State → Answer ℕ × State
  check_message_quota now month user monthly_limit (db, s) =
      let (count, s') = get_monthly_message_count now month user (db, s) in
      (if leb monthly_limit count then refused 402 "quota_exceeded" else answered count, s')

  -- increment_monthly_count; `durable` says whether the UPSERT and its commit go through.
  unfoldable pub increment_monthly_count : ℕ → ℕ → ℕ → Bool → Db × State → Db × State
  increment_monthly_count now month user durable (db, s) =
      let t = upsert_message_count user month db.usage_messages_monthly in
      let count = stored_message_count user month t in
      if durable
      then (
        record db { usage_messages_monthly = t },
        or_else (set_ex s now (quota_key user month) count (days 35)) s,
      )
      else (db, s)

  -- check_per_minute_rate_limit: the window of 60 seconds. Redis fails open.
  unfoldable pub check_per_minute_rate_limit : ℕ → ℕ → String → State → Answer Bool × State
  check_per_minute_rate_limit now user plan s =
      let k = window_key user in
      elim (remove_until s now k (now - 60000000)) [
        | none ↦ (answered true, s)
        | some s₁ ↦ elim (card s₁ now k) [
          | none ↦ (answered true, s₁)
          | some count ↦
              let entered : State = elim (add_entry s₁ now k now) [
                | none ↦ s₁
                | some s₂ ↦ or_else (expire s₂ now k 120000000) s₂
              ] in
              if leb (per_minute_by_plan plan) count
              then (refused 429 "rate_limit_exceeded", s₁)
              else (answered true, entered)
        ]
      ]

  -- INCR, and EXPIRE for the first of an hour; none if either raises, with what is left.
  unfoldable pub count_hour : ℕ → MessageKey → State → Option ℕ × State
  count_hour now k s = elim (incr s now k) [
    | none ↦ (none, s)
    | some (n, s₁) ↦
        if n == 1
        then elim (expire s₁ now k 3600000000) [ none ↦ (none, s₁) | some s₂ ↦ (some n, s₂) ]
        else (some n, s₁)
  ]

  -- The limit of the pair only lowers the priority.
  unfoldable pub check_pair : ℕ → ℕ → ℕ → ℕ → State → Answer (ℕ × Bool) × State
  check_pair now from_agent_id to_agent_id priority s =
      let (pair, s') = count_hour now (pair_key from_agent_id to_agent_id) s in
      elim pair [
        | none ↦ (answered (priority, false), s')
        | some n ↦ (answered (if ltb 5 n then (3, true) else (priority, false)), s')
      ]

  unfoldable pub check_priority_high_limits : ℕ → ℕ → ℕ → ℕ → ℕ → State → Answer (ℕ × Bool) × State
  check_priority_high_limits now user from_agent_id to_agent_id priority s =
      let (sent, s') = count_hour now (sender_key user) s in
      let high : Answer (ℕ × Bool) × State = elim sent [
        | none ↦ (answered (priority, false), s')
        | some n ↦
            if ltb 10 n
            then (refused 429 "priority_high_rate_limit", s')
            else check_pair now from_agent_id to_agent_id priority s'
      ] in
      if leb priority 3 then (answered (priority, false), s) else high
