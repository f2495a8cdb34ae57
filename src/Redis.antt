-- ===== src/Redis.antt =====
-- Redis as the server uses it: a client record with the commands and their documented behaviour.
-- Every command may raise (`none`), which is how an outage shows. Numbers and times are stored by
-- their value: the program's str/int and isoformat/fromisoformat undo
-- one another, where the client decodes; Usage.Grace is about one that does not.
use cueapi_core.Prelude.{ℕ, ◌+◌, ◌≡◌, ◌≢◌, Option, none, some, ltb, if◌then◌else◌}

-- The keys, by what their text is built from.
pub data Key : Type 0 where
  usage_key : ℕ → ℕ → Key
  grace_key : ℕ → Key
  debounce_key : ℕ → Key
  concurrent_key : ℕ → Key
  leader_key : Key

pub record Redis : Type 1 where
  pub State : Type 0
  -- GET at a time
  pub get : State → ℕ → Key → Option (Option ℕ)
  -- SET key value EX ttl, at a time
  pub set_ex : State → ℕ → Key → ℕ → ℕ → Option State
  -- INCR, with the new value; then EXPIRE
  pub incr : State → ℕ → Key → Option (ℕ × State)
  pub expire : State → ℕ → Key → ℕ → Option State
  pub decr : State → ℕ → Key → Option State
  -- A key that was set with a time to live is there before that has passed, and is gone from then on.
  pub get-set_ex :
      (s s' : State) (now t : ℕ) (k : Key) (v ttl : ℕ) (r : Option ℕ)
      → set_ex s now k v ttl ≡ some s'
      → get s' t k ≡ some r
      → r ≡ (if ltb t (now + ttl) then some v else none)
  -- SET leaves the other keys alone.
  pub get-set_ex_ne :
      (s s' : State) (now t : ℕ) (k j : Key) (v ttl : ℕ)
      → j ≢ k
      → set_ex s now k v ttl ≡ some s'
      → get s' t j ≡ get s t j
  -- INCR leaves the other keys alone.
  pub get-incr_ne :
      (s s' : State) (now t : ℕ) (k j : Key) (n : ℕ)
      → j ≢ k
      → incr s now k ≡ some (n, s')
      → get s' t j ≡ get s t j
