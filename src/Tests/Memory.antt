-- ===== src/Tests/Memory.antt =====
-- A Redis in memory, which never fails: each key holds a value and the time at which it is gone.
use cueapi_core.Prelude.{
  ℕ, ◌+◌, ◌-◌, ◌≡◌, ◌≢◌, refl, sym, ap, ◌∙◌, Bool, true, false, ◌&&◌, Option, none, some, ltb, ◌==◌,
  nat_eq, if◌then◌else◌, or_else, arith, Bool-cases, inl, inr,
}
use mathlib.Core.Option
use mathlib.Core.Option.{some-injective}
use cueapi_core.Redis.{Redis, Key, usage_key, grace_key, debounce_key, concurrent_key, leader_key}

abbrev key_beq : Key → Key → Bool
key_beq (usage_key u m) (usage_key v n) = u == v && m == n
key_beq (grace_key u) (grace_key v) = u == v
key_beq (debounce_key u) (debounce_key v) = u == v
key_beq (concurrent_key u) (concurrent_key v) = u == v
key_beq leader_key leader_key = true
key_beq _ _ = false

key_beq_self : (k : Key) → key_beq k k ≡ true
key_beq_self (usage_key u m) = ground arith
key_beq_self (grace_key u) = ground arith
key_beq_self (debounce_key u) = ground arith
key_beq_self (concurrent_key u) = ground arith
key_beq_self leader_key = refl

key_beq_eq : (j k : Key) → key_beq j k ≡ true → j ≡ k
key_beq_eq j k h = ground arith

abbrev pub Memory : Type 0
Memory = Key → Option (ℕ × ℕ)

abbrev pub no_keys : Memory
no_keys k = none

abbrev put : Key → Option (ℕ × ℕ) → Memory → Memory
put k v s j = if key_beq j k then v else s j

abbrev live : ℕ → Option (ℕ × ℕ) → Option ℕ
live t none = none
live t (some (v, expires)) = if ltb t expires then some v else none

-- A key without a time to live stays for a hundred years.
abbrev age : ℕ
age = 3155760000000000

at_key : (f g : Memory) (j : Key) → some f ≡ some g → g j ≡ f j
at_key f g j e = ap (λ (m : Memory). m j) (sym (some-injective _ _ e))

abbrev read : Memory → ℕ → Key → Option (Option ℕ)
read s t k = some (live t (s k))

pub read-put :
    (s s' : Memory) (now t : ℕ) (k : Key) (v ttl : ℕ) (r : Option ℕ)
    → some (put k (some (v, now + ttl)) s) ≡ some s'
    → read s' t k ≡ some r
    → r ≡ (if ltb t (now + ttl) then some v else none)
read-put s s' now t k v ttl r e h =
    sym (some-injective _ _ h)
    ∙ ap (live t) (at_key (put k (some (v, now + ttl)) s) s' k e)
    ∙ ap (λ (b : Bool). live t (if b then some (v, now + ttl) else s k)) (key_beq_self k)

put_ne : (s : Memory) (j k : Key) (v : Option (ℕ × ℕ)) → j ≢ k → put k v s j ≡ s j
put_ne s j k v ne = elim (Bool-cases (key_beq j k)) [
  | inl same ↦ absurd (ne (key_beq_eq j k same))
  | inr other ↦ rw other
]

pub read-put_ne :
    (s s' : Memory) (t : ℕ) (k j : Key) (v : Option (ℕ × ℕ))
    → j ≢ k
    → some (put k v s) ≡ some s'
    → read s' t j ≡ read s t j
read-put_ne s s' t k j v ne e =
    ap (λ (o : Option (ℕ × ℕ)). some (live t o)) (at_key (put k v s) s' j e ∙ put_ne s j k v ne)

abbrev count_up : Memory → ℕ → Key → ℕ × Memory
count_up s now k = let n = or_else (live now (s k)) 0 + 1 in (n, put k (some (n, now + age)) s)

pub read-count_up_ne :
    (s s' : Memory) (now t : ℕ) (k j : Key) (n : ℕ)
    → j ≢ k
    → some (count_up s now k) ≡ some (n, s')
    → read s' t j ≡ read s t j
read-count_up_ne s s' now t k j n ne e =
    read-put_ne s s' t k j (some (or_else (live now (s k)) 0 + 1, now + age)) ne
      (ap (λ (o : ℕ × Memory). some o.1) (some-injective _ _ e))

abbrev pub memory_redis : Redis
memory_redis = record {
  State = Memory;
  get = read;
  set_ex = λ s now k v ttl. some (put k (some (v, now + ttl)) s);
  incr = λ s now k. some (count_up s now k);
  expire = λ s now k ttl. some (put k (Option.map (λ (v : ℕ). (v, now + ttl)) (live now (s k))) s);
  decr = λ s now k. some (put k (some (or_else (live now (s k)) 0 - 1, now + age)) s);
  get-set_ex = read-put;
  get-set_ex_ne = λ s s' now t k j v ttl. read-put_ne s s' t k j (some (v, now + ttl));
  get-incr_ne = read-count_up_ne;
}

pub none-ne-some {ℓ} : {A : Type ℓ} (a : A) → ◌≢◌ {A = Option A} none (some a)
none-ne-some a e = cc

-- A Redis that is down: every command raises.
abbrev pub down_redis : Redis
down_redis = record {
  State = Unit {0};
  get = λ s t k. none;
  set_ex = λ s now k v ttl. none;
  incr = λ s now k. none;
  expire = λ s now k ttl. none;
  decr = λ s now k. none;
  get-set_ex = λ s s' now t k v ttl r e h. absurd (none-ne-some s' e);
  get-set_ex_ne = λ s s' now t k j v ttl ne e. absurd (none-ne-some s' e);
  get-incr_ne = λ s s' now t k j n ne e. absurd (none-ne-some (n, s') e);
}
