-- ===== src/Tests/Window.antt =====
-- A sorted set in memory: its entries, and the time at which the key is gone.
use cueapi_core.Prelude.{
  ℕ, ◌+◌, ◌≡◌, ◌≤◌, refl, sym, ap, ◌∙◌, true, none, some, List, [], ◌∷◌, ◌++◌, if◌then◌else◌, ltb,
  length, where_, arith, Bool-cases, inl, inr,
}
use mathlib.Core.Option.{some-injective}
use cueapi_core.Messages.Quota.{MessageRedis, per_minute_by_plan}
use cueapi_core.Messages.Quota.Window.{window, IsOrdered, accepts, accepts_bounds}

abbrev Entries : Type 0
Entries = ℕ × List ℕ

abbrev entries_at : Entries → ℕ → List ℕ
entries_at (expires, xs) t = if ltb t expires then xs else []

abbrev without : Entries → ℕ → Entries
without (expires, xs) u = (expires, where_ (λ x. ltb u x) xs)

-- An entry makes a key that is gone anew.
abbrev with_entry : Entries → ℕ → ℕ → Entries
with_entry (expires, xs) now v =
    if ltb now expires then (expires, xs ++ v ∷ []) else (now + 1, v ∷ [])

abbrev kept_for : Entries → ℕ → ℕ → Entries
kept_for e now ttl = (now + ttl, entries_at e now)

entries-without :
    (e : Entries) (t u : ℕ) → entries_at (without e u) t ≡ where_ (λ x. ltb u x) (entries_at e t)
unfolding where_
entries-without (expires, xs) t u = elim (Bool-cases (ltb t expires)) [
  | inl live ↦ rw live refl
  | inr gone ↦ rw gone refl
]

entries-with_entry :
    (e : Entries) (now v : ℕ) → entries_at (with_entry e now v) now ≡ entries_at e now ++ v ∷ []
entries-with_entry (expires, xs) now v = elim (Bool-cases (ltb now expires)) [
  | inl live ↦ rw (live, live) refl
  | inr gone ↦ let fresh : ltb now (now + 1) ≡ true = ground arith in rw (gone, fresh) refl
]

after : (f g : Entries) (t : ℕ) → some f ≡ some g → entries_at g t ≡ entries_at f t
after f g t e = ap (λ x. entries_at x t) (sym (some-injective f g e))

abbrev one_set : MessageRedis
one_set = record {
  State = Entries;
  get = λ s t k. none;
  set_ex = λ s t k v ttl. none;
  incr = λ s t k. none;
  expire = λ s now k ttl. some (kept_for s now ttl);
  remove_until = λ s now k u. some (without s u);
  card = λ s t k. some (length (entries_at s t));
  add_entry = λ s now k v. some (with_entry s now v);
  scores = λ s t k. entries_at s t;
  card-scores = λ s t k n h. sym (some-injective _ _ h);
  scores-remove_until = λ s s' now t k u le h. after (without s u) s' t h ∙ entries-without s t u;
  scores-add_entry =
      λ s s' now k v h. after (with_entry s now v) s' now h ∙ entries-with_entry s now v;
  scores-expire = λ s s' now t k ttl le h. after (kept_for s now ttl) s' t h;
}

no_entries : (u : ℕ) → entries_at (0, []) u ≡ []
no_entries u = ground arith

-- Eleven checks in a second, by a user of the free plan.
abbrev burst : List ℕ
burst =
    100000001 ∷ 100000002 ∷ 100000003 ∷ 100000004 ∷ 100000005 ∷ 100000006 ∷ 100000007 ∷ 100000008
    ∷ 100000009 ∷ 100000010 ∷ 100000011 ∷ []

burst-IsOrdered : IsOrdered 100000000 burst
burst-IsOrdered = (
  omega arith,
  (
    omega arith,
    (
      omega arith,
      (
        omega arith,
        (
          omega arith,
          (
            omega arith,
            (omega arith, (omega arith, (omega arith, (omega arith, (omega arith, tt))))),
          ),
        ),
      ),
    ),
  ),
)

accepts_bounds_example :
    length (window 100000011 (accepts one_set 7 "free" burst (0, []) []))
    ≤ per_minute_by_plan "free"
accepts_bounds_example =
    accepts_bounds one_set 7 "free" (λ s now u. (without s u, refl))
      (λ s now. (length (entries_at s now), refl)) (λ s now v. (with_entry s now v, refl))
      (λ s now ttl. (kept_for s now ttl, refl)) burst 100000000 (0, []) (omega arith)
      burst-IsOrdered no_entries
