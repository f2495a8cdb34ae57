-- ===== src/Executions/Answer.antt =====
-- The answers of the handlers, and the rows that a user may see.
use mathlib.Core.Option.{some-injective}
use cueapi_core.Prelude.{
  ℕ, ◌≡◌, ap, sym, ◌∙◌, Option, none, some, String, if◌then◌else◌, ◌==◌, nat_eq, find, arith,
  Bool-cases, inl, inr,
}
use cueapi_core.Store.{Execution, Cue, Db, execution_keyed, cue_keyed}

pub data Answer {ℓ} (A : Type ℓ) : Type ℓ where
  refused : ℕ → String → Answer A
  answered : A → Answer A

abbrev pub not_found {ℓ} : {A : Type ℓ} → Answer A
not_found = refused 404 "execution_not_found"

abbrev pub owned_cue : ℕ → Execution → Option Cue → Option (Execution × Cue)
owned_cue user e none = none
owned_cue user e (some c) = if c.user_id == user then some (e, c) else none

abbrev pub with_cue : ℕ → Db → Option Execution → Option (Execution × Cue)
with_cue user db none = none
with_cue user db (some e) = owned_cue user e (find e.cue_id db.cues)

-- SELECT ... FROM executions JOIN cues WHERE executions.id = i AND cues.user_id = user
unfoldable pub owned : ℕ → ℕ → Db → Option (Execution × Cue)
owned user i db = with_cue user db (find i db.executions)

owned_cue-rows :
    (user : ℕ) (x : Execution) (o : Option Cue) (e : Execution) (c : Cue)
    → owned_cue user x o ≡ some (e, c)
    → (x ≡ e) × (o ≡ some c) × (c.user_id ≡ user)
owned_cue-rows user x none e c h = cc
owned_cue-rows user x (some d) e c h = elim (Bool-cases (d.user_id == user)) [
  | inl same ↦
      let both : Path (Execution × Cue) (x, d) (e, c) =
        some-injective (x, d) (e, c) (rw same at h) in
      let user_id : d.user_id ≡ user = ground arith in
      (ap (λ r. r.0) both, ap (λ r. some r.1) both, ap (λ r. r.1.user_id) (sym both) ∙ user_id)
  | inr other ↦ cc
]

with_cue-rows :
    (user : ℕ) (db : Db) (o : Option Execution) (e : Execution) (c : Cue)
    → with_cue user db o ≡ some (e, c)
    → (o ≡ some e) × (find e.cue_id db.cues ≡ some c) × (c.user_id ≡ user)
with_cue-rows user db none e c h = cc
with_cue-rows user db (some x) e c h =
    let (row, cue, user_id) = owned_cue-rows user x (find x.cue_id db.cues) e c h in
    (ap (λ r. some r) row, ap (λ r. find r.cue_id db.cues) (sym row) ∙ cue, user_id)

-- What a user may see is in the tables.
pub owned-rows :
    (user i : ℕ) (db : Db) (e : Execution) (c : Cue)
    → owned user i db ≡ some (e, c)
    → (find i db.executions ≡ some e) × (find e.cue_id db.cues ≡ some c) × (c.user_id ≡ user)
unfolding owned
owned-rows user i db e c h = with_cue-rows user db (find i db.executions) e c h

owned_cue-some :
    (user : ℕ) (e : Execution) (c : Cue)
    → c.user_id ≡ user
    → owned_cue user e (some c) ≡ some (e, c)
owned_cue-some user e c h = ground arith

pub owned-some :
    (user i : ℕ) (db : Db) (e : Execution) (c : Cue)
    → find i db.executions ≡ some e
    → find e.cue_id db.cues ≡ some c
    → c.user_id ≡ user
    → owned user i db ≡ some (e, c)
unfolding owned
owned-some user i db e c row cue user_id = rw row (rw cue (owned_cue-some user e c user_id))
