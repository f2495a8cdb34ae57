-- ===== src/Delivery/Race.antt =====
-- Who wins an execution: the conditional UPDATE of _claim_execution under races and duplicates.
use cueapi_core.Prelude.{
  ℕ, ◌≡◌, ◌≢◌, refl, Bool, false, ◌&&◌, none, some, List, [], ◌∷◌, ◌==◌, nat_eq, if◌then◌else◌,
  is_some, first_where, update_where, find, find-update_where, find-key, arith, IsKeyed,
  first_where-find, passing,
}
use cueapi_core.Store.{ExecStatus, exec_eq, Execution, Db, execution_keyed}
use cueapi_core.Delivery.Claim.{claimable, claimed, claim_execution}

-- If an update takes its rows out of its own WHERE clause, no row passes it afterwards.
update_where-first_where :
    {A : Type 0} (p : A → Bool) (f : A → A)
    → ((x : A) → p (f x) ≡ false)
    → (t : List A) → first_where p (update_where p f t) ≡ none
unfolding first_where update_where
update_where-first_where p f out [] = refl
update_where-first_where p f out (x ∷ t) = ground (arith, out x, update_where-first_where p f out t)

claimed-claimable :
    (now i : ℕ) (x : ExecStatus)
    → x ≢ ExecStatus.delivering
    → (e : Execution) → claimable i x (claimed now e) ≡ false
claimed-claimable now i ExecStatus.delivering ne e = absurd (ne refl)
claimed-claimable now i _ ne e = ground arith

-- An UPDATE whose WHERE clause no row passes changes nothing.
pub update_none :
    {A : Type 0} (p : A → Bool) (f : A → A) (t : List A)
    → first_where p t ≡ none
    → update_where p f t ≡ t
unfolding first_where update_where
update_none p f [] h = refl
update_none p f (x ∷ t) h = ground (arith, update_none p f t)

-- Of two claims of one execution from the same status, which is not 'delivering', the second loses
-- and leaves the database as the first one left it, whenever the two are made.
pub claim-claim :
    (n₁ n₂ i : ℕ) (x : ExecStatus) (db : Db)
    → x ≢ ExecStatus.delivering
    → claim_execution n₂ i x (claim_execution n₁ i x db).1 ≡ (false, (claim_execution n₁ i x db).1)
unfolding claim_execution
claim-claim n₁ n₂ i x db ne =
    let gone =
      update_where-first_where (claimable i x) (claimed n₁) (claimed-claimable n₁ i x ne)
        db.executions in
    let same =
      update_none (claimable i x) (claimed n₂)
        (update_where (claimable i x) (claimed n₁) db.executions) gone in
    rw (gone, same)

-- A claim wins exactly if the row under the key has the expected status.
pub claim-won :
    (now i : ℕ) (x : ExecStatus) (db : Db)
    → IsKeyed db.executions
    → (claim_execution now i x db).0 ≡ is_some (passing (λ e. e.status == x) (find i db.executions))
unfolding claim_execution
claim-won now i x db keyed =
    rw (first_where-find i (λ (e : Execution). e.status == x) db.executions keyed)

-- What a claim does to the row under any key: the claimed one is delivering from now on, with the
-- start of its first attempt kept, and every other row stays.
pub find-claim :
    (now i j : ℕ) (x : ExecStatus) (db : Db) (e : Execution)
    → find j db.executions ≡ some e
    → find j (claim_execution now i x db).1.executions
      ≡ some (if i == j && e.status == x then claimed now e else e)
unfolding claim_execution
find-claim now i j x db e h = ground (
  arith,
  find-update_where (claimable i x) (claimed now) (λ (r : Execution). refl) j db.executions,
  find-key j db.executions e h,
)
