-- ===== src/Poller/Recovery/Stale.antt =====
-- What becomes of the executions that are stuck in delivering.
use mathlib.Core.Option
use cueapi_core.Prelude.{
  ℕ, ◌+◌, ◌≡◌, ◌≢◌, refl, ap, ◌∙◌, Option, none, some, List, [], ◌∷◌, nat_eq, if◌then◌else◌,
  or_else, find, ltb, try_each, arith, Bool-cases, inl, inr, update_row, updates, find-update_row,
}
use cueapi_core.Store.{Execution, Cue, Db, execution_keyed, cue_keyed, minutes}
use cueapi_core.Delivery.Outcome.{cue_failed}
use cueapi_core.Poller.Recovery.{
  Progress, max_attempts_of, backoff_of, stale_backoff, stale_retrying, stale_failed, recover_stale,
}

-- The row that the call leaves of a stale execution, with its cue.
abbrev pub settled : ℕ → ℕ → Option Cue → Execution → Execution → Execution
settled now stale_seconds cue e =
    if ltb e.attempts (max_attempts_of cue)
    then stale_retrying now stale_seconds
        (now + minutes (or_else (stale_backoff e.attempts (backoff_of cue)) 0))
    else stale_failed now stale_seconds

pub settled-keeps :
    (now stale_seconds : ℕ) (db : Db) (e x : Execution)
    → (settled now stale_seconds (find e.cue_id db.cues) e x).id ≡ x.id
settled-keeps now stale_seconds db e x = ground arith

stale_backoff-some :
    (attempts : ℕ) (xs : List ℕ)
    → xs ≢ []
    → stale_backoff attempts xs ≡ some (or_else (stale_backoff attempts xs) 0)
stale_backoff-some attempts [] h = elim (h refl) [ ]
stale_backoff-some attempts (x ∷ xs) h = refl

-- A missing cue has the default backoff.
backoff_of-nonempty :
    (o : Option Cue) → ((c : Cue) → o ≡ some c → c.retry_backoff_minutes ≢ []) → backoff_of o ≢ []
backoff_of-nonempty none h = λ e. cc
backoff_of-nonempty (some c) h = h c refl

-- The loop changes no retry budget.
abbrev SameBudget : Db → Db → Type 0
SameBudget from db =
    (i : ℕ)
    → (max_attempts_of (find i db.cues) ≡ max_attempts_of (find i from.cues))
      × (backoff_of (find i db.cues) ≡ backoff_of (find i from.cues))

module _ (now stale_seconds : ℕ) (from : Db)
    (nonempty : (i : ℕ) (c : Cue) → find i from.cues ≡ some c → c.retry_backoff_minutes ≢ []) where
  recover_stale-executions :
      (e : Execution) (p : Progress)
      → SameBudget from p.2
      → (p' : Progress) × (recover_stale now stale_seconds e p ≡ some p')
        × (p'.2.executions
            ≡ update_row e.id
                (settled now stale_seconds (find e.cue_id from.cues) e)
                p.2.executions)
        × SameBudget from p'.2
  unfolding recover_stale
  recover_stale-executions e (count, failures, db) same =
      let cue = find e.cue_id from.cues in
      let delay =
        stale_backoff-some e.attempts (backoff_of cue)
          (backoff_of-nonempty cue (nonempty e.cue_id)) in
      let (max, backoff) = same e.cue_id in
      elim (Bool-cases (ltb e.attempts (max_attempts_of cue))) [
        | inl left ↦ rw (max, backoff, left, delay) (_, refl, refl, same)
        | inr spent ↦
            rw (max, backoff, spent)
              (
                _,
                refl,
                ground arith,
                λ i. ground (
                  arith,
                  same i,
                  find-update_row e.cue_id i (cue_failed now) (λ x. refl) db.cues,
                ),
              )
      ]

  pub each-recover_stale :
      (es : List Execution) (p : Progress)
      → SameBudget from p.2
      → (p' : Progress) × (try_each (recover_stale now stale_seconds) es p ≡ some p')
        × (p'.2.executions
            ≡ updates
                (λ e. settled now stale_seconds (find e.cue_id from.cues) e)
                es
                p.2.executions)
  unfolding try_each updates Option.bind
  each-recover_stale [] p same = (p, refl, refl)
  each-recover_stale (e ∷ es) p same =
      let (q, here, rows, same') = recover_stale-executions e p same in
      let (p', rest, rows') = each-recover_stale es q same' in
      let f : Execution → Execution → Execution =
        λ d. settled now stale_seconds (find d.cue_id from.cues) d in
      (p', rw here rest, rows' ∙ ap (updates f es) rows)
