-- ===== src/Executions/Verify/Attest.antt =====
-- Attestations and verdicts, and the requests that come after them.
use cueapi_core.Prelude.{
  ℕ, ◌≡◌, ◌≢◌, refl, ap, ◌∙◌, sym, true, false, String, Option, none, some, ◌==◌, nat_eq, string_eq,
  if◌then◌else◌, or_else, is_some, ==-refl, Bool-cases, inl, inr, find, find-update_row, find-key,
  arith,
}
use cueapi_core.Store.{
  OutcomeState, outcome_eq, Execution, Cue, Db, execution_keyed, cue_keyed, update_execution,
}
use cueapi_core.Executions.Answer.{refused, answered, owned, owned-rows, owned-some}
use cueapi_core.Executions.Verify.{
  VerifyRequest, default_request, verifiable, exec_verified, verify_row, verify_execution,
  exec_pending, pending_row, mark_verification_pending, exec_attested, attest, live_claim_row,
  live_claim_execution,
}

-- An update of the row that a user sees, which keeps its identifier and its cue.
owned-update :
    (user i : ℕ) (f : Execution → Execution) (db : Db) (e : Execution) (c : Cue)
    → ((x : Execution) → (f x).id ≡ x.id)
    → (f e).cue_id ≡ e.cue_id
    → owned user i db ≡ some (e, c)
    → owned user i (update_execution e.id f db) ≡ some (f e, c)
owned-update user i f db e c keeps same h =
    let (row, cue, mine) = owned-rows user i db e c h in
    let update = find-update_row e.id i f keeps db.executions in
    owned-some user i (update_execution e.id f db) (f e) c
      (ground (arith, update, row, find-key i db.executions e row))
      (ap (λ k. find k db.cues) same ∙ cue) mine

not_same : (t u : String) → u ≢ t → (t == u) ≡ false
not_same t u ne = elim (Bool-cases (t == u)) [
  | inl same ↦ elim (ne (sym ((string_eq.same_iff t u).0 same))) [ ]
  | inr other ↦ other
]

exec_verified-keeps :
    (now : ℕ) (body : VerifyRequest) (x : Execution) → (exec_verified now body x).id ≡ x.id
unfolding exec_verified
exec_verified-keeps now body x = ground arith

exec_verified-cue :
    (now : ℕ) (body : VerifyRequest) (x : Execution) → (exec_verified now body x).cue_id ≡ x.cue_id
unfolding exec_verified
exec_verified-cue now body x = ground arith

module _ (now user i : ℕ) (db : Db) (e : Execution) (c : Cue)
    (visible : owned user i db ≡ some (e, c)) where
  -- The first attestation of an execution wins: the same token is acknowledged with the time of the
  -- first and another one is refused with a 409, and neither changes anything.
  live_claim_first_wins :
      (later : ℕ) (t u : String)
      → e.live_claimed_at ≡ none
      → u ≢ t
      → (db' : Db) × (live_claim_execution now user i t db ≡ answered (now, db'))
        × (live_claim_execution later user i t db' ≡ answered (now, db'))
        × (live_claim_execution later user i u db' ≡ refused 409 "already_attested")
  unfolding live_claim_row attest
  live_claim_first_wins later t u fresh ne =
      let seen = owned-update user i (exec_attested now t) db e c (λ x. refl) refl visible in
      let other : (t == u) ≡ false = not_same t u ne in
      let same : (t == t) ≡ true = ==-refl t in
      (
        update_execution e.id (exec_attested now t) db,
        rw (visible, fresh) refl,
        rw (seen, same) refl,
        rw (seen, other) refl,
      )

  -- A verdict on a report is final as long as nobody marks the execution as pending again: a second
  -- one is refused with a 409, and the state is the one that the first gave.
  verify_once :
      (later : ℕ) (body body' : Option VerifyRequest)
      → verifiable e.outcome_state ≡ true
      → let valid = (or_else body default_request).valid in
        (db' : Db) × (e' : Execution) × (verify_execution now user i body db ≡ answered db')
        × (owned user i db' ≡ some (e', c))
        × (e'.outcome_state
            ≡ some
                (if valid then OutcomeState.verified_success else OutcomeState.verification_failed))
        × (verify_execution later user i body' db' ≡ refused 409 "invalid_state")
  unfolding verify_row exec_verified
  verify_once later body body' ready =
      let b = or_else body default_request in
      let seen =
        owned-update user i (exec_verified now b) db e c (exec_verified-keeps now b)
          (exec_verified-cue now b e) visible in
      let state : (exec_verified now b e).outcome_state
          ≡ some (
              if b.valid then OutcomeState.verified_success else OutcomeState.verification_failed) =
        ground arith in
      let closed : verifiable (exec_verified now b e).outcome_state ≡ false = ground arith in
      (
        update_execution e.id (exec_verified now b) db,
        exec_verified now b e,
        rw (visible, ready) refl,
        seen,
        state,
        rw (seen, closed) refl,
      )

  -- To mark an execution as pending takes a verdict back: it is accepted from every state of a
  -- recorded outcome, and any verdict is accepted after it.
  pending_reopens :
      (later last : ℕ) (body : Option VerifyRequest)
      → is_some e.outcome_recorded_at ≡ true
      → (db' : Db) × (db'' : Db) × (mark_verification_pending later user i db ≡ answered db')
        × (verify_execution last user i body db' ≡ answered db'')
        × (owned user i db''
            ≡ some (exec_verified last (or_else body default_request) (exec_pending later e), c))
  unfolding verify_row pending_row
  pending_reopens later last body recorded =
      let b = or_else body default_request in
      let db' = update_execution e.id (exec_pending later) db in
      let seen = owned-update user i (exec_pending later) db e c (λ x. refl) refl visible in
      (
        db',
        update_execution e.id (exec_verified last b) db',
        rw (visible, recorded) refl,
        rw seen refl,
        owned-update user i (exec_verified last b) db' (exec_pending later e) c
            (exec_verified-keeps last b) (exec_verified-cue last b (exec_pending later e)) seen,
      )
