-- ===== src/Poller/Finality/Steps.antt =====
-- One job of the poller, beside an execution that is over.
use mathlib.Core.Option.{some-injective}
use mathlib.Core.List.{Memᴰ}
use cueapi_core.Prelude.{
  ℕ, ◌≡◌, refl, sym, ap, ◌∙◌, true, false, String, Option, none, some, List, [], ◌∷◌, ◌==◌, nat_eq,
  is_some, find, first_where, each, All, arith, IsKeyed, find-Mem, Bool-cases, inl, inr,
}
use cueapi_core.Store.{
  ExecStatus, exec_eq, Execution, Outbox, Db, execution_keyed, cue_keyed, outbox_keyed,
}
use cueapi_core.Poller.Retries.{is_ready}
use cueapi_core.Poller.Retries.Pairs.{IsRetry, is_for}
use cueapi_core.Poller.Dispatch.{
  Task, Job, send, send_round, route, dispatch_outbox, cleanup_outbox,
}
use cueapi_core.Poller.Finality.{is_final}

not_retrying : (s : ExecStatus) → is_final s ≡ true → (s == ExecStatus.retrying) ≡ false
not_retrying s h = ground arith

pub not_delivering : (s : ExecStatus) → is_final s ≡ true → (s == ExecStatus.delivering) ≡ false
not_delivering s h = ground arith

pub not_pending : (s : ExecStatus) → is_final s ≡ true → (s == ExecStatus.pending) ≡ false
not_pending s h = ground arith

false_ne_true : false ≡ true → ⊥
false_ne_true h = cc

-- A row that is due for a retry is not the one of a final execution.
ready-final :
    (now : ℕ) (t : List Execution) (x e : Execution)
    → IsKeyed t
    → Memᴰ x t
    → is_ready now x ≡ true
    → find x.id t ≡ some e
    → is_final e.status ≡ true
    → ⊥
ready-final now t x e keyed m ready row final =
    let same = some-injective x e (sym (find-Mem x t keyed m) ∙ row) in
    let idle = not_retrying x.status (ap (λ r. is_final r.status) same ∙ final) in
    false_ne_true (rw idle at ready)

send-executions :
    (o : Outbox) (t : Option Task) (r : Option String) (jobs : List Job) (db : Db)
    → (send o t r (jobs, db)).1.executions ≡ db.executions
unfolding send
send-executions o none r jobs db = refl
send-executions o (some t) none jobs db = refl
send-executions o (some t) (some e) jobs db = refl

each_send-executions :
    (refusal : Outbox → Option String) (es : List Outbox) (jobs : List Job) (db : Db)
    → (each (send_round refusal) es (jobs, db)).1.executions ≡ db.executions
unfolding each
each_send-executions refusal [] jobs db = refl
each_send-executions refusal (o ∷ es) jobs db =
    let next = send o (route o.task_type) (refusal o) (jobs, db) in
    each_send-executions refusal es next.0 next.1
    ∙ send-executions o (route o.task_type) (refusal o) jobs db

-- The dispatcher works on the outbox.
pub dispatch_outbox-executions :
    (refusal : Outbox → Option String) (now batch_size : ℕ) (db : Db)
    → (dispatch_outbox refusal now batch_size db).1.executions ≡ db.executions
unfolding dispatch_outbox
dispatch_outbox-executions refusal now batch_size db = each_send-executions refusal _ [] db

pub cleanup_outbox-executions :
    (now retention_days : ℕ) (db : Db)
    → (cleanup_outbox now retention_days db).1.executions ≡ db.executions
unfolding cleanup_outbox
cleanup_outbox-executions now retention_days db = refl

-- No row that the retry poller adds is for an execution that is final.
pub no_retry :
    (now j : ℕ) (db : Db) (e : Execution) (rows : List Outbox)
    → IsKeyed db.executions
    → find j db.executions ≡ some e
    → is_final e.status ≡ true
    → All (IsRetry now db) rows
    → is_some (first_where (is_for j) rows) ≡ false
unfolding first_where
no_retry now j db e [] keyed row final h = refl
no_retry now j db e (o ∷ rows) keyed row final ((x, c, m, ready, cue, ex, kind, new, load), h) =
    elim (Bool-cases (x.id == j)) [
      | inl same ↦
          let key : x.id ≡ j = (nat_eq.same_iff x.id j).0 same in
          elim (ready-final now db.executions x e keyed m ready
            (ap (λ k. find k db.executions) key ∙ row) final) [ ]
      | inr other ↦ rw (ex, other) (no_retry now j db e rows keyed row final h)
    ]
