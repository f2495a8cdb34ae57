-- ===== src/Messages/Cleanup/Batches.antt =====
-- The deletion in batches, against one DELETE of all the rows that pass.
use mathlib.Core.Option
use cueapi_core.Prelude.{
  ℕ, zero, suc, ◌+◌, ◌-◌, min, ◌≡◌, ◌<◌, refl, sym, ap, ◌∙◌, Bool, false, ◌==◌, not, some, List, [],
  ◌∷◌, ◌++◌, ◌&&◌, ◌||◌, true, subst, update_where, update_where-IsKeyed, take-all, nat_eq,
  if◌then◌else◌, is_some, find, where_, count_where, take, length, arith, Bool-cases, inl, inr,
  IsKeyed, where_-IsKeyed,
}
use cueapi_core.Store.{Message, Db, message_keyed, days}
use cueapi_core.Messages.Cleanup.{
  batch_size, is_deletable, ids, delete_rows, is_reply_to, orphaned, delete_batch, delete_batches,
  unless_empty, cleanup_expired_messages,
}
use cueapi_core.Messages.Cleanup.First.{
  List-cases, delete_first, length-where_, length-take-where_, delete_first-count,
  delete_first-rest, none_pass, count_where-length, no_rows, delete_rows-first,
}
use cueapi_core.Messages.Cleanup.Orphans.{
  left, is_some-append, left-id, left-nil, delete_batch-delete_batch, delete_batch-same,
  is_some-take, either_known,
}

and_false : (a : Bool) → (a && false) ≡ false
and_false true = refl
and_false false = refl

module _ (cutoff : ℕ) where
  abbrev q : Message → Bool
  q = is_deletable cutoff

  left-deletable : (b : List Message) (m : Message) → q (left b m) ≡ q m
  left-deletable b m = elim (Bool-cases (is_reply_to b m)) [
    | inl reply ↦ rw reply refl
    | inr other ↦ rw other refl
  ]

  left-count :
      (b t : List Message)
      → count_where q (update_where (is_reply_to b) orphaned t) ≡ count_where q t
  unfolding count_where update_where
  left-count b [] = refl
  left-count b (m ∷ t) =
      rw (left-deletable b m) (ap (λ n. if q m then suc n else n) (left-count b t))

  count_after :
      (b t : List Message) → count_where q (delete_batch b t) ≡ count_where q (delete_rows b t)
  unfolding delete_batch
  count_after b t = left-count b (delete_rows b t)

  delete_batch-IsKeyed : (b t : List Message) → IsKeyed t → IsKeyed (delete_batch b t)
  unfolding delete_batch delete_rows
  delete_batch-IsKeyed b t h =
      update_where-IsKeyed (is_reply_to b) orphaned (λ m. refl) _
        (where_-IsKeyed (λ m. not (is_some (find m.id b))) t h)

  -- What is still to be deleted after a batch.
  still_there :
      (b : List Message) (i : ℕ) (t : List Message)
      → is_some (find i (where_ q (delete_batch b t)))
        ≡ (is_some (find i (where_ q t)) && not (is_some (find i b)))
  unfolding delete_batch delete_rows where_ update_where find
  still_there b i [] = refl
  still_there b i (m ∷ t) =
      let ih = still_there b i t in
      let same = left-id b m in
      let keeps = left-deletable b m in
      elim (Bool-cases (q m)) [
        | inl old ↦ elim (Bool-cases (is_some (find m.id b))) [
          | inl gone ↦ elim (Bool-cases (m.id == i)) [
            | inl here ↦
                let at : m.id ≡ i = ground arith in
                let gone_i = subst (λ j. is_some (find j b) ≡ true) at gone in
                rw (gone, old, here, gone_i) (rw gone_i at ih ∙ and_false _)
            | inr elsewhere ↦ rw (gone, old, elsewhere) ih
          ]
          | inr stays ↦ elim (Bool-cases (m.id == i)) [
            | inl here ↦
                let at : m.id ≡ i = ground arith in
                let stays_i = subst (λ j. is_some (find j b) ≡ false) at stays in
                rw (stays, keeps, old, same, here, stays_i) refl
            | inr elsewhere ↦ rw (stays, keeps, old, same, elsewhere) ih
          ]
        ]
        | inr young ↦ elim (Bool-cases (is_some (find m.id b))) [
          | inl gone ↦ rw (gone, young) ih
          | inr stays ↦ rw (stays, keeps, young) ih
        ]
      ]

  -- The rows of a batch and the rows that are still to be deleted are the rows to be deleted.
  batch_and_rest :
      (n : ℕ) (t : List Message) (i : ℕ)
      → let b = take n (where_ q t) in
        is_some (find i (b ++ where_ q (delete_batch b t))) ≡ is_some (find i (where_ q t))
  batch_and_rest n t i =
      let b = take n (where_ q t) in
      is_some-append i b (where_ q (delete_batch b t))
      ∙ ap (λ r. is_some (find i b) || r) (still_there b i t)
      ∙ either_known (is_some (find i b)) (is_some (find i (where_ q t)))
          (is_some-take n i (where_ q t))

  delete_batches-all :
      (fuel total : ℕ) (t : List Message)
      → IsKeyed t
      → count_where q t < fuel
      → delete_batches fuel cutoff total t
        ≡ some (total + count_where q t, delete_batch (where_ q t) t)
  unfolding delete_batches
  delete_batches-all zero total t h enough = absurd (omega arith)
  delete_batches-all (suc fuel) total t h enough =
      let batch = take batch_size (where_ q t) in
      let next = delete_batches fuel cutoff (total + length batch) (delete_batch batch t) in
      let size : length batch ≡ min 1000 (count_where q t) = length-take-where_ q 1000 t in
      elim (List-cases batch) [
        | inl empty ↦
            let none_left : length batch ≡ 0 = ap length empty in
            let spent : count_where q t ≡ 0 = ground arith in
            let nothing = no_rows (where_ q t) (length-where_ q t ∙ spent) in
            ap (λ b. unless_empty b (total, t) next) empty
            ∙ ap (λ u. some (total, u))
                (sym (left-nil t) ∙ ap (λ w. delete_batch w t) (sym nothing))
            ∙ ap (λ n. some (n, delete_batch (where_ q t) t)) (omega arith)
        | inr (x, b, more) ↦
            let some_left : length batch ≡ suc (length b) = ap length more in
            let still : count_where q (delete_batch batch t) ≡ count_where q t - 1000 =
              count_after batch t
              ∙ ap (count_where q) (delete_rows-first q 1000 t h)
              ∙ delete_first-count q 1000 t in
            let rest =
              delete_batches-all fuel (total + length batch) (delete_batch batch t)
                (delete_batch-IsKeyed batch t h) (ground arith) in
            ap (λ b. unless_empty b (total, t) next) more
            ∙ rest
            ∙ ap (λ u. some (total + length batch + count_where q (delete_batch batch t), u))
                (delete_batch-delete_batch batch (where_ q (delete_batch batch t)) t
                  ∙ delete_batch-same (batch ++ where_ q (delete_batch batch t)) (where_ q t)
                      (batch_and_rest 1000 t) t)
            ∙ ap (λ n. some (n, delete_batch (where_ q t) t)) (ground arith)
      ]

  -- One DELETE of all the rows that pass.
  delete_batch-all :
      (t : List Message)
      → IsKeyed t
      → delete_batch (where_ q t) t
        ≡ update_where (is_reply_to (where_ q t)) orphaned (where_ (λ m. not (q m)) t)
  unfolding delete_batch
  delete_batch-all t h =
      let n = length (where_ q t) in
      let all : take n (where_ q t) ≡ where_ q t = take-all n (where_ q t) (omega arith) in
      let gone : count_where q (delete_first q n t) ≡ 0 =
        let counted = delete_first-count q n t in let size = length-where_ q t in omega arith in
      ap (update_where (is_reply_to (where_ q t)) orphaned) (
        ap (λ b. delete_rows b t) (sym all)
        ∙ delete_rows-first q n t h
        ∙ sym (none_pass q (delete_first q n t) gone)
        ∙ delete_first-rest q n t)

-- The deletion ends, and deletes at once or in batches the same: every message that has been acked, or
-- has expired, for more than seven days, and no other. What it counts is what it deletes. The messages that
-- stay are as they were, but that a reply to a deleted message has no parent any more.
pub cleanup_expired_messages_deletes :
    (now : ℕ) (db : Db)
    → IsKeyed db.messages
    → let p = is_deletable (now - days 7) in
      let n = count_where p db.messages in
      cleanup_expired_messages now false db
      ≡ some (
        record { eligible_count = n; done_count = n },
        ids (take 5 (where_ p db.messages)),
        record db {
          messages =
              update_where
                (is_reply_to (where_ p db.messages))
                orphaned
                (where_ (λ m. not (p m)) db.messages);
        },
      )
unfolding cleanup_expired_messages
cleanup_expired_messages_deletes now db keyed =
    let p = is_deletable (now - days 7) in
    let few = count_where-length p db.messages in
    let all : 0 + count_where p db.messages ≡ count_where p db.messages = omega arith in
    let deleted =
      delete_batches-all (now - days 7) (suc (length db.messages)) 0 db.messages keyed (omega arith)
      ∙ ap (λ n. some (n, delete_batch (where_ p db.messages) db.messages)) all
      ∙ ap (λ t. some (count_where p db.messages, t))
          (delete_batch-all (now - days 7) db.messages keyed) in
    ap
      (Option.map (λ ((total, t) : ℕ × List Message). (
        record { eligible_count = count_where p db.messages; done_count = total },
        ids (take 5 (where_ p db.messages)),
        record db { messages = t },
      )))
      deleted
