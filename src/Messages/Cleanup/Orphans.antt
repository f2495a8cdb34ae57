-- ===== src/Messages/Cleanup/Orphans.antt =====
-- What a deletion leaves of the rows that stay, and two deletions in a row.
use cueapi_core.Prelude.{
  ℕ, zero, suc, ◌≡◌, refl, sym, ap, Bool, false, not, List, [], ◌∷◌, ◌++◌, ◌&&◌, ◌||◌, true,
  find-append, update_where, Option-cases, nat_eq, if◌then◌else◌, is_some, find, where_, take,
  arith, Bool-cases, inl, inr,
}
use cueapi_core.Store.{Message, message_keyed}
use cueapi_core.Messages.Cleanup.{delete_rows, is_reply_to, orphaned, delete_batch}

-- What a deletion leaves of a row that stays.
abbrev pub left : List Message → Message → Message
left b m = if is_reply_to b m then orphaned m else m

pub is_some-append :
    (i : ℕ) (b c : List Message)
    → is_some (find i (b ++ c)) ≡ (is_some (find i b) || is_some (find i c))
is_some-append i b c = ground (arith, find-append i b c)

left-left : (b c : List Message) (m : Message) → left c (left b m) ≡ left (b ++ c) m
left-left b c m = elim (Option-cases m.reply_to) [
  | inl alone ↦ rw alone refl
  | inr (i, there) ↦
      let both = is_some-append i b c in
      elim (Bool-cases (is_some (find i b))) [
        | inl first ↦ rw (there, both, first) refl
        | inr other ↦ rw (there, both, other) refl
      ]
]

pub left-id : (b : List Message) (m : Message) → (left b m).id ≡ m.id
left-id b m = ground arith

pub left-nil : (t : List Message) → delete_batch [] t ≡ t
unfolding delete_batch delete_rows where_ update_where find
left-nil [] = refl
left-nil (m ∷ t) = ground (arith, left-nil t)

-- Of two deletions, one.
pub delete_batch-delete_batch :
    (b c t : List Message) → delete_batch c (delete_batch b t) ≡ delete_batch (b ++ c) t
unfolding delete_batch delete_rows where_ update_where
delete_batch-delete_batch b c [] = refl
delete_batch-delete_batch b c (m ∷ t) =
    let both = is_some-append m.id b c in
    let ih = delete_batch-delete_batch b c t in
    elim (Bool-cases (is_some (find m.id b))) [
      | inl first ↦ rw (both, first) ih
      | inr other ↦
          let same = left-id b m in
          elim (Bool-cases (is_some (find m.id c))) [
            | inl second ↦ rw (both, other, same, second) ih
            | inr neither ↦
                rw (both, other, same, neither, left-left b c m) (ap (λ u. left (b ++ c) m ∷ u) ih)
          ]
    ]

module _ (b c : List Message) (same : (i : ℕ) → is_some (find i b) ≡ is_some (find i c)) where
  left-same : (m : Message) → left b m ≡ left c m
  left-same m = elim (Option-cases m.reply_to) [
    | inl alone ↦ rw alone refl
    | inr (i, there) ↦ rw (there, same i) refl
  ]

  -- A deletion depends on the identifiers only.
  pub delete_batch-same : (t : List Message) → delete_batch b t ≡ delete_batch c t
  unfolding delete_batch delete_rows where_ update_where
  delete_batch-same [] = refl
  delete_batch-same (m ∷ t) =
      let ih = delete_batch-same t in
      elim (Bool-cases (is_some (find m.id c))) [
        | inl gone ↦ rw (same m.id, gone) ih
        | inr stays ↦ rw (same m.id, stays, left-same m) (ap (λ u. left c m ∷ u) ih)
      ]

pub is_some-take :
    (n i : ℕ) (t : List Message) → is_some (find i (take n t)) ≡ true → is_some (find i t) ≡ true
unfolding find
is_some-take zero i t h = absurd (let broken : false ≡ true = h in cc)
is_some-take (suc n) i [] h = h
is_some-take (suc n) i (m ∷ t) h = ground (arith, h, is_some-take n i t)

pub either_known : (a b : Bool) → (a ≡ true → b ≡ true) → (a || (b && not a)) ≡ b
either_known true b h = sym (h refl)
either_known false true h = refl
either_known false false h = refl
