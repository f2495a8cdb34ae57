-- ===== src/Prelude/Selects.antt =====
-- What SELECT ... WHERE ... ORDER BY ... LIMIT keeps of the rows of a table.
use Prim.Native.Nat.{ℕ, zero, suc}
use mathlib.Core.Path.{◌≡◌}
use mathlib.Core.Bool.{Bool, true}
use mathlib.Core.List.{List, [], ◌∷◌, ◌++◌, Memᴰ}
use mathlib.Core.Logic.{inl, inr}
use cueapi_core.Prelude.Tests.{leb, Bool-cases}
use cueapi_core.Prelude.Table.{where_, take, insert_by, order_by, All}

module _ {ℓ κ} {A : Type ℓ} (P : A → Type κ) where
  -- The rows of a selection are rows of the table that pass its test.
  pub where_-All :
      (q : A → Bool) (t : List A) → ((x : A) → Memᴰ x t → q x ≡ true → P x) → All P (where_ q t)
  unfolding where_
  where_-All q [] h = tt
  where_-All q (x ∷ t) h =
      let rest = where_-All q t (λ y m. h y (Memᴰ.tail m)) in
      elim (Bool-cases (q x)) [
        | inl passes ↦ rw passes (h x (Memᴰ.head (λ i. x)) passes, rest)
        | inr fails ↦ rw fails rest
      ]

  insert_by-All : (k : A → ℕ) (a : A) (t : List A) → P a → All P t → All P (insert_by k a t)
  unfolding insert_by
  insert_by-All k a [] p h = (p, tt)
  insert_by-All k a (x ∷ t) p h = elim (Bool-cases (leb (k a) (k x))) [
    | inl le ↦ rw le (p, h)
    | inr gt ↦ rw gt (h.0, insert_by-All k a t p h.1)
  ]

  pub order_by-All : (k : A → ℕ) (t : List A) → All P t → All P (order_by k t)
  unfolding order_by
  order_by-All k [] h = tt
  order_by-All k (x ∷ t) h = insert_by-All k x (order_by k t) h.0 (order_by-All k t h.1)

  pub take-All : (n : ℕ) (t : List A) → All P t → All P (take n t)
  take-All zero t h = tt
  take-All (suc n) [] h = tt
  take-All (suc n) (x ∷ t) h = (h.0, take-All n t h.1)

  pub append-All : (t u : List A) → All P t → All P u → All P (t ++ u)
  append-All [] u ht hu = hu
  append-All (x ∷ t) u ht hu = (ht.0, append-All t u ht.1 hu)

  pub where_-keeps : (q : A → Bool) (t : List A) → All P t → All P (where_ q t)
  unfolding where_
  where_-keeps q [] h = tt
  where_-keeps q (x ∷ t) h = elim (Bool-cases (q x)) [
    | inl passes ↦ rw passes (h.0, where_-keeps q t h.1)
    | inr fails ↦ rw fails (where_-keeps q t h.1)
  ]
