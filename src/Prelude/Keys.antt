-- ===== src/Prelude/Keys.antt =====
-- Tables whose primary key is unique.
use mathlib.Core.Path.{◌≡◌, refl}
use mathlib.Core.Bool.{Bool, false, ◌&&◌}
use mathlib.Core.Option.{Option, none, some}
use mathlib.Core.List.{List, [], ◌∷◌, ◌++◌, Memᴰ}
use mathlib.Core.Logic.{inl, inr}
use Prim.Native.Nat.{ℕ, zero, suc}
use native.Mathlib.Omega.{arith}
use cueapi_core.Prelude.Tests.{◌==◌, nat_eq, if◌then◌else◌, leb, Bool-cases}
use cueapi_core.Prelude.Table.{
  Keyed, find, first_where, update_where, find-update_where, find-append, where_, take, insert_by,
  order_by,
}

-- A row that passes a test, or none.
abbrev pub passing {ℓ} : {A : Type ℓ} → (A → Bool) → Option A → Option A
passing q none = none
passing q (some x) = if q x then some x else none

module _ {ℓ} {A : Type ℓ} ⦃k : Keyed A⦄ where
  abbrev pub IsKeyed : List A → Type ℓ
  IsKeyed [] = Unit
  IsKeyed (x ∷ t) = (find (k.key x) t ≡ none) × IsKeyed t

  pub first_where-find_none :
      (i : ℕ) (q : A → Bool) (t : List A)
      → find i t ≡ none
      → first_where (λ x. k.key x == i && q x) t ≡ none
  unfolding find first_where
  first_where-find_none i q [] h = refl
  first_where-find_none i q (x ∷ t) h = ground (arith, first_where-find_none i q t)

  -- SELECT ... WHERE id = i AND q is the row under the key, if that passes.
  pub first_where-find :
      (i : ℕ) (q : A → Bool) (t : List A)
      → IsKeyed t
      → first_where (λ x. k.key x == i && q x) t ≡ passing q (find i t)
  unfolding find first_where
  first_where-find i q [] h = refl
  first_where-find i q (x ∷ t) h =
      ground (arith, first_where-find i q t h.1, first_where-find_none i q t)

  pub update_where-IsKeyed :
      (p : A → Bool) (f : A → A)
      → ((x : A) → k.key (f x) ≡ k.key x)
      → (t : List A) → IsKeyed t
      → IsKeyed (update_where p f t)
  unfolding update_where
  update_where-IsKeyed p f keeps [] h = tt
  update_where-IsKeyed p f keeps (x ∷ t) h = (
    ground (arith, keeps x, find-update_where p f keeps (k.key (if p x then f x else x)) t, h.0),
    update_where-IsKeyed p f keeps t h.1,
  )

  pub append-IsKeyed :
      (t : List A) (x : A) → IsKeyed t → find (k.key x) t ≡ none → IsKeyed (t ++ x ∷ [])
  unfolding find
  append-IsKeyed [] x h new = (refl, tt)
  append-IsKeyed (y ∷ t) x h new =
      (ground (arith, find-append (k.key y) t (x ∷ []), h.0), append-IsKeyed t x h.1 (ground arith))

  -- A selection has no key that the table does not have, and has each at most once.
  pub find-where_ :
      (i : ℕ) (q : A → Bool) (t : List A) → find i t ≡ none → find i (where_ q t) ≡ none
  unfolding find where_
  find-where_ i q [] h = refl
  find-where_ i q (x ∷ t) h = ground (arith, find-where_ i q t)

  pub where_-IsKeyed : (q : A → Bool) (t : List A) → IsKeyed t → IsKeyed (where_ q t)
  unfolding where_
  where_-IsKeyed q [] h = tt
  where_-IsKeyed q (x ∷ t) h =
      let rest = where_-IsKeyed q t h.1 in
      elim (Bool-cases (q x)) [
        | inl passes ↦ rw passes (find-where_ (k.key x) q t h.0, rest)
        | inr fails ↦ rw fails rest
      ]

  find-insert_by :
      (i : ℕ) (f : A → ℕ) (a : A) (t : List A)
      → (k.key a == i) ≡ false
      → find i t ≡ none
      → find i (insert_by f a t) ≡ none
  unfolding find insert_by
  find-insert_by i f a [] ne h = ground arith
  find-insert_by i f a (x ∷ t) ne h = ground (arith, find-insert_by i f a t ne)

  find-order_by : (i : ℕ) (f : A → ℕ) (t : List A) → find i t ≡ none → find i (order_by f t) ≡ none
  unfolding find order_by
  find-order_by i f [] h = refl
  find-order_by i f (x ∷ t) h =
      find-insert_by i f x (order_by f t) (ground arith) (find-order_by i f t (ground arith))

  insert_by-IsKeyed :
      (f : A → ℕ) (a : A) (t : List A)
      → IsKeyed t
      → find (k.key a) t ≡ none
      → IsKeyed (insert_by f a t)
  unfolding find insert_by
  insert_by-IsKeyed f a [] h new = (refl, tt)
  insert_by-IsKeyed f a (x ∷ t) h new =
      let rest = insert_by-IsKeyed f a t h.1 (ground arith) in
      elim (Bool-cases (leb (f a) (f x))) [
        | inl le ↦ rw le (new, h)
        | inr gt ↦ rw gt (find-insert_by (k.key x) f a t (ground arith) h.0, rest)
      ]

  order_by-IsKeyed : (f : A → ℕ) (t : List A) → IsKeyed t → IsKeyed (order_by f t)
  unfolding order_by
  order_by-IsKeyed f [] h = tt
  order_by-IsKeyed f (x ∷ t) h =
      insert_by-IsKeyed f x (order_by f t) (order_by-IsKeyed f t h.1)
        (find-order_by (k.key x) f t h.0)

  pub find-take : (i n : ℕ) (t : List A) → find i t ≡ none → find i (take n t) ≡ none
  unfolding find
  find-take i zero t h = refl
  find-take i (suc n) [] h = refl
  find-take i (suc n) (x ∷ t) h = ground (arith, find-take i n t)

  pub take-IsKeyed : (n : ℕ) (t : List A) → IsKeyed t → IsKeyed (take n t)
  take-IsKeyed zero t h = tt
  take-IsKeyed (suc n) [] h = tt
  take-IsKeyed (suc n) (x ∷ t) h = (find-take (k.key x) n t h.0, take-IsKeyed n t h.1)

  -- SELECT ... WHERE q ORDER BY f LIMIT n
  pub selection-IsKeyed :
      (n : ℕ) (f : A → ℕ) (q : A → Bool) (t : List A)
      → IsKeyed t
      → IsKeyed (take n (order_by f (where_ q t)))
  selection-IsKeyed n f q t h =
      take-IsKeyed n (order_by f (where_ q t))
        (order_by-IsKeyed f (where_ q t) (where_-IsKeyed q t h))

  -- A row of a table with unique keys is the one under its key.
  pub find-Mem : (x : A) (t : List A) → IsKeyed t → Memᴰ x t → find (k.key x) t ≡ some x
  unfolding find
  find-Mem x [] h m = elim m [ ]
  find-Mem x (y ∷ t) h (Memᴰ.head e) = ground (arith, e)
  find-Mem x (y ∷ t) h (Memᴰ.tail m) = ground (arith, find-Mem x t h.1 m, h.0)
