-- ===== src/Prelude/Table.antt =====
-- A relational table as a list of rows with a numeric primary key, and the statements that the
-- program sends: SELECT by key or by predicate, UPDATE ... WHERE, INSERT, COUNT, LIMIT.
use Prim.Native.Nat.{ℕ, zero, suc}
use mathlib.Core.Path.{◌≡◌, refl}
use mathlib.Core.Bool.{Bool}
use mathlib.Core.Option
use mathlib.Core.Option.{Option, none, some}
use mathlib.Core.List.{List, [], ◌∷◌, ◌++◌}
use native.Mathlib.Omega.{arith}
use cueapi_core.Prelude.Tests.{◌==◌, nat_eq, leb, if◌then◌else◌, is_some}

-- The primary key of a row.
pub record Keyed {ℓ} (A : Type ℓ) : Type ℓ where
  pub key : A → ℕ

module _ {ℓ} {A : Type ℓ} where
  abbrev pub length : List A → ℕ
  length [] = 0
  length (x ∷ xs) = suc (length xs)

  abbrev pub take : ℕ → List A → List A
  take zero xs = []
  take (suc n) [] = []
  take (suc n) (x ∷ xs) = x ∷ take n xs

  -- SELECT ... WHERE p
  unfoldable pub where_ : (A → Bool) → List A → List A
  where_ p [] = []
  where_ p (x ∷ xs) = let rest = where_ p xs in if p x then x ∷ rest else rest

  -- SELECT count(*) ... WHERE p
  unfoldable pub count_where : (A → Bool) → List A → ℕ
  count_where p [] = 0
  count_where p (x ∷ xs) = let rest = count_where p xs in if p x then suc rest else rest

  -- The first row that passes.
  unfoldable pub first_where : (A → Bool) → List A → Option A
  first_where p [] = none
  first_where p (x ∷ xs) = let rest = first_where p xs in if p x then some x else rest

  -- UPDATE ... WHERE p
  unfoldable pub update_where : (A → Bool) → (A → A) → List A → List A
  update_where p f [] = []
  update_where p f (x ∷ xs) = (if p x then f x else x) ∷ update_where p f xs

  -- ORDER BY a numeric column, ascending; rows that agree stay in the order of the table.
  unfoldable pub insert_by : (A → ℕ) → A → List A → List A
  insert_by k a [] = a ∷ []
  insert_by k a (x ∷ xs) =
      let rest = insert_by k a xs in if leb (k a) (k x) then a ∷ x ∷ xs else x ∷ rest

  unfoldable pub order_by : (A → ℕ) → List A → List A
  unfolding insert_by
  order_by k [] = []
  order_by k (x ∷ xs) = insert_by k x (order_by k xs)

  -- `for x in xs: s = body(x, s)`
  unfoldable pub each {κ} : {S : Type κ} → (A → S → S) → List A → S → S
  each body [] s = s
  each body (x ∷ xs) s = each body xs (body x s)

  abbrev pub All {κ} : (A → Type κ) → List A → Type κ
  All P [] = Unit
  All P (x ∷ xs) = P x × All P xs

module _ {ℓ} {A : Type ℓ} ⦃k : Keyed A⦄ where
  -- SELECT ... WHERE id = i
  unfoldable pub find : ℕ → List A → Option A
  find i [] = none
  find i (x ∷ xs) = let rest = find i xs in if k.key x == i then some x else rest

  -- UPDATE ... WHERE id = i
  unfoldable pub update_row : ℕ → (A → A) → List A → List A
  unfolding update_where
  update_row i f = update_where (λ x. k.key x == i) f

  -- What an update does to the row under a key.
  pub find-update_where :
      (p : A → Bool) (f : A → A)
      → ((x : A) → k.key (f x) ≡ k.key x)
      → (i : ℕ) (t : List A)
      → find i (update_where p f t) ≡ Option.map (λ x. if p x then f x else x) (find i t)
  unfolding find update_where
  find-update_where p f keeps i [] = refl
  find-update_where p f keeps i (x ∷ xs) = ground (arith, keeps x, find-update_where p f keeps i xs)

  pub find-key : (i : ℕ) (t : List A) (x : A) → find i t ≡ some x → k.key x ≡ i
  unfolding find
  find-key i [] x h = cc
  find-key i (y ∷ t) x h = ground (arith, find-key i t x)

  pub find-append :
      (i : ℕ) (t u : List A) → find i (t ++ u) ≡ (if is_some (find i t) then find i t else find i u)
  unfolding find
  find-append i [] u = refl
  find-append i (x ∷ t) u = ground (arith, find-append i t u)

  -- An update by key changes the row under that key and no other.
  pub find-update_row :
      (i j : ℕ) (f : A → A)
      → ((x : A) → k.key (f x) ≡ k.key x)
      → (t : List A)
      → find j (update_row i f t) ≡ (if i == j then Option.map f (find j t) else find j t)
  unfolding find update_row
  find-update_row i j f keeps [] = ground arith
  find-update_row i j f keeps (y ∷ t) = ground (arith, keeps y, find-update_row i j f keeps t)
