-- ===== src/Prelude/Orders.antt =====
-- The rows of SELECT ... WHERE ... ORDER BY ... LIMIT under their keys.
use Prim.Native.Nat.{ℕ}
use mathlib.Core.Path.{◌≡◌, refl, sym, ◌∙◌}
use mathlib.Core.Bool.{Bool, true}
use mathlib.Core.Option.{none, some}
use mathlib.Core.List.{List, [], ◌∷◌}
use native.Mathlib.Omega.{arith}
use cueapi_core.Prelude.Tests.{◌==◌, nat_eq, if◌then◌else◌}
use cueapi_core.Prelude.Table.{Keyed, find, take, where_, insert_by, order_by}
use cueapi_core.Prelude.Keys.{IsKeyed, where_-IsKeyed}
use cueapi_core.Prelude.Loops.{find-take-some, find-where_-passing, passing-some}

module _ {ℓ} {A : Type ℓ} ⦃k : Keyed A⦄ (f : A → ℕ) where
  find-insert_by :
      (i : ℕ) (a : A) (t : List A)
      → find (k.key a) t ≡ none
      → find i (insert_by f a t) ≡ (if k.key a == i then some a else find i t)
  unfolding find insert_by
  find-insert_by i a [] new = refl
  find-insert_by i a (x ∷ t) new = ground (arith, find-insert_by i a t)

  find-order_by : (i : ℕ) (t : List A) → IsKeyed t → find i (order_by f t) ≡ find i t
  unfolding find order_by
  find-order_by i [] h = refl
  find-order_by i (x ∷ t) h =
      find-insert_by i x (order_by f t) (find-order_by (k.key x) t h.1 ∙ h.0)
      ∙ rw (find-order_by i t h.1) refl

  -- A row of an ordered selection is a row of the table that passes.
  pub find-ordered :
      (i n : ℕ) (q : A → Bool) (t : List A) (e : A)
      → IsKeyed t
      → find i (take n (order_by f (where_ q t))) ≡ some e
      → (find i t ≡ some e) × (q e ≡ true)
  find-ordered i n q t e h row =
      let chosen = find-take-some i n (order_by f (where_ q t)) e row in
      passing-some q (find i t) e (
        sym (find-where_-passing i q t h)
        ∙ sym (find-order_by i (where_ q t) (where_-IsKeyed q t h))
        ∙ chosen)
