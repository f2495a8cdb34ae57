-- ===== src/Prelude/Appends.antt =====
-- Lengths and searches over a table to which rows are added.
use Prim.Native.Nat.{◌+◌}
use mathlib.Core.Path.{◌≡◌, refl}
use mathlib.Core.Bool.{Bool, ◌||◌}
use mathlib.Core.List.{List, [], ◌∷◌, ◌++◌}
use native.Mathlib.Omega.{arith}
use cueapi_core.Prelude.Tests.{is_some, if◌then◌else◌}
use cueapi_core.Prelude.Table.{length, first_where}

module _ {ℓ} {A : Type ℓ} where
  pub length-append : (t u : List A) → length (t ++ u) ≡ length t + length u
  length-append [] u = omega arith
  length-append (x ∷ t) u = ground (arith, length-append t u)

  -- Whether a row passes, in a table to which rows are added.
  pub is_some-append :
      (p : A → Bool) (t u : List A)
      → is_some (first_where p (t ++ u)) ≡ is_some (first_where p t) || is_some (first_where p u)
  unfolding first_where
  is_some-append p [] u = refl
  is_some-append p (x ∷ t) u = ground (arith, is_some-append p t u)

  pub first_where-append :
      (p : A → Bool) (t u : List A)
      → first_where p (t ++ u)
        ≡ (if is_some (first_where p t) then first_where p t else first_where p u)
  unfolding first_where
  first_where-append p [] u = refl
  first_where-append p (x ∷ t) u = ground (arith, first_where-append p t u)
