-- ===== src/Messages/Cleanup/First.antt =====
-- The first rows of a table that pass a test, and the deletion of them.
use cueapi_core.Prelude.{
  ℕ, zero, suc, ◌-◌, min, ◌≡◌, ◌≤◌, ◌⊎◌, refl, ap, ◌∙◌, Bool, not, none, List, [], ◌∷◌, nat_eq,
  if◌then◌else◌, find, where_, count_where, take, length, arith, ==-refl, Bool-cases, inl, inr,
  IsKeyed, find-take, find-where_,
}
use cueapi_core.Store.{Message, message_keyed}
use cueapi_core.Messages.Cleanup.{delete_rows}

pub List-cases {ℓ} : {A : Type ℓ} (t : List A) → (t ≡ []) ⊎ ((x : A) × (u : List A) × (t ≡ x ∷ u))
List-cases [] = inl refl
List-cases (x ∷ t) = inr (x, t, refl)

module _ {ℓ} {A : Type ℓ} (p : A → Bool) where
  -- The table without its first n rows that pass.
  pub delete_first : ℕ → List A → List A
  delete_first zero t = t
  delete_first (suc n) [] = []
  delete_first (suc n) (x ∷ t) = if p x then delete_first n t else x ∷ delete_first (suc n) t

  abbrev pub fails : A → Bool
  fails x = not (p x)

  length-take : (n : ℕ) (t : List A) → length (take n t) ≡ min n (length t)
  length-take zero t = ground arith
  length-take (suc n) [] = ground arith
  length-take (suc n) (x ∷ t) = ground (arith, length-take n t)

  pub length-where_ : (t : List A) → length (where_ p t) ≡ count_where p t
  unfolding where_ count_where
  length-where_ [] = refl
  length-where_ (x ∷ t) = ground (arith, length-where_ t)

  pub length-take-where_ :
      (n : ℕ) (t : List A) → length (take n (where_ p t)) ≡ min n (count_where p t)
  length-take-where_ n t = length-take n (where_ p t) ∙ ap (min n) (length-where_ t)

  pub delete_first-count :
      (n : ℕ) (t : List A) → count_where p (delete_first n t) ≡ count_where p t - n
  unfolding delete_first count_where
  delete_first-count zero t = omega arith
  delete_first-count (suc n) [] = omega arith
  delete_first-count (suc n) (x ∷ t) =
      ground (arith, delete_first-count n t, delete_first-count (suc n) t)

  pub delete_first-rest : (n : ℕ) (t : List A) → where_ fails (delete_first n t) ≡ where_ fails t
  unfolding delete_first where_
  delete_first-rest zero t = refl
  delete_first-rest (suc n) [] = refl
  delete_first-rest (suc n) (x ∷ t) =
      ground (arith, delete_first-rest n t, delete_first-rest (suc n) t)

  pub none_pass : (t : List A) → count_where p t ≡ 0 → where_ fails t ≡ t
  unfolding where_ count_where
  none_pass [] h = refl
  none_pass (x ∷ t) h = ground (arith, none_pass t)

  pub count_where-length : (t : List A) → count_where p t ≤ length t
  unfolding count_where
  count_where-length [] = omega arith
  count_where-length (x ∷ t) = ground (arith, count_where-length t)

pub no_rows : (t : List Message) → length t ≡ 0 → t ≡ []
no_rows [] h = refl
no_rows (x ∷ t) h = absurd (omega (arith, h))

module _ (p : Message → Bool) where
  delete_rows-nil : (t : List Message) → delete_rows [] t ≡ t
  unfolding delete_rows where_ find
  delete_rows-nil [] = refl
  delete_rows-nil (x ∷ t) = ground (arith, delete_rows-nil t)

  -- A row of the batch that is not in the table.
  delete_rows-other :
      (y : Message) (b t : List Message)
      → find y.id t ≡ none
      → delete_rows (y ∷ b) t ≡ delete_rows b t
  unfolding delete_rows where_ find
  delete_rows-other y b [] h = refl
  delete_rows-other y b (x ∷ t) h = ground (arith, delete_rows-other y b t)

  delete_rows-head :
      (x : Message) (b t : List Message) → delete_rows (x ∷ b) (x ∷ t) ≡ delete_rows (x ∷ b) t
  unfolding delete_rows where_ find
  delete_rows-head x b t = let here = ==-refl x.id in rw here refl

  delete_rows-skip :
      (x : Message) (b t : List Message)
      → find x.id b ≡ none
      → delete_rows b (x ∷ t) ≡ x ∷ delete_rows b t
  unfolding delete_rows where_
  delete_rows-skip x b t h = rw h refl

  pub delete_rows-first :
      (n : ℕ) (t : List Message)
      → IsKeyed t
      → delete_rows (take n (where_ p t)) t ≡ delete_first p n t
  unfolding delete_rows delete_first where_ find
  delete_rows-first zero t h = delete_rows-nil t
  delete_rows-first (suc n) [] h = refl
  delete_rows-first (suc n) (x ∷ t) h =
      let rows = where_ p t in
      elim (Bool-cases (p x)) [
        | inl hit ↦
            let batch : take (suc n) (where_ p (x ∷ t)) ≡ x ∷ take n rows = rw hit refl in
            let first : delete_first p n t ≡ delete_first p (suc n) (x ∷ t) = rw hit refl in
            ap (λ b. delete_rows b (x ∷ t)) batch
            ∙ delete_rows-head x (take n rows) t
            ∙ delete_rows-other x (take n rows) t h.0
            ∙ delete_rows-first n t h.1
            ∙ first
        | inr miss ↦
            let batch : take (suc n) (where_ p (x ∷ t)) ≡ take (suc n) rows = rw miss refl in
            let first : x ∷ delete_first p (suc n) t ≡ delete_first p (suc n) (x ∷ t) =
              rw miss refl in
            ap (λ b. delete_rows b (x ∷ t)) batch
            ∙ delete_rows-skip x (take (suc n) rows) t
                (find-take x.id (suc n) rows (find-where_ x.id p t h.0))
            ∙ ap (λ u. x ∷ u) (delete_rows-first (suc n) t h.1)
            ∙ first
      ]
