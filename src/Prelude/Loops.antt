-- ===== src/Prelude/Loops.antt =====
-- Loops over the rows that a SELECT ... LIMIT gave, each of which updates its row by key.
use Prim.Native.Nat.{ℕ, zero, suc, ◌≤◌}
use mathlib.Core.Path.{◌≡◌, refl, sym, ap, ◌∙◌}
use mathlib.Core.Bool.{Bool, true, false}
use mathlib.Core.Option
use mathlib.Core.Option.{Option, none, some, some-injective}
use mathlib.Core.List.{List, [], ◌∷◌}
use native.Mathlib.Omega.{arith}
use cueapi_core.Prelude.Tests.{◌==◌, nat_eq, if◌then◌else◌, Bool-cases}
use mathlib.Core.Logic.{inl, inr}
use cueapi_core.Prelude.Table.{
  Keyed, length, take, where_, find, update_row, update_where, find-update_row,
}
use cueapi_core.Prelude.Keys.{
  IsKeyed, passing, where_-IsKeyed, take-IsKeyed, find-take, update_where-IsKeyed,
}

-- `for x in xs: s = body(x, s)`, where none stands for an exception: the transaction is rolled back.
unfoldable pub try_each {ℓ κ} :
    {A : Type ℓ} {S : Type κ} → (A → S → Option S) → List A → S → Option S
try_each body [] s = some s
try_each body (x ∷ xs) s = Option.bind (body x s) (try_each body xs)

module _ {ℓ} {A : Type ℓ} where
  pub update_where-id :
      (p : A → Bool) (f : A → A) → ((x : A) → f x ≡ x) → (t : List A) → update_where p f t ≡ t
  unfolding update_where
  update_where-id p f same [] = refl
  update_where-id p f same (x ∷ t) = ground (arith, same x, update_where-id p f same t)

  pub take-all : (n : ℕ) (t : List A) → length t ≤ n → take n t ≡ t
  take-all zero [] h = refl
  take-all zero (x ∷ t) h = ground arith
  take-all (suc n) [] h = refl
  take-all (suc n) (x ∷ t) h = ap (λ u. x ∷ u) (take-all n t (omega arith))

pub none-some {ℓ} : {A : Type ℓ} (e : A) → ◌≡◌ {A = Option A} none (some e) → ⊥
none-some e h = cc

-- What a loop makes of a row, if its row is among those that were selected.
abbrev pub touched {ℓ} : {A : Type ℓ} → (A → A → A) → Option A → A → A
touched f none x = x
touched f (some e) x = f e x

module _ {ℓ} {A : Type ℓ} ⦃k : Keyed A⦄ where
  -- The loop on the table alone.
  unfoldable pub updates : (A → A → A) → List A → List A → List A
  updates f [] t = t
  updates f (e ∷ es) t = updates f es (update_row (k.key e) (f e) t)

  pub find-where_-passing :
      (j : ℕ) (q : A → Bool) (t : List A) → IsKeyed t → find j (where_ q t) ≡ passing q (find j t)
  unfolding find where_
  find-where_-passing j q [] h = refl
  find-where_-passing j q (x ∷ t) h = ground (arith, find-where_-passing j q t h.1, h.0)

  -- A row of a selection is the row of the table under its key.
  pub find-take-some :
      (j n : ℕ) (t : List A) (e : A) → find j (take n t) ≡ some e → find j t ≡ some e
  unfolding find
  find-take-some j zero t e h = cc
  find-take-some j (suc n) [] e h = cc
  find-take-some j (suc n) (x ∷ t) e h = ground (arith, find-take-some j n t e)

  pub passing-some :
      (q : A → Bool) (o : Option A) (e : A) → passing q o ≡ some e → (o ≡ some e) × (q e ≡ true)
  passing-some q none e h = cc
  passing-some q (some x) e h = elim (Bool-cases (q x)) [
    | inl hit ↦
        let same = some-injective x e (rw hit at h) in
        (ap (λ y. some y) same, ap q (sym same) ∙ hit)
    | inr miss ↦ absurd (none-some e (rw miss at h))
  ]

  pub find-selected :
      (j n : ℕ) (q : A → Bool) (t : List A) (e : A)
      → IsKeyed t
      → find j (take n (where_ q t)) ≡ some e
      → (find j t ≡ some e) × (q e ≡ true)
  find-selected j n q t e h row =
      passing-some q (find j t) e
        (sym (find-where_-passing j q t h) ∙ find-take-some j n (where_ q t) e row)

  -- An update that a condition on the loop's reads holds back.
  pub update_row-if :
      (b : Bool) (i : ℕ) (f : A → A) (t : List A)
      → update_row i (λ x. if b then f x else x) t ≡ (if b then update_row i f t else t)
  unfolding update_row
  update_row-if true i f t = refl
  update_row-if false i f t = update_where-id (λ x. k.key x == i) (λ x. x) (λ x. refl) t

  module _ (f : A → A → A) (keeps : (e x : A) → k.key (f e x) ≡ k.key x) where
    pub find-updates :
        (j : ℕ) (es t : List A)
        → IsKeyed es
        → find j (updates f es t) ≡ Option.map (touched f (find j es)) (find j t)
    unfolding find updates
    find-updates j [] t h = ground arith
    find-updates j (e ∷ es) t h = ground (
      arith,
      find-updates j es (update_row (k.key e) (f e) t) h.1,
      find-update_row (k.key e) j (f e) (keeps e) t,
      h.0,
    )

    pub updates-IsKeyed : (es t : List A) → IsKeyed t → IsKeyed (updates f es t)
    unfolding updates update_row
    updates-IsKeyed [] t h = h
    updates-IsKeyed (e ∷ es) t h =
        updates-IsKeyed es (update_row (k.key e) (f e) t)
          (update_where-IsKeyed (λ x. k.key x == k.key e) (f e) (keeps e) t h)

    -- A loop over a whole selection does to each row of the table that passes what it does to the
    -- rows that it selected, and leaves every other row.
    pub find-selection :
        (j n : ℕ) (q : A → Bool) (t : List A)
        → IsKeyed t
        → length (where_ q t) ≤ n
        → find j (updates f (take n (where_ q t)) t)
          ≡ Option.map (λ x. if q x then f x x else x) (find j t)
    find-selection j n q t h all = rw (take-all n (where_ q t) all) (
        ground (
          arith,
          find-updates j (where_ q t) t (where_-IsKeyed q t h),
          find-where_-passing j q t h,
        ))

    -- A row that does not pass stays, however many rows the loop takes.
    pub find-untouched :
        (j n : ℕ) (q : A → Bool) (t : List A) (x : A)
        → IsKeyed t
        → find j t ≡ some x
        → q x ≡ false
        → find j (updates f (take n (where_ q t)) t) ≡ some x
    find-untouched j n q t x h row fails =
        let es = take n (where_ q t) in
        let none_selected : find j (where_ q t) ≡ none =
          find-where_-passing j q t h ∙ rw row (rw fails refl) in
        let none_taken = find-take j n (where_ q t) none_selected in
        let loop = find-updates j es t (take-IsKeyed n (where_ q t) (where_-IsKeyed q t h)) in
        loop ∙ rw none_taken (rw row refl)
