-- ===== src/Messages/Quota/Window.antt =====
-- The messages of a user in a window of 60 seconds.
use cueapi_core.Prelude.{
  ℕ, ◌+◌, ◌-◌, ◌≡◌, ◌≤◌, refl, sym, ap, ◌∙◌, Bool, true, String, some, List, [], ◌∷◌, ◌++◌,
  if◌then◌else◌, ltb, leb, length, where_, All, append-All, length-append, arith, Bool-cases, inl,
  inr,
}
use cueapi_core.Executions.Answer.{Answer, refused, answered}
use cueapi_core.Messages.Quota.{
  MessageRedis, window_key, per_minute_by_plan, check_per_minute_rate_limit,
}

-- The entries of the last 60 seconds.
abbrev pub window : ℕ → List ℕ → List ℕ
window t xs = where_ (λ x. ltb (t - 60000000) x) xs

-- A narrower window of a window.
window-window : (now t : ℕ) (xs : List ℕ) → now ≤ t → window t (window now xs) ≡ window t xs
unfolding where_
window-window now t [] le = refl
window-window now t (x ∷ xs) le = ground (arith, window-window now t xs le)

window-append : (t : ℕ) (xs ys : List ℕ) → window t (xs ++ ys) ≡ window t xs ++ window t ys
unfolding where_
window-append t [] ys = refl
window-append t (x ∷ xs) ys = ground (arith, window-append t xs ys)

-- What is two minutes old is in no window.
window-old :
    (now t : ℕ) (xs : List ℕ) → All (λ x. x ≤ now) xs → now + 120000000 ≤ t → window t xs ≡ []
unfolding where_
window-old now t [] old late = refl
window-old now t (x ∷ xs) old late =
    let here = old.0 in ground (arith, here, window-old now t xs old.1 late)

All-later : (now t : ℕ) (xs : List ℕ) → now ≤ t → All (λ x. x ≤ now) xs → All (λ x. x ≤ t) xs
All-later now t [] le h = tt
All-later now t (x ∷ xs) le h = (let here = h.0 in omega arith, All-later now t xs le h.1)

window-length : (now t : ℕ) (xs : List ℕ) → now ≤ t → length (window t xs) ≤ length (window now xs)
unfolding where_
window-length now t [] le = omega arith
window-length now t (x ∷ xs) le = ground (arith, window-length now t xs le)

-- The window after an entry for now, while the key lives and after it.
kept_window :
    (now u : ℕ) (acc : List ℕ)
    → now ≤ u
    → All (λ x. x ≤ now) (acc ++ now ∷ [])
    → window u (if ltb u (now + 120000000) then window now acc ++ now ∷ [] else [])
      ≡ window u (acc ++ now ∷ [])
unfolding where_
kept_window now u acc later old = elim (Bool-cases (ltb u (now + 120000000))) [
  | inl live ↦ rw live (
      window-append u (window now acc) (now ∷ [])
      ∙ ap (λ xs. xs ++ window u (now ∷ [])) (window-window now u acc later)
      ∙ sym (window-append u acc (now ∷ [])))
  | inr gone ↦ rw gone (sym (window-old now u (acc ++ now ∷ []) old (ground arith)))
]

window_grows :
    (now : ℕ) (acc : List ℕ)
    → 1 ≤ now
    → length (window now (acc ++ now ∷ [])) ≡ length (window now acc) + 1
unfolding where_
window_grows now acc pos =
    let here : ltb (now - 60000000) now ≡ true = ground arith in
    ap length (window-append now acc (now ∷ []))
    ∙ length-append (window now acc) (window now (now ∷ []))
    ∙ rw here refl

none_waiting : (t limit : ℕ) → length (window t []) ≤ limit
unfolding where_
none_waiting t limit = omega arith

-- Times that do not go back.
abbrev pub IsOrdered : ℕ → List ℕ → Type 0
IsOrdered t [] = Unit
IsOrdered t (now ∷ ts) = (t ≤ now) × IsOrdered now ts

abbrev pub last : ℕ → List ℕ → ℕ
last t [] = t
last t (now ∷ ts) = last now ts

-- The checks of one user, one after the other: the times at which a message is let through.
module _ (R : MessageRedis) (user : ℕ) (plan : String) where
  open R use {State, remove_until, card, add_entry, expire, scores}

  abbrev pub let_through : ℕ → List ℕ → Answer Bool → List ℕ
  let_through now acc (refused status code) = acc
  let_through now acc (answered b) = acc ++ now ∷ []

  unfoldable pub accepts : List ℕ → State → List ℕ → List ℕ
  accepts [] s acc = acc
  accepts (now ∷ ts) s acc =
      let (answer, s') = check_per_minute_rate_limit R now user plan s in
      accepts ts s' (let_through now acc answer)

  -- Redis keeps the window of what was let through, and that is within the limit.
  abbrev Fits : ℕ → State → List ℕ → Type 0
  Fits t s acc =
      All (λ x. x ≤ t) acc
      × ((u : ℕ) → t ≤ u → window u (scores s u (window_key user)) ≡ window u acc)
      × (length (window t acc) ≤ per_minute_by_plan plan)

  module _
      (removes : (s : State) (now u : ℕ)
        → (s' : State) × (remove_until s now (window_key user) u ≡ some s'))
      (counts : (s : State) (now : ℕ) → (n : ℕ) × (card s now (window_key user) ≡ some n))
      (adds : (s : State) (now v : ℕ)
        → (s' : State) × (add_entry s now (window_key user) v ≡ some s'))
      (keeps : (s : State) (now ttl : ℕ)
        → (s' : State) × (expire s now (window_key user) ttl ≡ some s')) where
    check-Fits :
        (t now : ℕ) (s : State) (acc : List ℕ)
        → 1 ≤ t
        → t ≤ now
        → Fits t s acc
        → let (answer, s') = check_per_minute_rate_limit R now user plan s in
          Fits now s' (let_through now acc answer)
    unfolding check_per_minute_rate_limit
    check-Fits t now s acc pos le (old, same, few) =
        let k = window_key user in
        let (s₁, removed) = removes s now (now - 60000000) in
        let (n, counted) = counts s₁ now in
        let (s₂, added) = adds s₁ now now in
        let (s₃, kept) = keeps s₂ now 120000000 in
        let fewer = window-length t now acc le in
        let old' = All-later t now acc le old in
        let at_now : scores s₁ now k ≡ window now acc =
          R.scores-remove_until s s₁ now now k (now - 60000000) (omega arith) removed
          ∙ same now le in
        let entered : scores s₂ now k ≡ window now acc ++ now ∷ [] =
          R.scores-add_entry s₁ s₂ now k now added ∙ ap (λ xs. xs ++ now ∷ []) at_now in
        elim (Bool-cases (leb (per_minute_by_plan plan) n)) [
          | inl full ↦
              rw (check_per_minute_rate_limit, removed, counted, full)
                (
                  old',
                  λ u later.
                      ap (window u)
                        (R.scores-remove_until s s₁ now u k (now - 60000000) later removed)
                      ∙ window-window now u (scores s u k) later
                      ∙ same u (omega arith),
                  omega arith,
                )
          | inr room ↦
              rw (check_per_minute_rate_limit, removed, counted, room, added, kept)
                (
                  append-All (λ x. x ≤ now) acc (now ∷ []) old' (omega arith, tt),
                  λ u later.
                      ap (window u) (
                        R.scores-expire s₂ s₃ now u k 120000000 later kept
                        ∙ ap (λ xs. if ltb u (now + 120000000) then xs else []) entered)
                      ∙ kept_window now u acc later
                          (append-All (λ x. x ≤ now) acc (now ∷ []) old' (omega arith, tt)),
                  ground (
                    arith,
                    window_grows now acc (omega arith),
                    ap length at_now,
                    R.card-scores s₁ now k n counted,
                  ),
                )
        ]

    accepts-Fits :
        (ts : List ℕ) (t : ℕ) (s : State) (acc : List ℕ)
        → 1 ≤ t
        → IsOrdered t ts
        → Fits t s acc
        → length (window (last t ts) (accepts ts s acc)) ≤ per_minute_by_plan plan
    unfolding accepts
    accepts-Fits [] t s acc pos ordered fits = fits.2
    accepts-Fits (now ∷ ts) t s acc pos (le, ordered) fits =
        let (answer, s') = check_per_minute_rate_limit R now user plan s in
        accepts-Fits ts now s' (let_through now acc answer) (omega arith) ordered
          (check-Fits t now s acc pos le fits)

    -- While every command of Redis answers and the times of the checks do not go back, of any sequence
    -- of checks of a user without entries no more are let through in the 60 seconds before the last
    -- check, that one included, than the plan allows in a minute.
    pub accepts_bounds :
        (ts : List ℕ) (t : ℕ) (s : State)
        → 1 ≤ t
        → IsOrdered t ts
        → ((u : ℕ) → scores s u (window_key user) ≡ [])
        → length (window (last t ts) (accepts ts s [])) ≤ per_minute_by_plan plan
    accepts_bounds ts t s pos ordered empty =
        accepts-Fits ts t s [] pos ordered
          (tt, λ u later. ap (window u) (empty u), none_waiting t (per_minute_by_plan plan))
