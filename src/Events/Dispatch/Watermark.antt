-- ===== src/Events/Dispatch/Watermark.antt =====
-- The watermark of a subscription after a batch of which a part was held back.
use mathlib.Core.List.{Memᴰ}
use cueapi_core.Prelude.{
  ℕ, zero, suc, ◌<◌, ◌≤◌, ◌≡◌, ◌≢◌, ap, sym, subst, ◌∙◌, ◌⊎◌, Bool, All, true, none, some, List, [],
  ◌∷◌, nat_eq, ltb, take, where_, Bool-cases, Option-cases, inl, inr, arith,
}
use cueapi_core.Events.{Event, Subscription}
use cueapi_core.Events.Pull.{last_id}
use cueapi_core.Events.Pull.Log.{IsAscending}
use cueapi_core.Events.Dispatch.{lowest_id, new_watermark, dispatched_up_to}

pub Mem-where_ :
    (q : Event → Bool) (e : Event) (es : List Event) → Memᴰ e es → q e ≡ true → Memᴰ e (where_ q es)
unfolding where_
Mem-where_ q e [] m h = elim m [ ]
Mem-where_ q e (f ∷ es) (Memᴰ.head same) h = rw (subst (λ g. q g ≡ true) same h) (Memᴰ.head same)
Mem-where_ q e (f ∷ es) (Memᴰ.tail m) h = elim (Bool-cases (q f)) [
  | inl hit ↦ rw hit (Memᴰ.tail (Mem-where_ q e es m h))
  | inr miss ↦ rw miss (Mem-where_ q e es m h)
]

pub where_-Mem :
    (q : Event → Bool) (e : Event) (es : List Event)
    → Memᴰ e (where_ q es)
    → Memᴰ e es × (q e ≡ true)
unfolding where_
where_-Mem q e [] m = elim m [ ]
where_-Mem q e (f ∷ es) m = elim (Bool-cases (q f)) [
  | inl hit ↦ elim (rw hit at m) [
    | Memᴰ.head same ↦ (Memᴰ.head same, ap q same ∙ hit)
    | Memᴰ.tail rest ↦ let (there, passes) = where_-Mem q e es rest in (Memᴰ.tail there, passes)
  ]
  | inr miss ↦ let (there, passes) = where_-Mem q e es (rw miss at m) in (Memᴰ.tail there, passes)
]

above-Mem : (k : ℕ) (e : Event) (es : List Event) → All (λ f. k < f.id) es → Memᴰ e es → k < e.id
above-Mem k e [] h m = elim m [ ]
above-Mem k e (f ∷ es) h (Memᴰ.head same) = subst (λ g. k < g.id) (sym same) h.0
above-Mem k e (f ∷ es) h (Memᴰ.tail m) = above-Mem k e es h.1 m

below-Mem : (k : ℕ) (e : Event) (es : List Event) → All (λ f. f.id < k) es → Memᴰ e es → e.id < k
below-Mem k e [] h m = elim m [ ]
below-Mem k e (f ∷ es) h (Memᴰ.head same) = subst (λ g. g.id < k) (sym same) h.0
below-Mem k e (f ∷ es) h (Memᴰ.tail m) = below-Mem k e es h.1 m

-- A batch has every row up to any row that it has.
take-Mem :
    (n : ℕ) (x e : Event) (es : List Event)
    → IsAscending es
    → Memᴰ x (take n es)
    → Memᴰ e es
    → e.id ≤ x.id
    → Memᴰ e (take n es)
take-Mem zero x e es h mx me le = elim mx [ ]
take-Mem (suc n) x e [] h mx me le = me
take-Mem (suc n) x e (f ∷ es) h mx (Memᴰ.head same) le = Memᴰ.head same
take-Mem (suc n) x e (f ∷ es) h (Memᴰ.head same) (Memᴰ.tail me) le =
    let above = above-Mem f.id e es h.0 me in
    let equal = ap (λ (g : Event). g.id) same in absurd (omega arith)
take-Mem (suc n) x e (f ∷ es) h (Memᴰ.tail mx) (Memᴰ.tail me) le =
    Memᴰ.tail (take-Mem n x e es h.1 mx me le)

last_id-Mem : (c : ℕ) (es : List Event) → last_id es ≡ some c → (x : Event) × Memᴰ x es × (x.id ≡ c)
unfolding last_id
last_id-Mem c [] h = cc
last_id-Mem c (e ∷ []) h = (e, Memᴰ.head (λ i. e), ground arith)
last_id-Mem c (e ∷ f ∷ es) h = let (x, m, same) = last_id-Mem c (f ∷ es) h in (x, Memᴰ.tail m, same)

pub last_id-cons : (e : Event) (es : List Event) → last_id (e ∷ es) ≢ none
unfolding last_id
last_id-cons e [] h = cc
last_id-cons e (f ∷ es) h = last_id-cons f es h

lowest_id-Mem : (d e : Event) (ds : List Event) → Memᴰ e (d ∷ ds) → lowest_id d ds ≤ e.id
unfolding lowest_id
lowest_id-Mem d e [] (Memᴰ.head same) = ground (arith, same)
lowest_id-Mem d e [] (Memᴰ.tail m) = elim m [ ]
lowest_id-Mem d e (f ∷ ds) (Memᴰ.head same) = ground (arith, same)
lowest_id-Mem d e (f ∷ ds) (Memᴰ.tail m) = omega (arith, lowest_id-Mem f e ds m)

Mem-take : (n : ℕ) (e : Event) (es : List Event) → Memᴰ e (take n es) → Memᴰ e es
Mem-take zero e es m = elim m [ ]
Mem-take (suc n) e [] m = m
Mem-take (suc n) e (f ∷ es) (Memᴰ.head same) = Memᴰ.head same
Mem-take (suc n) e (f ∷ es) (Memᴰ.tail m) = Memᴰ.tail (Mem-take n e es m)

-- How a batch is parted: into all and nothing, or into the events of the other priorities and those of
-- priority 4.
module _ (s : Subscription) (n : ℕ) (pending fired : List Event)
    (sorted : IsAscending pending) where
  -- No pending event up to the new watermark is outside the part that was fired.
  pub new_watermark-covers :
      (deferred : List Event)
      → ((x : Event) → Memᴰ x fired → Memᴰ x (take n pending))
      → ((x : Event) → Memᴰ x (take n pending) → Memᴰ x fired ⊎ Memᴰ x deferred)
      → (e : Event) → Memᴰ e pending
      → dispatched_up_to s < e.id
      → e.id ≤ new_watermark s fired deferred
      → Memᴰ e fired
  unfolding new_watermark
  new_watermark-covers [] from_batch in_parts e me above le = elim (Option-cases (last_id fired)) [
    | inl empty ↦ absurd (let bound = rw empty at le in omega arith)
    | inr (c, last) ↦
        let (x, mx, same) = last_id-Mem c fired last in
        let bound : e.id ≤ x.id = rw same (rw last at le) in
        elim (in_parts e (take-Mem n x e pending sorted (from_batch x mx) me bound)) [
          | inl there ↦ there
          | inr held ↦ elim held [ ]
        ]
  ]
  new_watermark-covers (d ∷ ds) from_batch in_parts e me above le =
      let low = lowest_id d ds in
      elim (Option-cases (last_id (where_ (λ f. ltb f.id low) fired))) [
        | inl empty ↦ absurd (let bound = rw empty at le in omega arith)
        | inr (c, last) ↦
            let (x, mx, same) = last_id-Mem c (where_ (λ f. ltb f.id low) fired) last in
            let (fired_x, before) = where_-Mem (λ f. ltb f.id low) x fired mx in
            let bound : e.id ≤ x.id = rw same (rw last at le) in
            elim (in_parts e (take-Mem n x e pending sorted (from_batch x fired_x) me bound)) [
              | inl there ↦ there
              | inr held ↦ absurd (ground (arith, lowest_id-Mem d e ds held))
            ]
      ]

  -- The watermark does not go back.
  pub new_watermark-forward :
      (deferred : List Event)
      → All (λ e. dispatched_up_to s < e.id) pending
      → ((x : Event) → Memᴰ x fired → Memᴰ x (take n pending))
      → last_id fired ≢ none
      → dispatched_up_to s ≤ new_watermark s fired deferred
  unfolding new_watermark
  new_watermark-forward [] above from_batch some_fired = elim (Option-cases (last_id fired)) [
    | inl empty ↦ absurd (some_fired empty)
    | inr (c, last) ↦
        let (x, mx, same) = last_id-Mem c fired last in
        let later =
          above-Mem (dispatched_up_to s) x pending above (Mem-take n x pending (from_batch x mx)) in
        rw last (omega arith)
  ]
  new_watermark-forward (d ∷ ds) above from_batch some_fired =
      let low = lowest_id d ds in
      elim (Option-cases (last_id (where_ (λ f. ltb f.id low) fired))) [
        | inl empty ↦ rw empty (omega arith)
        | inr (c, last) ↦
            let (x, mx, same) = last_id-Mem c (where_ (λ f. ltb f.id low) fired) last in
            let (fired_x, before) = where_-Mem (λ f. ltb f.id low) x fired mx in
            let later =
              above-Mem (dispatched_up_to s) x pending above
                (Mem-take n x pending (from_batch x fired_x)) in
            rw last (omega arith)
      ]

  -- The watermark stays below what is above every pending event.
  pub new_watermark-below :
      (deferred : List Event) (k : ℕ)
      → All (λ e. e.id < k) pending
      → dispatched_up_to s < k
      → ((x : Event) → Memᴰ x fired → Memᴰ x (take n pending))
      → new_watermark s fired deferred < k
  unfolding new_watermark
  new_watermark-below [] k below start from_batch = elim (Option-cases (last_id fired)) [
    | inl empty ↦ rw empty (omega arith)
    | inr (c, last) ↦
        let (x, mx, same) = last_id-Mem c fired last in
        let bound = below-Mem k x pending below (Mem-take n x pending (from_batch x mx)) in
        rw last (omega arith)
  ]
  new_watermark-below (d ∷ ds) k below start from_batch =
      let low = lowest_id d ds in
      elim (Option-cases (last_id (where_ (λ f. ltb f.id low) fired))) [
        | inl empty ↦ rw empty start
        | inr (c, last) ↦
            let (x, mx, same) = last_id-Mem c (where_ (λ f. ltb f.id low) fired) last in
            let (fired_x, before) = where_-Mem (λ f. ltb f.id low) x fired mx in
            let bound = below-Mem k x pending below (Mem-take n x pending (from_batch x fired_x)) in
            rw last (omega arith)
      ]
