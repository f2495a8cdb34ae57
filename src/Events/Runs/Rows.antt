-- ===== src/Events/Runs/Rows.antt =====
-- The constraints of the table of subscriptions, where rows change or come.
use cueapi_core.Prelude.{
  ℕ, ◌≡◌, refl, ap, ◌∙◌, ◌⊎◌, Bool, All, true, false, not, ◌&&◌, String, Option, none, some, List,
  [], ◌∷◌, ◌++◌, ◌==◌, nat_eq, string_eq, is_null, is_some, if◌then◌else◌, or_else, first_where,
  update_where, append-All, either_case, either_way, Bool-cases, inl, inr, arith,
}
use cueapi_core.Store.{truthy}
use cueapi_core.Executions.Answer.{Answer}
use cueapi_core.Events.{Subscription, Bus, subscription_keyed, is_active_of}
use cueapi_core.Events.Subscribe.{
  SubscriptionCreate, create_subscription, insert_subscription, new_subscription,
  is_known_event_type, is_target_combo, is_same_subscription,
}
use cueapi_core.Events.Dispatch.Advance.{SameTerms}

-- A pull subscription has neither URL nor secret, and a webhook subscription has both.
abbrev pub IsShaped : Subscription → Type 0
IsShaped s =
    ((s.delivery_target ≡ "pull") × (s.webhook_url ≡ none) × (s.webhook_secret ≡ none))
    ⊎ ((s.delivery_target ≡ "webhook")
        × (truthy s.webhook_url ≡ true)
        × (is_some s.webhook_secret ≡ true))

-- Two active rows with the same owner, subject and target.
abbrev pub clashes : Subscription → Subscription → Bool
clashes s t =
    (is_active_of t.subscriber_agent_id s && is_null t.detached_at)
    && s.event_type == t.event_type
    && s.delivery_target == t.delivery_target

abbrev pub IsDistinct : List Subscription → Type 0
IsDistinct [] = Unit
IsDistinct (s ∷ t) = All (λ x. clashes s x ≡ false) t × IsDistinct t

abbrev pub MeetsConstraints : List Subscription → Type 0
MeetsConstraints t = All IsShaped t × IsDistinct t

IsShaped-terms : (s' s : Subscription) → SameTerms s' s → IsShaped s → IsShaped s'
IsShaped-terms s' s (a, ty, target, url, secret, d) (inl (p, u, k)) =
    inl (target ∙ p, url ∙ u, secret ∙ k)
IsShaped-terms s' s (a, ty, target, url, secret, d) (inr (w, u, k)) =
    inr (target ∙ w, ap (λ o. truthy o) url ∙ u, ap (λ o. is_some o) secret ∙ k)

clashes-terms :
    (s' s t' t : Subscription)
    → SameTerms s' s
    → SameTerms t' t
    → clashes s t ≡ false
    → clashes s' t' ≡ false
clashes-terms s' s t' t (a, ty, target, u, k, d) (a₂, ty₂, target₂, u₂, k₂, d₂) h =
    rw (a, ty, target, a₂, ty₂, target₂) (ground arith)

pub same_terms : (s : Subscription) → SameTerms s s
same_terms s = (refl, refl, refl, refl, refl, λ h. h)

module _ (p : Subscription → Bool) (f : Subscription → Subscription)
    (terms : (s : Subscription) → SameTerms (f s) s) where
  changed : (s : Subscription) → SameTerms (if p s then f s else s) s
  changed s = either_way (λ x. SameTerms x s) (p s) (f s) s (terms s) (same_terms s)

  update_where-IsShaped :
      (t : List Subscription) → All IsShaped t → All IsShaped (update_where p f t)
  unfolding update_where
  update_where-IsShaped [] h = tt
  update_where-IsShaped (s ∷ t) h =
      (IsShaped-terms (if p s then f s else s) s (changed s) h.0, update_where-IsShaped t h.1)

  update_where-clashes :
      (s' s : Subscription) (t : List Subscription)
      → SameTerms s' s
      → All (λ x. clashes s x ≡ false) t
      → All (λ x. clashes s' x ≡ false) (update_where p f t)
  unfolding update_where
  update_where-clashes s' s [] same h = tt
  update_where-clashes s' s (x ∷ t) same h = (
    clashes-terms s' s (if p x then f x else x) x same (changed x) h.0,
    update_where-clashes s' s t same h.1,
  )

  update_where-IsDistinct : (t : List Subscription) → IsDistinct t → IsDistinct (update_where p f t)
  unfolding update_where
  update_where-IsDistinct [] h = tt
  update_where-IsDistinct (s ∷ t) h = (
    update_where-clashes (if p s then f s else s) s t (changed s) h.0,
    update_where-IsDistinct t h.1,
  )

  pub update_where-MeetsConstraints :
      (t : List Subscription) → MeetsConstraints t → MeetsConstraints (update_where p f t)
  update_where-MeetsConstraints t h = (update_where-IsShaped t h.0, update_where-IsDistinct t h.1)

is_null-none : (o : Option String) → is_null o ≡ true → o ≡ none
is_null-none none h = refl
is_null-none (some t) h = cc

not-false : (b : Bool) → not b ≡ false → b ≡ true
not-false true h = refl
not-false false h = cc

is_target_combo-cases :
    (target : String) (url : Option String)
    → is_target_combo target url ≡ true
    → ((target ≡ "pull") × (url ≡ none)) ⊎ ((target ≡ "webhook") × (truthy url ≡ true))
is_target_combo-cases target url h = elim (Bool-cases (target == "pull")) [
  | inl pull ↦ inl ((string_eq.same_iff target "pull").0 pull, is_null-none url (rw pull at h))
  | inr other ↦
      let h' = rw other at h in
      elim (Bool-cases (target == "webhook")) [
        | inl hook ↦ inr ((string_eq.same_iff target "webhook").0 hook, rw hook at h')
        | inr neither ↦ absurd (let broken : false ≡ true = rw neither at h' in cc)
      ]
]

abbrev Combo : SubscriptionCreate → Type 0
Combo body =
    ((body.delivery_target ≡ "pull") × (body.webhook_url ≡ none))
    ⊎ ((body.delivery_target ≡ "webhook") × (truthy body.webhook_url ≡ true))

pull-IsShaped :
    (now agent : ℕ) (body : SubscriptionCreate) (bus : Bus)
    → Combo body
    → not (body.delivery_target == "webhook") ≡ true
    → IsShaped (new_subscription now agent body none bus)
pull-IsShaped now agent body bus (inl (pull, url)) other = inl (pull, url, refl)
pull-IsShaped now agent body bus (inr (hook, url)) other =
    absurd (let broken : false ≡ true = rw hook at other in cc)

hook-IsShaped :
    (now agent : ℕ) (body : SubscriptionCreate) (secret : String) (bus : Bus)
    → Combo body
    → not (body.delivery_target == "webhook") ≡ false
    → IsShaped (new_subscription now agent body (some secret) bus)
hook-IsShaped now agent body secret bus (inl (pull, url)) same =
    absurd (let broken : true ≡ false = rw pull at same in cc)
hook-IsShaped now agent body secret bus (inr (hook, url)) same = inr (hook, url, refl)

-- A subject that no active row of the owner has clashes with no row.
no_clash :
    (agent : ℕ) (body : SubscriptionCreate) (new : Subscription) (t : List Subscription)
    → new.subscriber_agent_id ≡ agent
    → new.event_type ≡ body.event_type
    → new.delivery_target ≡ body.delivery_target
    → is_some (first_where (is_same_subscription agent body) t) ≡ false
    → All (λ s. clashes s new ≡ false) t
unfolding first_where
no_clash agent body new [] a ty target h = tt
no_clash agent body new (s ∷ t) a ty target h =
    elim (Bool-cases (is_same_subscription agent body s)) [
      | inl hit ↦ absurd (let broken : true ≡ false = rw hit at h in cc)
      | inr miss ↦
          (rw (a, ty, target) (ground arith), no_clash agent body new t a ty target (rw miss at h))
    ]

append-IsDistinct :
    (t : List Subscription) (new : Subscription)
    → IsDistinct t
    → All (λ s. clashes s new ≡ false) t
    → IsDistinct (t ++ new ∷ [])
append-IsDistinct [] new h free = (tt, tt)
append-IsDistinct (s ∷ t) new h free = (
  append-All (λ x. clashes s x ≡ false) t (new ∷ []) h.0 (free.0, tt),
  append-IsDistinct t new h.1 free.1,
)

insert_subscription-MeetsConstraints :
    (now agent : ℕ) (body : SubscriptionCreate) (secret : Option String) (bus : Bus)
    → MeetsConstraints bus.subscriptions
    → IsShaped (new_subscription now agent body secret bus)
    → MeetsConstraints (insert_subscription now agent body secret bus).1.subscriptions
insert_subscription-MeetsConstraints now agent body secret bus h shaped =
    let new = new_subscription now agent body secret bus in
    either_case (λ (r : Answer Subscription × Bus). MeetsConstraints r.1.subscriptions)
      (is_some (first_where (is_same_subscription agent body) bus.subscriptions)) _ _ (λ taken. h)
      (λ fresh. (
        append-All IsShaped bus.subscriptions (new ∷ []) h.0 (shaped, tt),
        append-IsDistinct bus.subscriptions new h.1
            (no_clash agent body new bus.subscriptions refl refl refl fresh),
      ))

pub create_subscription-MeetsConstraints :
    (is_safe : String → Bool) (secret : String) (now agent : ℕ) (body : SubscriptionCreate)
    (bus : Bus)
    → MeetsConstraints bus.subscriptions
    → MeetsConstraints (create_subscription is_safe secret now agent body bus).1.subscriptions
unfolding create_subscription
create_subscription-MeetsConstraints is_safe secret now agent body bus h =
    let Meets = λ (r : Answer Subscription × Bus). MeetsConstraints r.1.subscriptions in
    either_way Meets (not (is_known_event_type body.event_type)) _ _ h (
      either_case Meets (not (is_target_combo body.delivery_target body.webhook_url)) _ _ (λ bad. h)
        (λ combo.
          let shape =
            is_target_combo-cases body.delivery_target body.webhook_url (not-false _ combo) in
          either_case Meets (not (body.delivery_target == "webhook")) _ _
            (λ pull.
              insert_subscription-MeetsConstraints now agent body none bus h
                (pull-IsShaped now agent body bus shape pull))
            (λ hook.
              either_way Meets (is_safe (or_else body.webhook_url "")) _ _
                (insert_subscription-MeetsConstraints now agent body (some secret) bus h
                  (hook-IsShaped now agent body secret bus shape hook))
                h)))
