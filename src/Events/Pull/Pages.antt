-- ===== src/Events/Pull/Pages.antt =====
-- Reading the events page by page.
use cueapi_core.Prelude.{
  ℕ, zero, suc, ◌<◌, ◌≤◌, ◌≡◌, refl, ap, sym, subst, ◌∙◌, Bool, true, false, ◌&&◌, String, Option,
  none, some, List, [], ◌∷◌, ◌++◌, ◌==◌, nat_eq, ltb, All, length, take, where_, where_-All,
  if◌then◌else◌, or_else, Bool-cases, inl, inr, arith,
}
use cueapi_core.Events.{Event, Bus}
use cueapi_core.Events.Pull.{Page, page_of, pull_events, last_id, effective_limit, is_pulled}
use cueapi_core.Events.Pull.Log.{IsLog, IsAscending, where_-IsAscending, order_by-ascending}

-- The caller that the documentation of pull_events describes: while has_more, it polls again from next_cursor.
-- Fuel bounds the polls.
next_page : (ℕ → List Event) → ℕ → Page → List Event
next_page again since page =
    if page.has_more then page.events ++ again (or_else page.next_cursor since) else page.events

unfoldable pub pull_all : ℕ → ℕ → ℕ → Option String → Bus → ℕ → List Event
unfolding next_page
pull_all zero agent limit event_type bus since = []
pull_all (suc fuel) agent limit event_type bus since =
    next_page (pull_all fuel agent limit event_type bus) since
      (pull_events agent since limit event_type bus)

where_-where_ :
    (p q r : Event → Bool) (es : List Event)
    → ((e : Event) → (q e && p e) ≡ r e)
    → where_ p (where_ q es) ≡ where_ r es
unfolding where_
where_-where_ p q r [] same = refl
where_-where_ p q r (e ∷ es) same = ground (arith, same e, where_-where_ p q r es same)

where_-every : (c : ℕ) (es : List Event) → All (λ e. c < e.id) es → where_ (λ e. ltb c e.id) es ≡ es
unfolding where_
where_-every c [] h = refl
where_-every c (e ∷ es) h = ground (arith, where_-every c es h.1)

abbrev after : ℕ → List Event → List Event
after zero es = es
after (suc n) [] = []
after (suc n) (e ∷ es) = after n es

take-after : (n : ℕ) (es : List Event) → take n es ++ after n es ≡ es
take-after zero es = refl
take-after (suc n) [] = refl
take-after (suc n) (e ∷ es) = ap (λ t. e ∷ t) (take-after n es)

last_id-above :
    (k n c : ℕ) (es : List Event) → All (λ e. k < e.id) es → last_id (take n es) ≡ some c → k < c
unfolding last_id
last_id-above k zero c es h last = cc
last_id-above k (suc n) c [] h last = cc
last_id-above k (suc zero) c (e ∷ es) h last = ground arith
last_id-above k (suc (suc n)) c (e ∷ []) h last = ground arith
last_id-above k (suc (suc n)) c (e ∷ f ∷ es) h last = last_id-above k (suc n) c (f ∷ es) h.1 last

where_-drop_first :
    (c : ℕ) (e : Event) (es : List Event)
    → e.id ≤ c
    → where_ (λ f. ltb c f.id) (e ∷ es) ≡ where_ (λ f. ltb c f.id) es
unfolding where_
where_-drop_first c e es h = ground arith

length-after : (n : ℕ) (es : List Event) → length (after n es) ≤ length es
length-after zero es = omega arith
length-after (suc n) [] = omega arith
length-after (suc n) (e ∷ es) = omega (arith, length-after n es)

-- The rows after a full page are those above its last id.
after_page :
    (n c : ℕ) (es : List Event)
    → IsAscending es
    → last_id (take n es) ≡ some c
    → where_ (λ e. ltb c e.id) es ≡ after n es
unfolding last_id where_
after_page zero c es h last = cc
after_page (suc n) c [] h last = refl
after_page (suc zero) c (e ∷ es) h last =
    let same : e.id ≡ c = ground arith in
    let above : All (λ f. c < f.id) es = subst (λ (k : ℕ). All (λ f. k < f.id) es) same h.0 in
    rw (where_-drop_first c e es (omega arith)) (where_-every c es above)
after_page (suc (suc n)) c (e ∷ []) h last = ground arith
after_page (suc (suc n)) c (e ∷ f ∷ es) h last =
    let above = last_id-above e.id (suc n) c (f ∷ es) h.0 last in
    ground (arith, above, after_page (suc n) c (f ∷ es) h.1 last)

last_id-full :
    (n : ℕ) (es : List Event)
    → 0 < n
    → (length (take n es) == n) ≡ true
    → (c : ℕ) × (last_id (take n es) ≡ some c)
unfolding last_id
last_id-full zero es h full = absurd (omega arith)
last_id-full (suc n) [] h full = absurd (ground arith)
last_id-full (suc zero) (e ∷ es) h full = (e.id, refl)
last_id-full (suc (suc n)) (e ∷ []) h full = (e.id, refl)
last_id-full (suc (suc n)) (e ∷ f ∷ es) h full =
    last_id-full (suc n) (f ∷ es) (omega arith) (ground arith)

take-short : (n : ℕ) (es : List Event) → (length (take n es) == n) ≡ false → take n es ≡ es
take-short zero es h = absurd (ground arith)
take-short (suc n) [] h = refl
take-short (suc n) (e ∷ es) h = ap (λ t. e ∷ t) (take-short n es (ground arith))

after-shorter :
    (n c : ℕ) (es : List Event) → last_id (take n es) ≡ some c → length (after n es) < length es
unfolding last_id
after-shorter zero c es last = cc
after-shorter (suc n) c [] last = cc
after-shorter (suc n) c (e ∷ es) last = omega (arith, length-after n es)

next_page-rest :
    (again : ℕ → List Event) (since n : ℕ) (es : List Event)
    → 0 < n
    → ((c : ℕ) → last_id (take n es) ≡ some c → again c ≡ after n es)
    → next_page again since (page_of n (take n es)) ≡ es
unfolding next_page
next_page-rest again since n es pos rest = elim (Bool-cases (length (take n es) == n)) [
  | inl full ↦
      let (c, last) = last_id-full n es pos full in
      rw full (rw last (rw (rest c last) (take-after n es)))
  | inr short ↦ rw short (take-short n es short)
]

-- The events of an agent above an id.
abbrev pub events_after : ℕ → Option String → Bus → ℕ → List Event
events_after agent event_type bus since = where_ (is_pulled agent event_type since) bus.events

pub pull_events-first :
    (agent since limit : ℕ) (event_type : Option String) (bus : Bus)
    → IsLog bus
    → pull_events agent since limit event_type bus
      ≡ page_of
          (effective_limit limit)
          (take (effective_limit limit) (events_after agent event_type bus since))
unfolding pull_events
pull_events-first agent since limit event_type bus h =
    ap (λ es. page_of (effective_limit limit) (take (effective_limit limit) es))
      (order_by-ascending (events_after agent event_type bus since)
        (where_-IsAscending (is_pulled agent event_type since) bus.events h.0))

is_pulled-later :
    (agent : ℕ) (event_type : Option String) (since c : ℕ)
    → since ≤ c
    → (e : Event)
    → (is_pulled agent event_type since e && ltb c e.id) ≡ is_pulled agent event_type c e
is_pulled-later agent none since c le e = ground arith
is_pulled-later agent (some t) since c le e = ground arith

is_pulled-above :
    (agent : ℕ) (event_type : Option String) (since : ℕ) (e : Event)
    → is_pulled agent event_type since e ≡ true
    → since < e.id
is_pulled-above agent none since e h = ground arith
is_pulled-above agent (some t) since e h = ground arith

events_after-above :
    (agent : ℕ) (event_type : Option String) (bus : Bus) (since : ℕ)
    → All (λ e. since < e.id) (events_after agent event_type bus since)
events_after-above agent event_type bus since =
    where_-All (λ e. since < e.id) (is_pulled agent event_type since) bus.events
      (λ e m h. is_pulled-above agent event_type since e h)

events_after-later :
    (agent : ℕ) (event_type : Option String) (bus : Bus) (since c : ℕ)
    → since ≤ c
    → where_ (λ e. ltb c e.id) (events_after agent event_type bus since)
      ≡ events_after agent event_type bus c
events_after-later agent event_type bus since c le =
    where_-where_ (λ e. ltb c e.id) (is_pulled agent event_type since)
      (is_pulled agent event_type c) bus.events (λ e. is_pulled-later agent event_type since c le e)

-- Whatever the limit, polling from an id on, page by page, gives each event of the agent above it, of the
-- type if one is asked for, once and in the order of the ids, and ends. The events are a log, as
-- emissions and the cleanup leave them, and nothing is emitted or cleaned up in between.
pub pull_all_complete :
    (fuel agent limit : ℕ) (event_type : Option String) (bus : Bus) (since : ℕ)
    → IsLog bus
    → length (events_after agent event_type bus since) < fuel
    → pull_all fuel agent limit event_type bus since ≡ events_after agent event_type bus since
unfolding pull_all
pull_all_complete zero agent limit event_type bus since h enough = absurd (omega arith)
pull_all_complete (suc fuel) agent limit event_type bus since h enough =
    let es = events_after agent event_type bus since in
    let n = effective_limit limit in
    let sorted = where_-IsAscending (is_pulled agent event_type since) bus.events h.0 in
    rw (pull_events-first agent since limit event_type bus h) (
      next_page-rest (pull_all fuel agent limit event_type bus) since n es (ground arith) (λ c last.
        let above =
          last_id-above since n c es (events_after-above agent event_type bus since) last in
        let rest =
          sym (events_after-later agent event_type bus since c (omega arith))
          ∙ after_page n c es sorted last in
        pull_all_complete fuel agent limit event_type bus c h
          (rw rest (omega (arith, after-shorter n c es last)))
        ∙ rest))
