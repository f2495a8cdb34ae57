-- ===== src/Events/Pull.antt =====
-- pull_events of services/events_service.py, and the waits of routers/events.py.
pub mod Log
pub mod Pages
use cueapi_core.Prelude.{
  ℕ, zero, suc, Bool, true, false, ◌&&◌, String, Option, none, some, List, [], ◌∷◌, ◌==◌, nat_eq,
  string_eq, ltb, min, max, length, take, where_, order_by, if◌then◌else◌,
}
use cueapi_core.Events.{Event, Bus}

abbrev pub max_pull_limit : ℕ
max_pull_limit = 1000

abbrev pub effective_limit : ℕ → ℕ
effective_limit limit = min (max limit 1) max_pull_limit

abbrev pub is_type : Option String → Event → Bool
is_type none e = true
is_type (some t) e = e.event_type == t

-- WHERE recipient_agent_id = ... AND id > since [AND event_type = ...]
abbrev pub is_pulled : ℕ → Option String → ℕ → Event → Bool
is_pulled agent event_type since e =
    e.recipient_agent_id == agent && is_type event_type e && ltb since e.id

-- `events[-1].id if events else None`
unfoldable pub last_id : List Event → Option ℕ
last_id [] = none
last_id (e ∷ []) = some e.id
last_id (e ∷ f ∷ es) = last_id (f ∷ es)

pub record Page : Type 0 where
  pub events : List Event
  pub next_cursor : Option ℕ
  pub has_more : Bool

abbrev pub page_of : ℕ → List Event → Page
page_of n es = record { events = es; next_cursor = last_id es; has_more = length es == n }

unfoldable pub pull_events : ℕ → ℕ → ℕ → Option String → Bus → Page
pull_events agent since limit event_type bus = page_of (effective_limit limit) (
    take (effective_limit limit)
      (order_by (λ e. e.id) (where_ (is_pulled agent event_type since) bus.events)))

abbrev pub is_empty : List Event → Bool
is_empty [] = true
is_empty (e ∷ es) = false

-- _run_long_poll_wait: the tables as each poll of the window finds them, until the deadline ends the
-- list. The result is the last page, with the tables that it was read from.
unfoldable pub run_long_poll_wait : ℕ → ℕ → ℕ → Option String → List Bus → Page × Bus → Page × Bus
run_long_poll_wait agent since limit event_type [] found = found
run_long_poll_wait agent since limit event_type (bus ∷ later) found =
    let page = pull_events agent since limit event_type bus in
    let rest = run_long_poll_wait agent since limit event_type later (page, bus) in
    if is_empty page.events then rest else (page, bus)

abbrev pub empty_page : Page
empty_page = record { events = []; next_cursor = none; has_more = false }

-- The page of pull_events_endpoint, for `wait=long` or not.
unfoldable pub pull_or_wait : Bool → ℕ → ℕ → ℕ → Option String → Bus → List Bus → Page × Bus
pull_or_wait long agent since limit event_type bus later =
    let page = pull_events agent since limit event_type bus in
    if long && is_empty page.events
    then run_long_poll_wait agent since limit event_type later (empty_page, bus)
    else (page, bus)
