-- ===== src/Messages/Address.antt =====
-- get_agent_owned, resolve_address and touch_last_seen of services/agent_service.py.
use cueapi_core.Prelude.{
  ℕ, Bool, false, ◌&&◌, ◌||◌, String, Option, none, some, List, ◌==◌, nat_eq, string_eq, is_null,
  find, first_where, passing, update_row,
}
use cueapi_core.Store.{Agent, User, Db, agent_keyed, user_keyed}
use cueapi_core.Executions.Answer.{Answer, refused, answered}

-- An address as it is read: agt_<12 characters>, agent_slug@user_slug with two parts that are not
-- empty, or anything else.
pub data Addr : Type 0 where
  opaque_id : ℕ → Addr
  slug_form : String → String → Addr
  malformed : Addr

abbrev pub has_slug : String → Option User → Bool
has_slug slug none = false
has_slug slug (some u) = u.slug == slug

-- JOIN users ON agents.user_id = users.id WHERE users.slug = ... AND agents.slug = ...
abbrev pub is_called : String → String → List User → Agent → Bool
is_called agent_slug user_slug users a =
    has_slug user_slug (find a.user_id users) && a.slug == agent_slug

abbrev pub agent_not_found {ℓ} : {A : Type ℓ} → Answer A
agent_not_found = refused 404 "agent_not_found"

abbrev pub found_agent : Option Agent → Answer Agent
found_agent none = agent_not_found
found_agent (some a) = answered a

abbrev pub is_live : Agent → Bool
is_live a = is_null a.deleted_at

unfoldable pub resolve_address : Addr → Db → Answer Agent
resolve_address (opaque_id i) db = found_agent (passing is_live (find i db.agents))
resolve_address (slug_form agent_slug user_slug) db =
    found_agent
      (first_where (λ a. is_called agent_slug user_slug db.users a && is_live a) db.agents)
resolve_address malformed db = refused 400 "invalid_agent_address"

abbrev pub is_shown : ℕ → Bool → Agent → Bool
is_shown user include_deleted a = a.user_id == user && (include_deleted || is_live a)

unfoldable pub get_agent_owned : ℕ → Addr → Bool → Db → Answer Agent
get_agent_owned user (opaque_id i) include_deleted db =
    found_agent (passing (is_shown user include_deleted) (find i db.agents))
get_agent_owned user (slug_form agent_slug user_slug) include_deleted db = found_agent (
    first_where (λ a. is_called agent_slug user_slug db.users a && is_shown user include_deleted a)
      db.agents)
get_agent_owned user malformed include_deleted db = refused 400 "invalid_agent_address"

abbrev pub agent_seen : ℕ → Agent → Agent
agent_seen now a = record a { last_seen_at = some now }

-- touch_last_seen, and _bump_last_seen_stmt of services/inbox_service.py.
abbrev pub touch_last_seen : ℕ → ℕ → Db → Db
touch_last_seen now i db = record db { agents = update_row i (agent_seen now) db.agents }
