-- ===== src/Store/Statements.antt =====
-- The statements on one row that several handlers send, and Python's reading of optional values.
use text.Mathlib.Text.{◌==◌ as str_eq}
use cueapi_core.Prelude.{
  ℕ, zero, suc, ◌+◌, Bool, false, not, String, Option, none, some, List, [], ◌∷◌, ◌++◌, nat_eq,
  update_row,
}
use cueapi_core.Store.Rows.{Execution, Cue, Message, TaskPayload, Db}
use cueapi_core.Store.Enums.{TaskType}
use cueapi_core.Store.Instances.{execution_keyed, cue_keyed, message_keyed}

abbrev pub update_execution : ℕ → (Execution → Execution) → Db → Db
update_execution i f db = record db { executions = update_row i f db.executions }

abbrev pub update_cue : ℕ → (Cue → Cue) → Db → Db
update_cue i f db = record db { cues = update_row i f db.cues }

abbrev pub update_message : ℕ → (Message → Message) → Db → Db
update_message i f db = record db { messages = update_row i f db.messages }

-- INSERT INTO dispatch_outbox: the defaults are `dispatched = false` and no attempts, the id comes
-- from the sequence and created_at from the clock.
abbrev pub insert_outbox : ℕ → Option ℕ → Option ℕ → TaskType → TaskPayload → Option ℕ → Db → Db
insert_outbox now execution_id cue_id task_type payload scheduled_at db = record db {
  outbox =
      db.outbox
      ++ record {
        id = db.next_outbox_id;
        execution_id = execution_id;
        cue_id = cue_id;
        task_type = task_type;
        payload = payload;
        dispatched = false;
        dispatch_attempts = 0;
        last_dispatch_error = none;
        scheduled_at = scheduled_at;
        created_at = now;
      }
        ∷ [];
  next_outbox_id = db.next_outbox_id + 1;
}

-- Whether a text is true in Python: it is there and not empty.
abbrev pub truthy : Option String → Bool
truthy none = false
truthy (some t) = not (str_eq t "")

-- `document or {}`
abbrev pub or_empty : Option String → String
or_empty none = "{}"
or_empty (some t) = t

-- `xs[i]` at an index that is in range.
abbrev pub nth : List ℕ → ℕ → ℕ → ℕ
nth [] i d = d
nth (x ∷ xs) zero d = x
nth (x ∷ xs) (suc i) d = nth xs i d
