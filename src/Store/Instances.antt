-- ===== src/Store/Instances.antt =====
-- Primary keys, and the arithmetic of timedelta.
use cueapi_core.Prelude.{ℕ, ◌*◌, Keyed}
use cueapi_core.Store.Rows.{Execution, Cue, Outbox, Message, Agent, User}

instance abbrev pub execution_keyed : Keyed Execution
execution_keyed = record { key = λ r. r.id }

instance abbrev pub cue_keyed : Keyed Cue
cue_keyed = record { key = λ r. r.id }

instance abbrev pub outbox_keyed : Keyed Outbox
outbox_keyed = record { key = λ r. r.id }

instance abbrev pub message_keyed : Keyed Message
message_keyed = record { key = λ r. r.id }

instance abbrev pub agent_keyed : Keyed Agent
agent_keyed = record { key = λ r. r.id }

instance abbrev pub user_keyed : Keyed User
user_keyed = record { key = λ r. r.id }

-- timedelta(seconds=n), timedelta(minutes=n) and timedelta(days=n), in microseconds.
abbrev pub seconds : ℕ → ℕ
seconds n = n * 1000000

abbrev pub minutes : ℕ → ℕ
minutes n = n * 60000000

abbrev pub days : ℕ → ℕ
days n = n * 86400000000
