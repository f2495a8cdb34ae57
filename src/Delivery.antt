-- ===== src/Delivery.antt =====
-- worker/tasks.py: the arq tasks that deliver the webhook of a cue's execution. `now` is the time
-- of the call; the two clocks that a statement may read (the worker's and Postgres') agree.
pub mod Claim
pub mod Outcome
pub mod Task
pub mod Race
pub mod Attempt
pub mod Settled
pub mod Settle
