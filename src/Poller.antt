-- ===== src/Poller.antt =====
-- worker/poller.py: the loop that fires due cues, hands retries and outbox rows on, and recovers
-- what is stuck. `now` is the time of a call. A batch runs in one transaction with its rows locked,
-- so it is one step here.
pub mod Due
pub mod Retries
pub mod Dispatch
pub mod Recovery
pub mod Finality
