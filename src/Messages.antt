-- ===== src/Messages.antt =====
-- The messaging service: app/services/message_*.py and inbox_service.py, the message tasks of
-- worker/tasks.py, recover_stale_message_deliveries of worker/poller.py, worker/message_cleanup.py.
-- What follows every step of a message is its delivery_state.
pub mod Classify
pub mod RetryAfter
pub mod Attempt
pub mod Push
pub mod Recover
pub mod Address
pub mod Receipts
pub mod Inbox
pub mod Cleanup
pub mod Lifecycle
pub mod Quota
pub mod Draft
pub mod Create
