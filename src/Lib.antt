-- ===== src/Lib.antt =====
-- The core of CueAPI, a server that runs scheduled cues and carries messages between agents: for each
-- time of a cue it makes an execution, delivers it to a webhook or lets a worker claim it, retries and
-- recovers it, and records its outcome; a message is pushed to a webhook, retried and recovered, or
-- polled, and then read and acked.
--
-- The parts, and the files that model them:
--   Prelude, Store    app/models: rows as records, tables as lists, SELECT, UPDATE and INSERT as
--                     functions on them; the columns are those that the modelled code reads or writes.
--   Redis             the Redis commands that the code sends, as an interface with documented laws; a
--                     command that raises answers none. Tests.Memory is an instance.
--   Usage             app/services/usage_service.py: increment_usage, get_monthly_usage,
--                     check_execution_limit.
--   Delivery          worker/tasks.py: deliver_webhook_task and retry_webhook_task with
--                     _claim_execution, _handle_success and _handle_failure.
--   Poller            worker/poller.py: Due is _process_cue_batch and poll_due_cues, Retries is
--                     poll_retries, Dispatch is dispatch_outbox and cleanup_outbox, Recovery is
--                     recover_stale_executions, recover_stale_worker_claims,
--                     fail_unclaimed_worker_executions and _run_on_failure_escalation; Finality is the
--                     loop of run_poller over these jobs, as a relation.
--   Executions        app/routers/executions.py, app/services/outcome_service.py and
--                     count_consecutive_failures of app/services/alert_service.py.
--   Messages          messages between agents. Classify is app/services/message_classification.py,
--                     RetryAfter is app/utils/retry_after.py, Attempt is
--                     app/services/message_delivery.py and _route_attempt_outcome of worker/tasks.py,
--                     Push is deliver_message_task and retry_message_task there, Recover is
--                     recover_stale_message_deliveries of worker/poller.py, Address is
--                     app/services/agent_service.py, Receipts is mark_read, mark_acked and
--                     get_message_for_user of app/services/message_service.py, Create is create_message
--                     there (its rows are in Draft), Quota is
--                     app/services/message_usage_service.py, Inbox is app/services/inbox_service.py,
--                     Cleanup is worker/message_cleanup.py. Lifecycle has the diagram of README.md, with
--                     the moves to read, acked and expired from every state that is not terminal, and
--                     all of these operations but create_message as steps.
--   Devices           app/services/device_code_service.py: the device flow, over the tables
--                     device_codes and users.
--   Events            the event bus: app/models/event.py and subscription.py. Emit, Pull, Subscribe and
--                     Acks are app/services/events_service.py, Routes and the ends of Pull and Acks are
--                     app/routers/events.py, Policy is worker/subscription_dispatcher_policy.py, Dispatch
--                     is worker/subscription_dispatcher.py. Runs has the histories of all of these.
--   Cues              app/services/cue_service.py with the bodies of app/schemas/cue.py, and fire_cue of
--                     app/routers/cues.py. Requests has the writing requests in any order.
--   Tests             runs at concrete inputs.
--
-- The parts meet in the database (Store.Db): the poller makes executions and outbox rows, the dispatcher
-- turns outbox rows into jobs, the jobs claim executions and settle them, workers claim and report over
-- HTTP, and recovery brings back what none of them has finished. create_message adds a message with its
-- outbox row, the dispatcher hands that to the message tasks, and the inbox, the receipts and the cleanup
-- work on the same rows. A cue that is fired by hand gets its execution and its outbox row at once. A handler is a function from the database to its answer and the database; a
-- transaction is one step, and what is called after a commit is a further argument or an effect that is
-- reported.
--
-- Correspondence. Names are those of the source; a helper has the name of what it computes. A
-- function named ..._row is its handler once the query has given its row. POST /executions/{id}/claim is
-- Executions.Worker.claim_specific. Identifiers are only compared, so they are numbers; a time is a
-- number of microseconds, and a subtraction of times stops at 0, which is before every row. JSON
-- documents that are carried along are their texts. NULL is none, and a comparison with it fails.
--
-- Bounds. The drain loop has the source's bound of 20 rounds. The other loops, but for one, go over the
-- rows of a SELECT, so no fuel is needed; the limits of 500, 100 and 50 rows are those of the source.
-- The loop of cleanup_expired_messages runs on fuel: one round for each message and one to see that
-- none is left, and each round but the last deletes a row. A conversation of a delivery and three
-- retries has the source's budget of four attempts. The pages of a pull run on fuel: one more poll than
-- there are events to read.
--
-- Not modelled: HTTP, email and the job queue (parameters or reported effects); croniter and pytz
-- (a parameter gives the next time of a cron expression); uuid4 (a parameter); logging; failures of
-- the database other than the ones named; hashes, ciphers and the authorization backend of messages
-- (parameters); emissions of events that overlap; the event that create_message emits beside a message, and the digests; authentication,
-- and the management of agents.
pub mod Prelude
pub mod Store
pub mod Redis
pub mod Usage
pub mod Delivery
pub mod Poller
pub mod Executions
pub mod Messages
pub mod Devices
pub mod Events
pub mod Cues
pub mod Tests
