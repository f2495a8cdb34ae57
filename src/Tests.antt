-- ===== src/Tests.antt =====
-- Runs of the model on small inputs, and the theorems at concrete inputs.
mod Memory
mod Samples
mod Delivery
mod Poller
mod Recovery
mod Executions
mod Finality
mod Messages
mod Mailbox
mod Lifecycle
mod Sending
mod Window
mod Devices
mod Events
mod Cues
