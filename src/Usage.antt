-- ===== src/Usage.antt =====
-- app/services/usage_service.py: the monthly execution counter, cached in Redis and kept in
-- usage_monthly, and the limit with its grace period. `month` is the number of the current month,
-- which the source reads off the clock.
pub mod Grace
pub mod Counter
