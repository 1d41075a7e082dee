-- ===== src/Scheduler.antt =====
-- backend/internal/scheduler: the periodic check of every due topic, and the delivery of updates.
pub mod Backoff
pub mod Spacing
pub mod Dispatch
pub mod Delivery
pub mod Replace
pub mod Classify
pub mod Check
pub mod History
