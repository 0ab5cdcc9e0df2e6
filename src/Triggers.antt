-- ===== src/Triggers.antt =====
-- core/trigger.py and core/trigger_impl.py: the registry of triggers, and the triggers.
pub mod Scheduler
pub mod Messages
pub mod Content
pub mod Polling
pub mod Cron
