-- ===== src/Tests.antt =====
-- The theorems at concrete inputs, and what they are given.
mod Sample
mod Json
mod Expressions
mod Charts
mod Sandboxes
mod Permissions
mod Schedulers
mod Overlays
mod Startup
mod Targets
mod Messages
mod Histories
mod Deeds
