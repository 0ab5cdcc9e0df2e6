-- ===== src/Statechart.antt =====
-- core/statechart.py
pub mod Model
pub mod Action
pub mod Handlers
pub mod Dispatch
pub mod Persist
pub mod Transition
pub mod Tracked
