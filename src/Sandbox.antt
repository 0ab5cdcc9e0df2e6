-- ===== src/Sandbox.antt =====
-- core/sandbox.py
pub mod Path
pub mod Check
pub mod Surface
