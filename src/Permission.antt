-- ===== src/Permission.antt =====
-- core/permission.py
pub mod Glob
pub mod Enforcer
pub mod Checks
pub mod Timers
