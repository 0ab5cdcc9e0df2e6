-- ===== src/Loader.antt =====
-- core/loader.py
pub mod Overlay
pub mod Startup
pub mod Targets
