-- ===== src/History.antt =====
-- core/history_client.py: the cache and its clients, and the listing of peers page by page.
pub mod Cache
pub mod Client
pub mod Peers
pub mod Proxy
