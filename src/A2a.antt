-- ===== src/A2a.antt =====
-- core/a2a_client.py: the retry policy, the cache of peer cards, the client, the listener and the
-- dispatcher of fallbacks.
pub mod Retry
pub mod Cards
pub mod Aliases
pub mod Client
pub mod Responses
pub mod Listener
pub mod Start
pub mod Fallback
