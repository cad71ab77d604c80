-- ===== src/Cache.antt =====
-- The message caches: core/cache/message_cache.go and core/cache/work_message_cache.go.
pub mod Prework
pub mod Works
