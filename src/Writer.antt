-- ===== src/Writer.antt =====
-- The writers of pkg/fgo: the retry loop of a batch, and the append writer's scheduler.
pub mod Retry
pub mod Append
pub mod Upsert
