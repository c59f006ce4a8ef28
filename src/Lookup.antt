-- ===== src/Lookup.antt =====
-- The lookups of pkg/fgo/lookup_scheduler.go: the batches of a group, and the retries of a request.
pub mod Retry
pub mod Reroute
pub mod Batches
