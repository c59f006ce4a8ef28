-- ===== src/RecordBatch.antt =====
-- pkg/fgo/record_batch.go: the batches that writers send and scanners read.
pub mod Kv
