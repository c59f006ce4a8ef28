-- ===== src/Lib.antt =====
-- Verification of the Fluss client for Go: the parts of pkg/fgo that decide what is written, read,
-- retried and shared.
--
-- An AppendWriter puts rows into a bucket (bucket.go), collects them in batches and sends at most
-- one request for a bucket and MaxConcurrentRequests in all (log_writer.go); an UpsertWriter does the same
-- for keyed rows, with sequence numbers and throttled buckets (kv_writer.go). Each request is a loop
-- of attempts (writer_retry.go) over record batches in a binary format (record_batch.go,
-- row_codec.go). Lookups of metadata, of schemas and of missing partitions (partition.go) are shared
-- between callers by a coalescer (coalescer.go). A bounded scan cuts what was fetched at a row limit
-- and a stopping offset (log_scanner_bounds.go), and a LogScanner keeps the offsets of its buckets
-- between polls (log_scanner.go). Rows follow a schema (model.go, logical_type.go), which a cache keeps
-- by its id and which may differ from the reader's (schema_resolver.go). A lookup is sent with others of its bucket
-- (lookup_scheduler.go). A scan may carry a predicate for the server (predicate.go), and what is sent again depends on the server's error code (errors.go).
--
-- Prelude: lists, tests, bits, integers and sorting over the native numbers, and Go's errors.
-- Codec.Varint, Codec.Bytes: pkg/fgo/row_codec.go, appendVar64, readVar, appendLengthBytes,
--   readLengthBytes, readFixed, appendLittle. Codec.Crc: crc32.Checksum with the Castagnoli table.
-- RecordBatch.Kv: pkg/fgo/record_batch.go, KVBatch.Encode, DecodeKVBatch, decodeKVRecord.
-- Bucket: pkg/fgo/bucket.go, flussBucket and its hash, sortedBuckets.
-- Writer.Retry: pkg/fgo/writer_retry.go, executeWriterAttempts and its policy, and
--   shouldReplaceConnection of pkg/fgo/client.go.
-- Writer.Append: pkg/fgo/log_writer.go, appendWriterLoop. Slot has what concerns one bucket, Actions
--   the state of the loop with flushBucket, dispatch and handleCompletion, Append itself add,
--   assignBucket, queueAll and flushAll, and Run the loop over whatever comes.
-- Writer.Upsert: pkg/fgo/kv_writer.go, upsertWriterLoop. Slot has what concerns one bucket, Upsert itself
--   the loop with add, flushBucket, dispatch, handleCompletion and flushAll, and Partial the checks of
--   tables and of partial updates.
-- Predicate: pkg/fgo/predicate.go, And, Or and compilePredicate; Predicate.Literals the literals, with
--   decimalUnscaled and timestampParts of pkg/fgo/row_value_codec.go.
-- Transport: internal/transport/connection.go. Transport.Write is writeRequest with writeFrame,
--   Transport.Frames readFrame, handleFrame and readLoop, and Transport.Pending the table of pending
--   requests: register, unregister, deliver, fail and the channel of a request.
-- Coalescer: pkg/fgo/coalescer.go. Its functions are the critical sections of Do, run, release and
--   Close; Coalescer.Steps has the executions, which are all sequences of them.
-- Scan.Bounds: pkg/fgo/log_scanner_bounds.go, applyBounds. Scan.Scanner: pkg/fgo/log_scanner.go, the
--   state of a LogScanner with Subscribe, Unsubscribe, Wakeup, Close and advanceOffset, and in
--   Scan.Scanner.Poll its Poll, with beginPoll, pollBucket and recordFetchError.
-- Schema: pkg/fgo/logical_type.go and pkg/fgo/model.go. Schema.Types and Schema.Values are types and
--   values with their validation, Schema.Model columns, schemas, Validate and ValidateRow, Schema.Ids
--   the field ids of Schema.JSON with what it leaves in the caller's schema. Schema.Evolve and
--   Schema.Cache: pkg/fgo/schema_resolver.go, evolveRow with schemaColumnMapping, and schemaCache.
-- Partition: pkg/fgo/partition.go, PartitionName and PartitionSpecFromName; Partition.Create the
--   creation of a missing partition, dynamicPartitionCreator.ensure.
-- Lookup: pkg/fgo/lookup_scheduler.go. Lookup.Retry is retryLookup, Lookup.Reroute the request that it
--   makes, with RequestBucket of pkg/fgo/client.go, and Lookup.Batches dispatchGroup, runLookupWorker
--   and the completion of a batch.
-- Codes: pkg/fgo/errors.go, errorCategory, retriableErrorCode and responseServerError.
-- Examples: the code and the theorems on concrete inputs.
--
-- Numbers are natural numbers, with the wrap-around of uint32 and uint64 written out; an offset, a
-- size or a count is not negative in the code either. The loops on fuel are dispatch, which has
-- MaxConcurrentRequests rounds since each one but the last takes a place in flight, the drain of
-- flushAll, which needs a round for each batch, evictLocked, which takes an entry in each round, writeFrame, which takes
-- a byte in each round that goes on, readLoop, which takes the size of a frame in each round,
-- dispatchGroup, which takes a task in each round, and the attempts of a request and the ids that
-- register tries, which the code counts. Time, goroutines, channels and contexts appear
-- as the choices of a world: what a request returns, whether a context is done, which completion
-- comes next.
--
-- Not modelled: the network and file I/O, the Arrow library, generated messages, metrics, the text of
-- error messages, and the parts of pkg/fgo that are not named above. Logical types are values: a schema
-- in which two columns, or two types within one, share a nested type is outside the model, and so is the
-- difference that reflect.DeepEqual makes between nil and empty Fields. The retries of a lookup read the
-- response by a parameter.
pub mod Prelude
pub mod Codec
pub mod Codes
pub mod RecordBatch
pub mod Bucket
pub mod Writer
pub mod Scan
pub mod Schema
pub mod Predicate
pub mod Lookup
pub mod Partition
pub mod Examples
pub mod Coalescer
pub mod Transport
