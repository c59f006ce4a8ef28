-- ===== src/RecordBatch/Kv/RoundTrip.antt =====
-- DecodeKVBatch reads back what KVBatch.Encode wrote.
use fluss_go.Prelude.{ℕ, ◌+◌, ◌-◌, ◌*◌, ◌%◌, ◌^◌, ◌≤◌, ◌<◌, ◌≡◌, ◌≢◌, ap, arith}
use fluss_go.Prelude.{
  List, [], ◌∷◌, ◌++◌, some, true, false, inl, inr, ltb, ◌==◌, Bool-cases, length, All,
  length-append,
}
use fluss_go.Prelude.Errors.{ok, err, err_malformed_record_batch}
use fluss_go.Codec.Varint.{max_row_bytes}
use fluss_go.Codec.Varint.RoundTrip.{length-append_var32}
use fluss_go.Codec.Bytes.{little, read_little, put_at, from_little-little}
use fluss_go.Codec.Crc.{checksum, checksum-lt}
use fluss_go.RecordBatch.Kv.{
  KvRecord, KvBatch, kv_header, kv_batch_header_size, seal_kv, encode, decode,
}
use fluss_go.RecordBatch.Kv.{kv_header_ok, kv_batch_of, decode_kv_records}
use fluss_go.RecordBatch.Kv.Records.{records_bytes, record_bytes, IsWritable, encode_records_fits}
use fluss_go.RecordBatch.Kv.Records.{
  encode_records_exceeds, decode_kv_records_lem, length-record_body,
}

-- The documented layout behind the length and the checksum: schema, reserved byte, writer,
-- sequence, count, records.
abbrev pub kv_tail : KvBatch → List ℕ
kv_tail b =
    little 2 b.schema_id
    ++ (0
        ∷ (little 8 b.writer_id
            ++ (little 4 b.batch_sequence
                ++ (little 4 (length b.records) ++ records_bytes b.records))))

abbrev pub kv_layout : KvBatch → List ℕ
kv_layout b =
    little 4 (24 + length (records_bytes b.records))
    ++ (0 ∷ (little 4 (checksum (kv_tail b)) ++ kv_tail b))

-- The 28 bytes before the records.
abbrev pub kv_prefix : KvBatch → List ℕ
kv_prefix b =
    little 4 (24 + length (records_bytes b.records))
    ++ (0
        ∷ (little 4 (checksum (kv_tail b))
            ++ (little 2 b.schema_id
                ++ (0
                    ∷ (little 8 b.writer_id
                        ++ (little 4 b.batch_sequence ++ little 4 (length b.records)))))))

-- The size of the encoded batch.
abbrev pub kv_size : KvBatch → ℕ
kv_size b = kv_batch_header_size + length (records_bytes b.records)

seal_kv_layout : (b : KvBatch) → seal_kv (kv_header b ++ records_bytes b.records) ≡ kv_layout b
unfolding seal_kv put_at
seal_kv_layout b =
    let e : length (kv_header b ++ records_bytes b.records) - 4
        ≡ 24 + length (records_bytes b.records) =
      omega arith in
    rw e

-- Every record takes five bytes at least.
five_each : (rs : List KvRecord) → 5 * length rs ≤ length (records_bytes rs)
five_each [] = omega arith
five_each (r ∷ rs) = omega (
  arith,
  five_each rs,
  length-append (record_bytes r) (records_bytes rs),
  length-record_body r,
  length-append_var32 (length r.key % 2 ^ 32) (omega arith),
)

-- A batch that the wire can hold: fields in range, and no value that is empty and not nil.
pub record IsEncodable (b : KvBatch) : Type 0 where
  pub schema_fits : b.schema_id < 2 ^ 16
  pub writer_fits : b.writer_id < 2 ^ 64
  pub sequence_fits : b.batch_sequence < 2 ^ 32
  pub values : All (λ r. r.value ≢ some []) b.records
  pub room : kv_size b ≤ max_row_bytes

records_written :
    (rs : List KvRecord)
    → All (λ r. r.value ≢ some []) rs
    → length (records_bytes rs) ≤ max_row_bytes
    → All IsWritable rs
records_written [] h room = tt
records_written (r ∷ rs) (hv, hs) room = (
  (
    omega (arith, length-append (record_bytes r) (records_bytes rs), length-record_body r),
    hv,
    omega (arith, length-append (record_bytes r) (records_bytes rs)),
  ),
  records_written rs hs (omega (arith, length-append (record_bytes r) (records_bytes rs))),
)

-- Encode writes the documented layout if the batch has room.
pub encode-kv_layout : (b : KvBatch) → kv_size b ≤ max_row_bytes → encode b ≡ ok (kv_layout b)
unfolding encode put_at
encode-kv_layout b room =
    let few : ltb (2 ^ 31 - 1) (length b.records) ≡ false = ground (arith, five_each b.records) in
    rw (few, encode_records_fits (kv_header b) b.records room) (ap ok (seal_kv_layout b))

encode_exceeds :
    (b : KvBatch) → max_row_bytes < kv_size b → encode b ≡ err err_malformed_record_batch
unfolding encode put_at
encode_exceeds b h = elim (Bool-cases (ltb (2 ^ 31 - 1) (length b.records))) [
  | inl many ↦ rw many
  | inr few ↦ rw (few, encode_records_exceeds (kv_header b) b.records (omega arith) h)
]

module _ (b : KvBatch) (v : IsEncodable b) where
  length_field : read_little 4 (kv_layout b) 0 ≡ 24 + length (records_bytes b.records)
  unfolding read_little
  length_field = from_little-little 4 (24 + length (records_bytes b.records)) (omega arith)

  checksum_field : read_little 4 (kv_layout b) 5 ≡ checksum (kv_tail b)
  unfolding read_little
  checksum_field = from_little-little 4 (checksum (kv_tail b)) (checksum-lt (kv_tail b))

  schema_field : read_little 2 (kv_layout b) 9 ≡ b.schema_id
  unfolding read_little
  schema_field = from_little-little 2 b.schema_id v.schema_fits

  writer_field : read_little 8 (kv_layout b) 12 ≡ b.writer_id
  unfolding read_little
  writer_field = from_little-little 8 b.writer_id v.writer_fits

  sequence_field : read_little 4 (kv_layout b) 20 ≡ b.batch_sequence
  unfolding read_little
  sequence_field = from_little-little 4 b.batch_sequence v.sequence_fits

  count_field : read_little 4 (kv_layout b) 24 ≡ length b.records
  unfolding read_little
  count_field = from_little-little 4 (length b.records) (omega (arith, five_each b.records))

  header_accepted : kv_header_ok (kv_layout b) ≡ true
  unfolding kv_header_ok
  header_accepted = ground (arith, length_field, checksum_field, count_field, five_each b.records)

  records_read :
      decode_kv_records (read_little 4 (kv_layout b) 24) (kv_layout b) 28
      ≡ ok (b.records, kv_size b)
  records_read = rw count_field (
      decode_kv_records_lem (kv_prefix b) b.records
        (records_written b.records v.values (omega (arith, v.room))))

  pub decode-kv_layout : decode (kv_layout b) ≡ ok b
  unfolding decode kv_batch_of
  decode-kv_layout =
      let all : (kv_size b == length (kv_layout b)) ≡ true = ground arith in
      rw (header_accepted, records_read, all, schema_field, writer_field, sequence_field)

-- For a batch whose schema, writer and sequence fit 16, 64 and 32 bits, none of whose values is
-- empty, and whose encoding is not over maxRowBytes: Encode succeeds, with as many bytes as the
-- layout has, and DecodeKVBatch gives the batch back.
pub decode-encode :
    (b : KvBatch)
    → IsEncodable b
    → (bytes : List ℕ) × (encode b ≡ ok bytes) × (decode bytes ≡ ok b) × (length bytes ≡ kv_size b)
decode-encode b v = (kv_layout b, encode-kv_layout b v.room, decode-kv_layout b v, omega arith)

-- Encode fails exactly on the batches that exceed maxRowBytes, and else writes the layout.
pub encode_by_size :
    (b : KvBatch)
    → (kv_size b ≤ max_row_bytes → encode b ≡ ok (kv_layout b))
      × (max_row_bytes < kv_size b → encode b ≡ err err_malformed_record_batch)
encode_by_size b = (encode-kv_layout b, encode_exceeds b)
