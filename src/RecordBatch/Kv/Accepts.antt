-- ===== src/RecordBatch/Kv/Accepts.antt =====
-- What DecodeKVBatch has checked of any buffer that it accepts.
use fluss_go.Prelude.{ℕ, zero, suc, ◌+◌, ◌≤◌, ◌≡◌, arith, List, length, drop, get_or}
use fluss_go.Prelude.{true, inl, inr, Bool-cases}
use fluss_go.Prelude.Errors.{ok, Result-cases}
use fluss_go.Codec.Varint.{max_row_bytes}
use fluss_go.Codec.Bytes.{read_little}
use fluss_go.Codec.Crc.{checksum}
use fluss_go.RecordBatch.Kv.{KvRecord, KvBatch, kv_header_ok, kv_batch_of, decode}
use fluss_go.RecordBatch.Kv.{decode_kv_records, decode_kv_record, kv_batch_header_size}

decode_kv_records_count :
    (count : ℕ) (encoded : List ℕ) (position : ℕ) (rs : List KvRecord) (next : ℕ)
    → decode_kv_records count encoded position ≡ ok (rs, next)
    → length rs ≡ count
unfolding decode_kv_records
decode_kv_records_count zero encoded position rs next e = ground arith
decode_kv_records_count (suc count) encoded position rs next e =
    elim (Result-cases (decode_kv_record encoded position)) [
      | inr (_, bad) ↦ cc (rw (bad, decode_kv_records) at e)
      | inl ((r, p), good) ↦
          let e' = rw (good, decode_kv_records) at e in
          elim (Result-cases (decode_kv_records count encoded p)) [
            | inr (_, bad) ↦ cc (rw bad at e')
            | inl ((rest, q), more) ↦
                ground (arith, rw more at e', decode_kv_records_count count encoded p rest q more)
          ]
    ]

header_facts :
    (encoded : List ℕ)
    → kv_header_ok encoded ≡ true
    → (kv_batch_header_size ≤ length encoded)
      × (length encoded ≤ max_row_bytes)
      × (get_or encoded 4 0 ≡ 0)
      × (read_little 4 encoded 0 + 4 ≡ length encoded)
      × (read_little 4 encoded 5 ≡ checksum (drop 9 encoded))
unfolding kv_header_ok
header_facts encoded h = ground arith

-- A buffer that DecodeKVBatch accepts holds a whole header of magic 0 and is not over the limit;
-- its length field and its checksum are right, and it has as many records as the count field says.
pub decode_accepts :
    (encoded : List ℕ) (b : KvBatch)
    → decode encoded ≡ ok b
    → (kv_batch_header_size ≤ length encoded)
      × (length encoded ≤ max_row_bytes)
      × (get_or encoded 4 0 ≡ 0)
      × (read_little 4 encoded 0 + 4 ≡ length encoded)
      × (read_little 4 encoded 5 ≡ checksum (drop 9 encoded))
      × (length b.records ≡ read_little 4 encoded 24)
unfolding decode kv_batch_of
decode_accepts encoded b e = elim (Bool-cases (kv_header_ok encoded)) [
  | inr bad ↦ cc (rw bad at e)
  | inl good ↦
      let e' = rw good at e in
      elim (Result-cases (decode_kv_records (read_little 4 encoded 24) encoded 28)) [
        | inr (_, bad) ↦ cc (rw bad at e')
        | inl ((rs, position), read) ↦
            let e'' = rw read at e' in
            let (a, b, c, d, f) = header_facts encoded good in
            (a, b, c, d, f, ground (arith, e'', decode_kv_records_count _ _ _ _ _ read))
      ]
]
