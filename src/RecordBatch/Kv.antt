-- ===== src/RecordBatch/Kv.antt =====
-- KVBatch of pkg/fgo/record_batch.go: the layout, Encode and DecodeKVBatch. Signed fields stand for
-- their bit patterns: an int16 is a number below 2 ^ 16, and so on.
pub mod Records
pub mod RoundTrip
pub mod Accepts
use fluss_go.Prelude.{ℕ, zero, suc, ◌+◌, ◌-◌, ◌/◌, ◌%◌, ◌^◌, Bool, true, false, ◌||◌, not}
use fluss_go.Prelude.{
  List, [], ◌∷◌, ◌++◌, Option, none, some, length, take, drop, get_or, replicate,
}
use fluss_go.Prelude.{ltb, ◌==◌, if◌then◌else◌}
use fluss_go.Prelude.Errors.{Result, ok, err, err_malformed_record_batch, ◌>>=◌}
use fluss_go.Codec.Varint.{append_var32, read_var, slice, max_row_bytes}
use fluss_go.Codec.Bytes.{little, read_little, put_at}
use fluss_go.Codec.Crc.{checksum}

abbrev pub kv_batch_header_size : ℕ
kv_batch_header_size = 28

-- A nil Value is `none`.
pub record KvRecord : Type 0 where
  pub key : List ℕ
  pub value : Option (List ℕ)

pub record KvBatch : Type 0 where
  pub schema_id : ℕ
  pub writer_id : ℕ
  pub batch_sequence : ℕ
  pub records : List KvRecord

-- The bytes that `append(body, record.Value...)` adds; nil adds none.
abbrev pub value_bytes : Option (List ℕ) → List ℕ
value_bytes none = []
value_bytes (some v) = v

abbrev pub record_body : KvRecord → List ℕ
record_body r = append_var32 [] (length r.key % 2 ^ 32) ++ (r.key ++ value_bytes r.value)

-- One round of the loop over the records.
unfoldable pub encode_record : List ℕ → KvRecord → Result (List ℕ)
encode_record encoded r =
    let body = record_body r in
    if ltb max_row_bytes (length r.key) || ltb max_row_bytes (length (value_bytes r.value))
    then err err_malformed_record_batch
    else if ltb max_row_bytes (length body) || ltb max_row_bytes (length encoded + 4 + length body)
    then err err_malformed_record_batch
    else ok (encoded ++ (little 4 (length body) ++ body))

unfoldable pub encode_records : List ℕ → List KvRecord → Result (List ℕ)
encode_records encoded [] = ok encoded
encode_records encoded (r ∷ rs) = do e ← encode_record encoded r; encode_records e rs

-- The header before the length and the checksum are known.
abbrev pub kv_header : KvBatch → List ℕ
unfolding put_at
kv_header b = put_at 24 (little 4 (length b.records)) (
    put_at 20 (little 4 b.batch_sequence) (
      put_at 12 (little 8 b.writer_id)
        (put_at 9 (little 2 b.schema_id) (put_at 4 (0 ∷ []) (replicate kv_batch_header_size 0)))))

-- The two last writes of Encode.
unfoldable pub seal_kv : List ℕ → List ℕ
unfolding put_at
seal_kv encoded =
    let sized = put_at 0 (little 4 (length encoded - 4)) encoded in
    put_at 5 (little 4 (checksum (drop 9 sized))) sized

unfoldable pub encode : KvBatch → Result (List ℕ)
encode b =
    if ltb (2 ^ 31 - 1) (length b.records)
    then err err_malformed_record_batch
    else do encoded ← encode_records (kv_header b) b.records; ok (seal_kv encoded)

-- decodeKVRecord behind the record's length field, which holds `len`, from `position` on.
unfoldable pub decode_kv_body : List ℕ → ℕ → ℕ → Result (KvRecord × ℕ)
decode_kv_body encoded position body_end = elim (read_var (take body_end encoded) position 5) [
  | err _ ↦ err err_malformed_record_batch
  | ok (key_length, key_start) ↦
      let key_end = key_start + key_length in
      if ltb (body_end - key_start) key_length
      then err err_malformed_record_batch
      else ok (
        record {
          key = slice encoded key_start key_end;
          value = if key_end == body_end then none else some (slice encoded key_end body_end);
        },
        body_end,
      )
]

-- The record, and the position behind it.
unfoldable pub decode_kv_record : List ℕ → ℕ → Result (KvRecord × ℕ)
decode_kv_record encoded position =
    let len = read_little 4 encoded position in
    if ltb (length encoded) (position + 4)
    then err err_malformed_record_batch
    else if ltb len 1 || ltb (length encoded - (position + 4)) len
    then err err_malformed_record_batch
    else decode_kv_body encoded (position + 4) (position + 4 + len)

-- The loop `for range count`: the records, and the position behind the last.
unfoldable pub decode_kv_records : ℕ → List ℕ → ℕ → Result (List KvRecord × ℕ)
decode_kv_records zero encoded position = ok ([], position)
decode_kv_records (suc count) encoded position = do
  (r, next) ← decode_kv_record encoded position
  (rs, last) ← decode_kv_records count encoded next
  ok (r ∷ rs, last)

-- The tests of DecodeKVBatch before the records are read.
unfoldable pub kv_header_ok : List ℕ → Bool
kv_header_ok encoded = not (
    ltb (length encoded) kv_batch_header_size
    || ltb max_row_bytes (length encoded)
    || not (get_or encoded 4 0 == 0)
    || not (read_little 4 encoded 0 == length encoded - 4)
    || not (read_little 4 encoded 5 == checksum (drop 9 encoded))
    || ltb (length encoded / 5) (read_little 4 encoded 24))

-- The fields of the header with the records, if the last record ends the buffer.
unfoldable pub kv_batch_of : List ℕ → List KvRecord → ℕ → Result KvBatch
kv_batch_of encoded records position =
    if position == length encoded
    then ok (record {
      schema_id = read_little 2 encoded 9;
      writer_id = read_little 8 encoded 12;
      batch_sequence = read_little 4 encoded 20;
      records = records;
    })
    else err err_malformed_record_batch

unfoldable pub decode : List ℕ → Result KvBatch
decode encoded =
    if kv_header_ok encoded
    then (decode_kv_records (read_little 4 encoded 24) encoded kv_batch_header_size
        >>= λ (records, position). kv_batch_of encoded records position)
    else err err_malformed_record_batch
