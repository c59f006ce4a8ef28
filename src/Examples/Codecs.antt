-- ===== src/Examples/Codecs.antt =====
-- Codecs, record batches and buckets on concrete inputs.
use fluss_go.Prelude.{
  ℕ, ◌+◌, ◌-◌, ◌^◌, ◌≤◌, ◌≡◌, refl, arith, List, [], ◌∷◌, ◌++◌, length, get_or, drop, none, some,
}
use fluss_go.Prelude.Errors.{ok}
use fluss_go.Codec.Bytes.{read_little}
use fluss_go.Codec.Crc.{checksum}
use fluss_go.Codec.Varint.{append_var32, append_var64, read_var, max_row_bytes}
use fluss_go.Codec.Varint.RoundTrip.{read_var-append_var64}
use fluss_go.RecordBatch.Kv.{KvBatch, encode, decode, kv_batch_header_size}
use fluss_go.RecordBatch.Kv.RoundTrip.{
  IsEncodable, kv_size, kv_layout, decode-encode, decode-kv_layout,
}
use fluss_go.RecordBatch.Kv.Accepts.{decode_accepts}
use fluss_go.Bucket.{fluss_bucket}

-- The buckets of TestFlussBucket, among 17.
bucket_of_a : fluss_bucket (97 ∷ []) 17 ≡ ok 11
unfolding fluss_bucket
bucket_of_a = refl

bucket_of_fluss : fluss_bucket (102 ∷ 108 ∷ 117 ∷ 115 ∷ 115 ∷ []) 17 ≡ ok 13
unfolding fluss_bucket
bucket_of_fluss = refl

bucket_of_bytes : fluss_bucket (0xC3 ∷ 0xBF ∷ []) 17 ≡ ok 10
unfolding fluss_bucket
bucket_of_bytes = refl

read_var-append_var64_example :
    read_var (append_var64 (7 ∷ []) 300 ++ (9 ∷ [])) 1 10
    ≡ ok (300, length (append_var64 (7 ∷ []) 300))
read_var-append_var64_example =
    read_var-append_var64 9 10 300 (7 ∷ []) (9 ∷ []) (omega arith) (omega arith) (omega arith)

abbrev varint_300 : List ℕ
varint_300 = 0xAC ∷ 2 ∷ 9 ∷ []

read_300 : read_var varint_300 0 5 ≡ ok (300, 2)
unfolding read_var
read_300 = refl

abbrev one_upsert : KvBatch
one_upsert = record {
  schema_id = 3;
  writer_id = 2 ^ 64 - 1;
  batch_sequence = 7;
  records =
      record { key = 1 ∷ 2 ∷ []; value = some (4 ∷ []) }
      ∷ record { key = 9 ∷ []; value = none }
      ∷ [];
}

one_upsert-IsEncodable : IsEncodable one_upsert
unfolding append_var32 append_var64
one_upsert-IsEncodable = record {
  schema_fits = omega arith;
  writer_fits = omega arith;
  sequence_fits = omega arith;
  values = ((λ e. cc), ((λ e. cc), tt));
  room = omega arith;
}

decode-encode_example :
    (bytes : List ℕ) × (encode one_upsert ≡ ok bytes)
    × (decode bytes ≡ ok one_upsert)
    × (length bytes ≡ kv_size one_upsert)
decode-encode_example = decode-encode one_upsert one_upsert-IsEncodable

upsert_decoded : decode (kv_layout one_upsert) ≡ ok one_upsert
upsert_decoded = decode-kv_layout one_upsert one_upsert-IsEncodable

decode_accepts_example :
    (kv_batch_header_size ≤ length (kv_layout one_upsert))
    × (length (kv_layout one_upsert) ≤ max_row_bytes)
    × (get_or (kv_layout one_upsert) 4 0 ≡ 0)
    × (read_little 4 (kv_layout one_upsert) 0 + 4 ≡ length (kv_layout one_upsert))
    × (read_little 4 (kv_layout one_upsert) 5 ≡ checksum (drop 9 (kv_layout one_upsert)))
    × (length one_upsert.records ≡ read_little 4 (kv_layout one_upsert) 24)
decode_accepts_example = decode_accepts (kv_layout one_upsert) one_upsert upsert_decoded
