-- ===== src/RecordBatch/Kv/Records.antt =====
-- The records of a KV batch: what the encoder's loop writes, and what the decoder's loop reads.
use fluss_go.Prelude.{ℕ, ◌+◌, ◌-◌, ◌%◌, ◌^◌, ◌≤◌, ◌<◌, ◌≡◌, ◌≢◌, refl, sym, ap, ◌∙◌, arith}
use fluss_go.Prelude.{List, [], ◌∷◌, ◌++◌, Option, none, some, length, take, All, length-append}
use fluss_go.Prelude.{take-length_append, ltb, ◌==◌, if◌then◌else◌, ◌||◌, false}
use fluss_go.Prelude.Errors.{Result, ok, err, err_malformed_record_batch}
use fluss_go.Codec.Varint.{append_var32, read_var, slice, max_row_bytes}
use fluss_go.Codec.Varint.RoundTrip.{
  length-append_var32, read_var32-append_var32, append_var32-append, slice_middle,
}
use fluss_go.Codec.Bytes.{little, read_little, read_little-little}
use fluss_go.RecordBatch.Kv.{KvRecord, record_body, value_bytes, encode_record, encode_records}
use fluss_go.RecordBatch.Kv.{decode_kv_body, decode_kv_record, decode_kv_records}
use mathlib.Core.List.{append_assoc, append-nil}
use native.Mathlib.Nat.{mod-eq_of_lt}
use native.Mathlib.Decide.{dec_le}

abbrev pub record_bytes : KvRecord → List ℕ
record_bytes r = little 4 (length (record_body r)) ++ record_body r

abbrev pub records_bytes : List KvRecord → List ℕ
records_bytes [] = []
records_bytes (r ∷ rs) = record_bytes r ++ records_bytes rs

pub length-record_bytes : (r : KvRecord) → length (record_bytes r) ≡ 4 + length (record_body r)
length-record_bytes r = omega arith

pub length-record_body :
    (r : KvRecord)
    → length (record_body r)
      ≡ length (append_var32 [] (length r.key % 2 ^ 32))
        + (length r.key + length (value_bytes r.value))
length-record_body r =
    length-append (append_var32 [] (length r.key % 2 ^ 32)) (r.key ++ value_bytes r.value)
    ∙ ap (λ (n : ℕ). length (append_var32 [] (length r.key % 2 ^ 32)) + n)
        (length-append r.key (value_bytes r.value))

encode_record_fits :
    (encoded : List ℕ) (r : KvRecord)
    → length encoded + length (record_bytes r) ≤ max_row_bytes
    → encode_record encoded r ≡ ok (encoded ++ record_bytes r)
unfolding encode_record
encode_record_fits encoded r h = ground (arith, length-record_body r)

encode_record_exceeds :
    (encoded : List ℕ) (r : KvRecord)
    → max_row_bytes < length encoded + length (record_bytes r)
    → encode_record encoded r ≡ err err_malformed_record_batch
unfolding encode_record
encode_record_exceeds encoded r h = ground (arith, length-record_body r)

-- The loop over records that fit appends their bytes.
pub encode_records_fits :
    (encoded : List ℕ) (rs : List KvRecord)
    → length encoded + length (records_bytes rs) ≤ max_row_bytes
    → encode_records encoded rs ≡ ok (encoded ++ records_bytes rs)
unfolding encode_records
encode_records_fits encoded [] h = rw append-nil
encode_records_fits encoded (r ∷ rs) h =
    let first =
      encode_record_fits encoded r
        (omega (arith, length-append (record_bytes r) (records_bytes rs))) in
    rw first (
      encode_records_fits (encoded ++ record_bytes r) rs (
        omega (
          arith,
          length-append (record_bytes r) (records_bytes rs),
          length-append encoded (record_bytes r),
        ))
      ∙ ap ok (append_assoc encoded (record_bytes r) (records_bytes rs)))

-- The loop over records that do not fit fails.
pub encode_records_exceeds :
    (encoded : List ℕ) (rs : List KvRecord)
    → length encoded ≤ max_row_bytes
    → max_row_bytes < length encoded + length (records_bytes rs)
    → encode_records encoded rs ≡ err err_malformed_record_batch
unfolding encode_records
encode_records_exceeds encoded [] room h = absurd (omega arith)
encode_records_exceeds encoded (r ∷ rs) room h =
    elim (dec_le (length encoded + length (record_bytes r)) max_row_bytes) [
      | yes fits ↦ rw (encode_record_fits encoded r fits) (
          encode_records_exceeds (encoded ++ record_bytes r) rs
            (omega (arith, length-append encoded (record_bytes r)))
            (omega (
              arith,
              length-append (record_bytes r) (records_bytes rs),
              length-append encoded (record_bytes r),
            )))
      | no big ↦ rw (encode_record_exceeds encoded r (omega arith))
    ]

take_two : (xs ys zs : List ℕ) → take (length xs + length ys) (xs ++ (ys ++ zs)) ≡ xs ++ ys
take_two xs ys zs =
    rw (← length-append xs ys, ← append_assoc xs ys zs) (take-length_append (xs ++ ys) zs)

module _ (before v key value behind : List ℕ) where
  encoded : List ℕ
  encoded = before ++ ((v ++ (key ++ value)) ++ behind)

  key_start : ℕ
  key_start = length (before ++ v)

  body_end : ℕ
  body_end = length before + length (v ++ (key ++ value))

  body_end_lem : body_end ≡ key_start + length key + length value
  unfolding body_end key_start
  body_end_lem =
      omega (arith, length-append before v, length-append v (key ++ value), length-append key value)

  key_slice : slice encoded key_start (key_start + length key) ≡ key
  unfolding encoded key_start
  key_slice =
      let e : before ++ ((v ++ (key ++ value)) ++ behind)
          ≡ (before ++ v) ++ (key ++ (value ++ behind)) =
        simp append_assoc in
      rw e (slice_middle (before ++ v) key (value ++ behind))

  value_slice : slice encoded (key_start + length key) body_end ≡ value
  unfolding encoded key_start
  value_slice =
      let e : before ++ ((v ++ (key ++ value)) ++ behind)
          ≡ ((before ++ v) ++ key) ++ (value ++ behind) =
        simp append_assoc in
      rw (body_end_lem, e, ← length-append (before ++ v) key)
        (slice_middle ((before ++ v) ++ key) value behind)

  decode_kv_body_at :
      read_var (before ++ (v ++ (key ++ value))) (length before) 5 ≡ ok (length key, key_start)
      → decode_kv_body encoded (length before) body_end
        ≡ ok
            (record { key = key; value = if length value == 0 then none else some value }, body_end)
  unfolding decode_kv_body
  decode_kv_body_at read =
      let fits : ltb (body_end - key_start) (length key) ≡ false = ground (arith, body_end_lem) in
      let last : (key_start + length key == body_end) ≡ (length value == 0) =
        ground (arith, body_end_lem) in
      rw (whole, read, decode_kv_body, fits, key_slice, value_slice, last)
    where
      whole : take body_end encoded ≡ before ++ (v ++ (key ++ value))
      whole = unfold body_end encoded in take_two before (v ++ (key ++ value)) behind

module _ (before behind key : List ℕ) (value : Option (List ℕ)) (h : length key < 2 ^ 32) where
  read_key :
      read_var
        (before ++ (append_var32 [] (length key) ++ (key ++ value_bytes value)))
        (length before)
        5
      ≡ ok (length key, length (before ++ append_var32 [] (length key)))
  read_key =
      rw
        (
          ← append_assoc before (append_var32 [] (length key)) (key ++ value_bytes value),
          ← append_var32-append before (length key) h,
        )
        (read_var32-append_var32 (length key) before (key ++ value_bytes value) h)

-- A value that the decoder gives back: bytes, or nil for no bytes.
value_back :
    (value : Option (List ℕ))
    → value ≢ some []
    → (if length (value_bytes value) == 0 then none else some (value_bytes value)) ≡ value
value_back none h = refl
value_back (some []) h = absurd (h refl)
value_back (some (b ∷ bs)) h = ground arith

decode_kv_body_lem :
    (before behind : List ℕ) (r : KvRecord)
    → length r.key < 2 ^ 32
    → r.value ≢ some []
    → decode_kv_body
        (before ++ (record_body r ++ behind))
        (length before)
        (length before + length (record_body r))
      ≡ ok (r, length before + length (record_body r))
unfolding encoded body_end key_start
decode_kv_body_lem before behind r h v =
    let m : length r.key % 2 ^ 32 ≡ length r.key = mod-eq_of_lt h in
    rw m (
      decode_kv_body_at before (append_var32 [] (length r.key)) r.key (value_bytes r.value) behind
        (read_key before behind r.key r.value h)
      ∙ rw (value_back r.value v))

decode_kv_record_at :
    (encoded : List ℕ) (position n : ℕ) {out : Result (KvRecord × ℕ)}
    → read_little 4 encoded position ≡ n
    → position + 4 + n ≤ length encoded
    → 1 ≤ n
    → decode_kv_body encoded (position + 4) (position + 4 + n) ≡ out
    → decode_kv_record encoded position ≡ out
unfolding decode_kv_record
decode_kv_record_at encoded position n e fits pos body =
    let a : ltb (length encoded) (position + 4) ≡ false = ground arith in
    let b : (ltb n 1 || ltb (length encoded - (position + 4)) n) ≡ false = ground arith in
    rw (e, decode_kv_record, a, b) body

-- The decoder gives back a record that the encoder wrote, and stops behind it.
pub decode_kv_record_lem :
    (before behind : List ℕ) (r : KvRecord)
    → length r.key < 2 ^ 32
    → r.value ≢ some []
    → length (record_body r) < 2 ^ 32
    → decode_kv_record (before ++ (record_bytes r ++ behind)) (length before)
      ≡ ok (r, length before + length (record_bytes r))
decode_kv_record_lem before behind r h v small =
    let n : ℕ = length (record_body r) in
    let size = little 4 (length (record_body r)) in
    let moved : before ++ (size ++ (record_body r ++ behind))
        ≡ (before ++ size) ++ (record_body r ++ behind) =
      sym (append_assoc before size (record_body r ++ behind)) in
    let four : length (before ++ size) ≡ length before + 4 = length-append before size in
    let body : decode_kv_body (before ++ (record_bytes r ++ behind)) (length before + 4)
          (length before + 4 + length (record_body r))
        ≡ ok (r, length before + 4 + length (record_body r)) =
      rw (moved, ← four) (decode_kv_body_lem (before ++ size) behind r h v) in
    decode_kv_record_at (before ++ (record_bytes r ++ behind)) (length before) n
      (read_little-little 4 n before (record_body r ++ behind) (omega arith))
      (omega (
        arith,
        length-append before (record_bytes r ++ behind),
        length-append (record_body r) behind,
      ))
      (omega
        (arith, length-record_body r, length-append_var32 (length r.key % 2 ^ 32) (omega arith)))
      body
    ∙ ap (λ (t : ℕ). ok (r, t)) (omega (arith, length-record_bytes r))

-- What a record must be for its bytes to give it back: nil or a non-empty value, in range.
abbrev pub IsWritable : KvRecord → Type 0
IsWritable r = (length r.key < 2 ^ 32) × (r.value ≢ some []) × (length (record_body r) < 2 ^ 32)

pub decode_kv_records_lem :
    (before : List ℕ) (rs : List KvRecord)
    → All IsWritable rs
    → decode_kv_records (length rs) (before ++ records_bytes rs) (length before)
      ≡ ok (rs, length before + length (records_bytes rs))
unfolding decode_kv_records
decode_kv_records_lem before [] h = ground arith
decode_kv_records_lem before (r ∷ rs) ((hk, hv, hb), hs) =
    let first = decode_kv_record_lem before (records_bytes rs) r hk hv hb in
    let n = length-append before (record_bytes r) in
    let rest : decode_kv_records (length rs) (before ++ (record_bytes r ++ records_bytes rs))
          (length before + length (record_bytes r))
        ≡ ok (rs, length (before ++ record_bytes r) + length (records_bytes rs)) =
      rw (← append_assoc before (record_bytes r) (records_bytes rs), ← n)
        (decode_kv_records_lem (before ++ record_bytes r) rs hs) in
    rw (first, rest)
      (ap (λ (t : ℕ). ok (r ∷ rs, t))
        (omega (arith, n, length-append (record_bytes r) (records_bytes rs))))
