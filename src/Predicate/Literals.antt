-- ===== src/Predicate/Literals.antt =====
-- pkg/fgo/predicate.go: the literals of a predicate, from Go values to PbLiteralValue. Of a value that a
-- column of another type would take, only its Go type matters.
use Prim.Native.String.{String}
use text.Mathlib.Text.{◌==◌ as str_eq}
use fluss_go.Prelude.{ℕ, ◌+◌, ◌-◌, ◌*◌, ◌/◌, ◌%◌, ◌^◌, Bool, true, false, ◌&&◌, ◌||◌, not}
use fluss_go.Prelude.{List, [], ◌∷◌, leb, ◌==◌, if◌then◌else◌}
use fluss_go.Prelude.Int.{ℤ, pos, negsuc, ltb_ℤ}
use fluss_go.Prelude.Errors.{Result, ok, err, ◌>>=◌, err_invalid_schema, plain}
use fluss_go.Schema.Types.{one_of}

-- A time.Time: its clock in its own location, the day of its date counted from 1970, and the Unix
-- milliseconds of the instant.
pub record Time : Type 0 where
  pub day : ℤ
  pub hour : ℕ
  pub minute : ℕ
  pub second : ℕ
  pub nanosecond : ℕ
  pub unix_milli : ℤ

-- A literal of type `any`. An integer of any Go type is its value; a float is its bits, a float64 with
-- whether it is NaN, infinite or the same as a float32; a *big.Rat is a fraction in lowest terms.
pub data Literal : Type 0 where
  nil_literal : Literal
  bool_literal : Bool → Literal
  integer_literal : ℤ → Literal
  float32_literal : ℕ → Literal
  float64_literal : ℕ → Bool → Literal
  string_literal : String → Literal
  bytes_literal : List ℕ → Literal
  rat_literal : (numerator : ℤ) (denominator : ℕ) → Literal
  time_literal : Time → Literal
  other_literal : Literal

-- The value field of a PbLiteralValue that is set; an integer becomes a float by the language's
-- conversion.
pub data PbValue : Type 0 where
  no_value : PbValue
  boolean_value : Bool → PbValue
  int_value : ℤ → PbValue
  bigint_value : ℤ → PbValue
  float_value : ℕ → PbValue
  float_of_integer : ℤ → PbValue
  text_value : String → PbValue
  binary_value : List ℕ → PbValue
  decimal_value : ℤ → PbValue
  decimal_bytes : ℤ → PbValue
  timestamp_value : ℤ → ℕ → PbValue

-- PbLiteralValue
pub record PbLiteral : Type 0 where
  pub literal_type : ℕ
  pub is_null : Bool
  pub value : PbValue

-- low and high of integerLiteral.
unfoldable pub integer_bounds : String → ℤ × ℤ
integer_bounds kind =
    if str_eq kind "TINYINT"
    then (negsuc (2 ^ 7 - 1), pos (2 ^ 7 - 1))
    else if str_eq kind "SMALLINT"
    then (negsuc (2 ^ 15 - 1), pos (2 ^ 15 - 1))
    else if str_eq kind "INT"
    then (negsuc (2 ^ 31 - 1), pos (2 ^ 31 - 1))
    else (negsuc (2 ^ 63 - 1), pos (2 ^ 63 - 1))

-- integerLiteral. A uint64 above MaxInt64 is above every bound.
unfoldable pub integer_literal_value : Literal → String → Result ℤ
unfolding integer_bounds
integer_literal_value (integer_literal v) kind =
    let bounds = integer_bounds kind in
    if ltb_ℤ v bounds.0 || ltb_ℤ bounds.1 v then err plain else ok v
integer_literal_value _ kind = err plain

-- floatLiteral, for a significand of `bits` bits.
unfoldable pub float_literal_value : Literal → ℕ → Result PbValue
unfolding integer_literal_value
float_literal_value (float32_literal f) bits = ok (float_value f)
float_literal_value (float64_literal f exact) bits =
    if bits == 24 && not exact then err plain else ok (float_value f)
float_literal_value (integer_literal v) bits =
    integer_literal_value (integer_literal v) "BIGINT" >>= λ n.
    if ltb_ℤ (pos (2 ^ bits)) n || ltb_ℤ n (negsuc (2 ^ bits - 1))
    then err plain
    else ok (float_of_integer n)
float_literal_value _ bits = err plain

unfoldable pub text_literal_value : Literal → Result PbValue
text_literal_value (string_literal s) = ok (text_value s)
text_literal_value _ = err plain

unfoldable pub bytes_literal_value : Literal → Result PbValue
bytes_literal_value (bytes_literal bs) = ok (binary_value bs)
bytes_literal_value _ = err plain

unfoldable pub bool_literal_value : Literal → Result PbValue
bool_literal_value (bool_literal b) = ok (boolean_value b)
bool_literal_value _ = err plain

-- setIntegerLiteral
unfoldable pub set_integer_literal : Literal → String → Result PbValue
unfolding integer_literal_value
set_integer_literal v kind = integer_literal_value v kind >>= λ n.
    ok (if str_eq kind "BIGINT" then bigint_value n else int_value n)

-- encodeScalarLiteral
unfoldable pub encode_scalar_literal : Literal → String → Result PbValue
unfolding bool_literal_value set_integer_literal float_literal_value text_literal_value
    bytes_literal_value
encode_scalar_literal v kind =
    if str_eq kind "BOOLEAN"
    then bool_literal_value v
    else if one_of kind ("TINYINT" ∷ "SMALLINT" ∷ "INT" ∷ "BIGINT" ∷ [])
    then set_integer_literal v kind
    else if str_eq kind "FLOAT"
    then float_literal_value v 24
    else if str_eq kind "DOUBLE"
    then float_literal_value v 53
    else if one_of kind ("STRING" ∷ "CHAR" ∷ [])
    then text_literal_value v
    else if one_of kind ("BINARY" ∷ "BYTES" ∷ [])
    then bytes_literal_value v
    else ok no_value

abbrev pub times : ℤ → ℕ → ℤ
times (pos a) b = pos (a * b)
times (negsuc a) b = if b == 0 then pos 0 else negsuc ((a + 1) * b - 1)

abbrev pub magnitude : ℤ → ℕ
magnitude (pos a) = a
magnitude (negsuc a) = a + 1

abbrev pub over : ℤ → ℕ → ℤ
over (pos a) b = pos (a / b)
over (negsuc a) b = negsuc ((a + 1) / b - 1)

-- decimalUnscaled (pkg/fgo/row_value_codec.go), for a fraction in lowest terms; a number has at most
-- `precision` digits when it is below 10 ^ precision.
unfoldable pub decimal_unscaled : ℤ → ℕ → ℤ → ℤ → Result ℤ
decimal_unscaled numerator denominator precision scale =
    if ltb_ℤ precision (pos 1) || ltb_ℤ scale (pos 0)
    then err err_invalid_schema
    else if not (magnitude (times numerator (10 ^ magnitude scale)) % denominator == 0)
    then err plain
    else if leb (10 ^ magnitude precision)
        (magnitude (over (times numerator (10 ^ magnitude scale)) denominator))
    then err plain
    else ok (over (times numerator (10 ^ magnitude scale)) denominator)

-- The end of encodeDecimalLiteral, with the precision.
unfoldable pub decimal_field : ℤ → ℤ → PbValue
decimal_field precision unscaled =
    if ltb_ℤ (pos 18) precision then decimal_bytes unscaled else decimal_value unscaled

-- encodeDecimalLiteral
unfoldable pub encode_decimal_literal : Literal → ℤ → ℤ → Result PbValue
unfolding decimal_unscaled integer_literal_value decimal_field
encode_decimal_literal (rat_literal n d) precision scale =
    decimal_unscaled n d precision scale >>= λ u. ok (decimal_field precision u)
encode_decimal_literal (integer_literal v) precision scale =
    integer_literal_value (integer_literal v) "BIGINT" >>= λ n.
    decimal_unscaled n 1 precision scale >>= λ u. ok (decimal_field precision u)
encode_decimal_literal _ precision scale = err plain

-- timestampGranularity, in nanoseconds.
unfoldable pub timestamp_granularity : ℤ → Result ℕ
timestamp_granularity precision =
    if ltb_ℤ precision (pos 0) || ltb_ℤ (pos 9) precision
    then err plain
    else if ltb_ℤ (pos 3) precision
    then ok (10 ^ (9 - magnitude precision))
    else ok (10 ^ 6)

abbrev pub day_milliseconds : ℕ
day_milliseconds = 86400000

-- The milliseconds since midnight.
abbrev pub clock_milliseconds : Time → ℕ
clock_milliseconds t = ((t.hour * 60 + t.minute) * 60 + t.second) * 1000 + t.nanosecond / 10 ^ 6

abbrev pub plus : ℤ → ℕ → ℤ
plus (pos a) b = pos (a + b)
plus (negsuc a) b = if leb (a + 1) b then pos (b - (a + 1)) else negsuc (a - b)

-- setDateLiteral, setTimeLiteral and setTimestampLiteral.
unfoldable pub set_date_literal : Time → Result PbValue
set_date_literal t =
    if not (t.hour == 0) || not (t.minute == 0) || not (t.second == 0) || not (t.nanosecond == 0)
    then err plain
    else ok (bigint_value t.day)

unfoldable pub set_time_literal : Time → Result PbValue
set_time_literal t =
    if not (t.nanosecond % 10 ^ 6 == 0)
    then err plain
    else ok (int_value (pos (clock_milliseconds t)))

-- timestampParts
unfoldable pub timestamp_parts : String → Time → PbValue
timestamp_parts kind t =
    if str_eq kind "TIMESTAMP_WITH_LOCAL_TIME_ZONE"
    then timestamp_value t.unix_milli (t.nanosecond % 10 ^ 6)
    else timestamp_value (plus (times t.day day_milliseconds) (clock_milliseconds t))
        (t.nanosecond % 10 ^ 6)

unfoldable pub set_timestamp_literal : Time → String → ℤ → Result PbValue
unfolding timestamp_granularity timestamp_parts
set_timestamp_literal t kind precision = timestamp_granularity precision >>= λ g.
    if not (t.nanosecond % 10 ^ 6 % g == 0) then err plain else ok (timestamp_parts kind t)

-- encodeTemporalLiteral
unfoldable pub encode_temporal_literal : Literal → String → ℤ → Result PbValue
unfolding set_date_literal set_time_literal set_timestamp_literal
encode_temporal_literal (time_literal t) kind precision =
    if str_eq kind "DATE"
    then set_date_literal t
    else if str_eq kind "TIME_WITHOUT_TIME_ZONE"
    then set_time_literal t
    else set_timestamp_literal t kind precision
encode_temporal_literal _ kind precision = err plain

abbrev pub is_nil_literal : Literal → Bool
is_nil_literal nil_literal = true
is_nil_literal _ = false

-- The value of a literal that is not nil.
unfoldable pub literal_value : Literal → String → ℤ → ℤ → Result PbValue
unfolding encode_decimal_literal encode_temporal_literal encode_scalar_literal
literal_value v kind precision scale =
    if str_eq kind "DECIMAL"
    then encode_decimal_literal v precision scale
    else if one_of kind
        ("DATE" ∷ "TIME_WITHOUT_TIME_ZONE" ∷ "TIMESTAMP" ∷ "TIMESTAMP_WITH_LOCAL_TIME_ZONE" ∷ [])
    then encode_temporal_literal v kind precision
    else encode_scalar_literal v kind

-- encodeLiteral
unfoldable pub encode_literal : Literal → ℕ → String → ℤ → ℤ → Result PbLiteral
unfolding literal_value
encode_literal v code kind precision scale =
    let value = literal_value v kind precision scale >>= λ x.
    ok (record { literal_type = code; is_null = false; value = x }) in
    if is_nil_literal v
    then ok (record { literal_type = code; is_null = true; value = no_value })
    else value
