-- ===== src/Codec/Varint.antt =====
-- The variable-length integers of pkg/fgo/row_codec.go: appendVar64, readVar and the
-- length-prefixed byte strings.
pub mod Encode
pub mod Decode
pub mod RoundTrip
use fluss_go.Prelude.{ℕ, zero, suc, ◌+◌, ◌-◌, ◌*◌, ◌/◌, ◌%◌, ◌^◌, ◌<◌, arith, Bool, true, false}
use fluss_go.Prelude.{List, [], ◌∷◌, ◌++◌, Option, none, some, length, get_elem?, take, drop}
use fluss_go.Prelude.{ltb, leb, ◌==◌, ◌||◌, if◌then◌else◌, lt_wf}
use fluss_go.Prelude.Bits.{bit_and, bit_or}
use fluss_go.Prelude.Errors.{Result, ok, err, plain, ◌>>=◌}
use mathlib.Core.Logic.{dite}
use mathlib.Core.WellFounded.{Acc}
use native.Mathlib.Decide.{dec_lt}

-- maxRowBytes
abbrev pub max_row_bytes : ℕ
max_row_bytes = 16 * 2 ^ 20

abbrev shift_shrinks : (v : ℕ) → 0x7f < v → v / 128 < v
shift_shrinks v h = omega arith

-- The loop `for value > 0x7f`; `byte(value)` is `v % 256` and `value >>= 7` is `v / 128`.
append_var64_loop : List ℕ → (v : ℕ) → Acc ◌<◌ v → List ℕ
append_var64_loop dst v (Acc.intro _ smaller) =
    dite (dec_lt 0x7f v)
      (λ more.
        append_var64_loop (dst ++ (bit_or (v % 256) 0x80 ∷ [])) (v / 128)
          (smaller _ (shift_shrinks v more)))
      (λ _. dst ++ (v % 256 ∷ []))

unfoldable pub append_var64 : List ℕ → ℕ → List ℕ
unfolding append_var64_loop lt_wf dec_lt
append_var64 dst v = append_var64_loop dst v (lt_wf.apply v)

-- The argument is a uint32.
unfoldable pub append_var32 : List ℕ → ℕ → List ℕ
append_var32 dst v = append_var64 dst v

-- What one round of `readVar` adds to the value: `uint64(part&0x7f) << (7 * i)`.
abbrev group : ℕ → ℕ → ℕ
group part i = bit_and part 0x7f * 2 ^ (7 * i) % 2 ^ 64

-- The loop `for i := 0; i < maximum; i++`, by the rounds that are left.
read_var_loop : ℕ → List ℕ → ℕ → ℕ → ℕ → Result (ℕ × ℕ)
read_var_loop zero encoded position i value = err plain
read_var_loop (suc rounds) encoded position i value = elim (get_elem? encoded position) [
  | none ↦ err plain
  | some part ↦
      let value' = bit_or value (group part i) in
      let rest = read_var_loop rounds encoded (position + 1) (i + 1) value' in
      if bit_and part 0x80 == 0 then ok (value', position + 1) else rest
]

-- The value and the position behind it.
unfoldable pub read_var : List ℕ → ℕ → ℕ → Result (ℕ × ℕ)
unfolding read_var_loop
read_var encoded position maximum = read_var_loop maximum encoded position 0 0

-- The model's error carries no text, so "value exceeds" and "invalid byte length" are both `plain`.
unfoldable pub append_length_bytes : List ℕ → List ℕ → Result (List ℕ)
append_length_bytes dst value =
    if ltb max_row_bytes (length value)
    then err plain
    else ok (append_var32 dst (length value % 2 ^ 32) ++ value)

-- encoded[from:to], where the caller has checked the bounds.
abbrev pub slice : List ℕ → ℕ → ℕ → List ℕ
slice encoded from to = take (to - from) (drop from encoded)

length_bytes_at : List ℕ → ℕ → ℕ → Result (List ℕ × ℕ)
length_bytes_at encoded len next =
    if ltb max_row_bytes len || ltb (length encoded) next || ltb (length encoded - next) len
    then err plain
    else ok (slice encoded next (next + len), next + len)

unfoldable pub read_length_bytes : List ℕ → ℕ → Result (List ℕ × ℕ)
unfolding length_bytes_at
read_length_bytes encoded position = elim (read_var encoded position 5) [
  | err _ ↦ err plain
  | ok (len, next) ↦ length_bytes_at encoded len next
]

-- readFixed. The checks on negative arguments have no counterpart on ℕ.
unfoldable pub read_fixed : List ℕ → ℕ → ℕ → Result (List ℕ × ℕ)
read_fixed encoded position len =
    if ltb (length encoded) position || ltb (length encoded - position) len
    then err plain
    else ok (slice encoded position (position + len), position + len)
