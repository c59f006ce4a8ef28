-- ===== src/Codec/Varint/RoundTrip.antt =====
-- readVar reads back what appendVar64 wrote.
use fluss_go.Prelude.{
  sym, ℕ, zero, suc, ◌+◌, ◌-◌, ◌*◌, ◌/◌, ◌%◌, ◌^◌, ◌≤◌, ◌<◌, ◌≡◌, ap, ◌∙◌, arith,
}
use fluss_go.Prelude.{
  List, [], ◌∷◌, ◌++◌, some, length, length-append, drop, get_elem?, get_elem?-drop,
}
use fluss_go.Prelude.{drop-length_append, take-length_append, ◌==◌, false}
use fluss_go.Prelude.Bits.{bit_and, bit_or, low_seven_bits, top_bit, bit_or_disjoint}
use fluss_go.Prelude.Errors.{ok}
use fluss_go.Codec.Varint.{group, read_var_loop, read_var, append_var64}
use fluss_go.Codec.Varint.{
  slice, length_bytes_at, append_var32, append_length_bytes, read_length_bytes, max_row_bytes,
}
use fluss_go.Codec.Varint.Encode.{groups, append_var64-groups, length-groups}
use mathlib.Core.List.{append_assoc}
use native.Mathlib.Nat.{pow-suc, mod-eq_of_lt, div-add-mod}
use native.Mathlib.Numerals.{towards_suc, add-one}
use native.Mathlib.Decide.{dec_lt}

shift_seven : (s : ℕ) → 2 ^ (s + 7) ≡ 128 * 2 ^ s
shift_seven s = simp towards_suc (omega arith)

seven_more : (q i : ℕ) → q * 2 ^ (7 * (i + 1)) ≡ 128 * (q * 2 ^ (7 * i))
seven_more q i =
    let e : 7 * (i + 1) ≡ 7 * i + 7 = omega arith in
    rw e (omega (arith, ap (λ (t : ℕ). q * t) (shift_seven (7 * i))))

-- One round adds the low seven bits of the byte.
or_group :
    (b i value : ℕ)
    → b < 256
    → value < 2 ^ (7 * i)
    → b % 128 * 2 ^ (7 * i) < 2 ^ 64
    → bit_or value (group b i) ≡ value + b % 128 * 2 ^ (7 * i)
or_group b i value hb hv fits =
    rw (low_seven_bits b hb, mod-eq_of_lt fits) (bit_or_disjoint (7 * i) (b % 128) value hv)

last_round :
    (rounds : ℕ) (encoded : List ℕ) (position i value v : ℕ)
    → get_elem? encoded position ≡ some v
    → v < 128
    → value < 2 ^ (7 * i)
    → v * 2 ^ (7 * i) < 2 ^ 64
    → read_var_loop (suc rounds) encoded position i value
      ≡ ok (value + v * 2 ^ (7 * i), position + 1)
unfolding read_var_loop
last_round rounds encoded position i value v e hv hb fits =
    rw (e, read_var_loop) (ground (arith, or_group v i value, top_bit v))

inner_round :
    (rounds : ℕ) (encoded : List ℕ) (position i value g : ℕ)
    → get_elem? encoded position ≡ some (g + 128)
    → g < 128
    → value < 2 ^ (7 * i)
    → g * 2 ^ (7 * i) < 2 ^ 64
    → read_var_loop (suc rounds) encoded position i value
      ≡ read_var_loop rounds encoded (position + 1) (i + 1) (value + g * 2 ^ (7 * i))
unfolding read_var_loop
inner_round rounds encoded position i value g e hi hb fits =
    let low : (g + 128) % 128 ≡ g = omega arith in
    let more : (bit_and (g + 128) 0x80 == 0) ≡ false = ground (arith, top_bit (g + 128)) in
    let value' : bit_or value (group (g + 128) i) ≡ value + g * 2 ^ (7 * i) =
      or_group (g + 128) i value (omega arith) hb (rw low fits) ∙ rw low in
    rw (e, read_var_loop, more) (rw value')

length-groups_one : (k v : ℕ) → v < 128 → groups k v ≡ v ∷ []
unfolding groups
length-groups_one zero v h = ground arith
length-groups_one (suc k) v h = ground arith

groups_more : (k v : ℕ) → 127 < v → groups (suc k) v ≡ (v % 128 + 128) ∷ groups k (v / 128)
unfolding groups
groups_more k v h = ground arith

split_group : (v i : ℕ) → v * 2 ^ (7 * i) ≡ v % 128 * 2 ^ (7 * i) + v / 128 * 2 ^ (7 * (i + 1))
split_group v i =
    omega (arith, seven_more (v / 128) i, ap (λ (t : ℕ). t * 2 ^ (7 * i)) (div-add-mod v 128))

-- The step of the induction below: the first group is read, and the others follow.
more_groups :
    (k rounds : ℕ) (encoded : List ℕ) (position i value v : ℕ) (rest : List ℕ)
    → drop position encoded ≡ groups (suc k) v ++ rest
    → v < 128 ^ suc (suc k)
    → value < 2 ^ (7 * i)
    → value + v * 2 ^ (7 * i) < 2 ^ 64
    → 127 < v
    → ((p w : ℕ)
        → drop p encoded ≡ groups k (v / 128) ++ rest
        → v / 128 < 128 ^ suc k
        → w < 2 ^ (7 * (i + 1))
        → w + v / 128 * 2 ^ (7 * (i + 1)) < 2 ^ 64
        → read_var_loop rounds encoded p (i + 1) w
          ≡ ok (w + v / 128 * 2 ^ (7 * (i + 1)), p + length (groups k (v / 128))))
    → read_var_loop (suc rounds) encoded position i value
      ≡ ok (value + v * 2 ^ (7 * i), position + length (groups (suc k) v))
more_groups k rounds encoded position i value v rest e hv hb fits big ih =
    let more = groups_more k v big in
    let (here, tail) =
      get_elem?-drop position encoded (v % 128 + 128) (groups k (v / 128) ++ rest) (rw more at e) in
    let fit : v % 128 * 2 ^ (7 * i) < 2 ^ 64 = omega (arith, split_group v i) in
    inner_round rounds encoded position i value (v % 128) here (omega arith) hb fit
    ∙ ih (position + 1) (value + v % 128 * 2 ^ (7 * i)) (rw add-one tail)
        (omega (arith, pow-suc 128 (suc k))) (omega (arith, next_bound))
        (omega (arith, split_group v i))
    ∙ ground (arith, split_group v i, more)
  where
    low_group_le : (t : ℕ) → v % 128 * t ≤ 127 * t
    low_group_le t = grind arith

    next_bound : value + v % 128 * 2 ^ (7 * i) < 2 ^ (7 * (i + 1))
    next_bound = grind (arith, seven_more 1 i, low_group_le (2 ^ (7 * i)))

-- `v` is what is left to read, from bit 7 * i on.
read_var_loop-groups :
    (k rounds : ℕ) (encoded : List ℕ) (position i value v : ℕ) (rest : List ℕ)
    → k < rounds
    → drop position encoded ≡ groups k v ++ rest
    → v < 128 ^ suc k
    → value < 2 ^ (7 * i)
    → value + v * 2 ^ (7 * i) < 2 ^ 64
    → read_var_loop rounds encoded position i value
      ≡ ok (value + v * 2 ^ (7 * i), position + length (groups k v))
read_var_loop-groups k zero encoded position i value v rest lt e hv hb fits = absurd (omega arith)
read_var_loop-groups zero (suc rounds) encoded position i value v rest lt e hv hb fits =
    let one = length-groups_one zero v hv in
    rw (ap length one) (
      last_round rounds encoded position i value v
        (get_elem?-drop position encoded v rest (rw one at e)).0 hv hb (omega arith))
read_var_loop-groups (suc k) (suc rounds) encoded position i value v rest lt e hv hb fits =
    elim (dec_lt 127 v) [
      | no small ↦
          let one = length-groups_one (suc k) v (omega arith) in
          rw (ap length one) (
            last_round rounds encoded position i value v
              (get_elem?-drop position encoded v rest (rw one at e)).0 (omega arith) hb
              (omega arith))
      | yes big ↦
          more_groups k rounds encoded position i value v rest e hv hb fits big
            (λ p w. read_var_loop-groups k rounds encoded p (i + 1) w (v / 128) rest (omega arith))
    ]

append_split :
    (v k : ℕ) (dst rest : List ℕ)
    → v < 128 ^ suc k
    → append_var64 dst v ++ rest ≡ dst ++ (groups k v ++ rest)
append_split v k dst rest h =
    rw (append_var64-groups k dst v h) (append_assoc dst (groups k v) rest)

-- readVar, with room for k + 1 groups, reads back the uint64 of at most that many groups that
-- appendVar64 put behind `dst`, whatever follows it, and stops exactly behind it.
pub read_var-append_var64 :
    (k maximum v : ℕ) (dst rest : List ℕ)
    → k < maximum
    → v < 128 ^ suc k
    → v < 2 ^ 64
    → read_var (append_var64 dst v ++ rest) (length dst) maximum
      ≡ ok (v, length (append_var64 dst v))
unfolding read_var
read_var-append_var64 k maximum v dst rest lt hv fits =
    rw (append_split v k dst rest hv, append_var64-groups k dst v hv)
      (read_var_loop-groups k maximum (dst ++ (groups k v ++ rest)) (length dst) 0 0 v rest lt
          (drop-length_append dst (groups k v ++ rest)) hv (omega arith) (omega arith)
        ∙ ground (arith, length-append dst (groups k v)))

pub read_var32-append_var32 :
    (v : ℕ) (dst rest : List ℕ)
    → v < 2 ^ 32
    → read_var (append_var32 dst v ++ rest) (length dst) 5 ≡ ok (v, length (append_var32 dst v))
unfolding append_var32
read_var32-append_var32 v dst rest h =
    read_var-append_var64 4 5 v dst rest (omega arith) (omega arith) (omega arith)

-- The slice of `value` out of what stands before and behind it.
pub slice_middle :
    (before value behind : List ℕ)
    → slice (before ++ (value ++ behind)) (length before) (length before + length value) ≡ value
slice_middle before value behind =
    let n : length before + length value - length before ≡ length value = omega arith in
    rw (n, drop-length_append before (value ++ behind)) (take-length_append value behind)

length_bytes_at_middle :
    (before value behind : List ℕ)
    → length value ≤ max_row_bytes
    → length_bytes_at (before ++ (value ++ behind)) (length value) (length before)
      ≡ ok (value, length before + length value)
unfolding length_bytes_at
length_bytes_at_middle before value behind small =
    rw (slice_middle before value behind)
      (ground (arith, length-append before (value ++ behind), length-append value behind))

fits_var32 : (value : List ℕ) → length value ≤ max_row_bytes → length value < 2 ^ 32
fits_var32 value small = omega arith

read_length_bytes_at :
    (encoded : List ℕ) (position len next : ℕ)
    → read_var encoded position 5 ≡ ok (len, next)
    → read_length_bytes encoded position ≡ length_bytes_at encoded len next
unfolding read_length_bytes
read_length_bytes_at encoded position len next e = rw (e, read_length_bytes)

-- For a value of at most maxRowBytes, appendLengthBytes succeeds, and readLengthBytes reads back
-- the bytes that it put behind `dst`, whatever follows them, and stops exactly behind them.
pub read_length_bytes-append_length_bytes :
    (dst value rest : List ℕ)
    → length value ≤ max_row_bytes
    → (out : List ℕ) × (append_length_bytes dst value ≡ ok out)
      × (read_length_bytes (out ++ rest) (length dst) ≡ ok (value, length out))
unfolding append_length_bytes
read_length_bytes-append_length_bytes dst value rest small = (
  append_var32 dst (length value) ++ value,
  rw (mod-eq_of_lt (fits_var32 value small)) (ground arith),
  rw (append_assoc (append_var32 dst (length value)) value rest) (
      read_length_bytes_at _ _ _ _
        (read_var32-append_var32 (length value) dst (value ++ rest) (omega arith))
      ∙ length_bytes_at_middle (append_var32 dst (length value)) value rest small
      ∙ rw (length-append (append_var32 dst (length value)) value)),
)

-- What is written does not depend on what stands before it.
pub append_var32-append :
    (dst : List ℕ) (v : ℕ) → v < 2 ^ 32 → append_var32 dst v ≡ dst ++ append_var32 [] v
unfolding append_var32
append_var32-append dst v h =
    append_var64-groups 4 dst v (omega arith)
    ∙ sym (ap (◌++◌ dst) (append_var64-groups 4 [] v (omega arith)))

pub length-append_var32 :
    (v : ℕ) → v < 2 ^ 32 → (1 ≤ length (append_var32 [] v)) × (length (append_var32 [] v) ≤ 5)
unfolding append_var32
length-append_var32 v h = rw (append_var64-groups 4 [] v (omega arith)) (length-groups 4 v)
