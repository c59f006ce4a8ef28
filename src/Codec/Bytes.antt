-- ===== src/Codec/Bytes.antt =====
-- encoding/binary on byte slices: fixed-width fields, written in place and read at a position.
use fluss_go.Prelude.{ℕ, zero, suc, ◌+◌, ◌*◌, ◌/◌, ◌%◌, ◌^◌, ◌<◌, ◌≡◌, refl, ap, arith}
use fluss_go.Prelude.{List, [], ◌∷◌, ◌++◌, length, take, drop}
use fluss_go.Codec.Varint.{slice}
use fluss_go.Codec.Varint.RoundTrip.{slice_middle}
use native.Mathlib.Nat.{pow-suc}

-- The bytes that LittleEndian.PutUint16, PutUint32 and PutUint64 write, for a width of 2, 4, 8.
abbrev pub little : ℕ → ℕ → List ℕ
little zero v = []
little (suc n) v = v % 256 ∷ little n (v / 256)

abbrev pub from_little : List ℕ → ℕ
from_little [] = 0
from_little (b ∷ bs) = b + 256 * from_little bs

-- LittleEndian.Uint16, Uint32 and Uint64 of encoded[position:].
unfoldable pub read_little : ℕ → List ℕ → ℕ → ℕ
read_little width encoded position = from_little (slice encoded position (position + width))

-- LittleEndian.PutUintN(encoded[position:], …), where the slice is long enough.
unfoldable pub put_at : ℕ → List ℕ → List ℕ → List ℕ
put_at position field encoded =
    take position encoded ++ (field ++ drop (position + length field) encoded)

-- appendLittle: the low `width` bytes of a uint64.
unfoldable pub append_little : List ℕ → ℕ → ℕ → List ℕ
append_little dst v width = dst ++ take width (little 8 v)

pub length-little : (n v : ℕ) → length (little n v) ≡ n
length-little zero v = refl
length-little (suc n) v = ap suc (length-little n (v / 256))

pub from_little-little : (n v : ℕ) → v < 256 ^ n → from_little (little n v) ≡ v
from_little-little zero v h = omega arith
from_little-little (suc n) v h =
    omega (arith, from_little-little n (v / 256) (omega (arith, pow-suc 256 n)))

-- A field is read back where it was written, whatever stands before and behind it.
pub read_little-little :
    (n v : ℕ) (before behind : List ℕ)
    → v < 256 ^ n
    → read_little n (before ++ (little n v ++ behind)) (length before) ≡ v
unfolding read_little
read_little-little n v before behind h =
    let e = slice_middle before (little n v) behind in
    let e' = rw length-little at e in rw e' (from_little-little n v h)
