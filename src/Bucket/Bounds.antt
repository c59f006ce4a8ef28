-- ===== src/Bucket/Bounds.antt =====
-- Every hash is a non-negative int32, and every bucket lies below the count.
use fluss_go.Prelude.{ℕ, ◌*◌, ◌/◌, ◌%◌, ◌^◌, ◌<◌, ◌≡◌, ◌≢◌, arith, List, [], ◌∷◌, refl}
use fluss_go.Prelude.Bits.{bit_xor, bit_xor-lt}
use fluss_go.Prelude.Errors.{ok}
use fluss_go.Bucket.{murmur_mix_hash, murmur_final, murmur_int, murmur_bytes, fluss_bucket}
use native.Mathlib.Nat.{mod-lt, mod-eq_of_lt}

murmur_final-lt : (hash : ℕ) → murmur_final hash < 2 ^ 32
unfolding murmur_final
murmur_final-lt hash =
    let a = bit_xor hash (hash / 2 ^ 16) in
    let b = a * 0x85ebca6b % 2 ^ 32 in
    let c = bit_xor b (b / 2 ^ 13) in
    let d = c * 0xc2b2ae35 % 2 ^ 32 in bit_xor-lt 32 d (d / 2 ^ 16) (omega arith) (omega arith)

-- murmurInt gives a number that is not negative as an int32, for every value.
pub murmur_int-lt : (value : ℕ) → murmur_int value < 2 ^ 31
unfolding murmur_int
murmur_int-lt value = ground (arith, murmur_final-lt (bit_xor (murmur_mix_hash 0 value) 4))

-- A key that is not empty has a bucket below the count, for a count from 1 to 2^31 - 1.
pub fluss_bucket-lt :
    (key : List ℕ) (bucket_count : ℕ)
    → key ≢ []
    → 0 < bucket_count
    → bucket_count < 2 ^ 31
    → (bucket : ℕ) × (fluss_bucket key bucket_count ≡ ok bucket) × (bucket < bucket_count)
unfolding fluss_bucket
fluss_bucket-lt [] n h pos fits = absurd (h refl)
fluss_bucket-lt (k ∷ ks) n h pos fits =
    let wrap : n % 2 ^ 32 ≡ n = mod-eq_of_lt (omega arith) in
    (
      murmur_int (murmur_bytes (k ∷ ks) 42) % n,
      rw wrap (ground arith),
      mod-lt (murmur_int (murmur_bytes (k ∷ ks) 42)) pos,
    )
