-- ===== src/Bucket.antt =====
-- pkg/fgo/bucket.go: the bucket of a key, by Fluss's Murmur3 variant, and the sorted bucket list.
-- A uint32 is a number below 2 ^ 32, with its wrap-around written out.
pub mod Bounds
pub mod Sorted
use fluss_go.Prelude.{ℕ, zero, suc, ◌+◌, ◌-◌, ◌*◌, ◌/◌, ◌%◌, ◌^◌, List, [], ◌∷◌, length}
use fluss_go.Prelude.{ltb, ◌==◌, ◌||◌, if◌then◌else◌}
use fluss_go.Prelude.Bits.{bit_or, bit_xor}
use fluss_go.Prelude.Errors.{Result, ok, err, err_invalid_config}
use fluss_go.Codec.Bytes.{from_little}

-- bits.RotateLeft32(x, k), for 0 < k < 32
rotate_left32 : ℕ → ℕ → ℕ
rotate_left32 x k = bit_or (x * 2 ^ k % 2 ^ 32) (x / 2 ^ (32 - k))

unfoldable pub murmur_mix_hash : ℕ → ℕ → ℕ
unfolding rotate_left32
murmur_mix_hash hash value =
    let scaled = value * 0xcc9e2d51 % 2 ^ 32 in
    let mixed = rotate_left32 scaled 15 * 0x1b873593 % 2 ^ 32 in
    (rotate_left32 (bit_xor hash mixed) 13 * 5 + 0xe6546b64) % 2 ^ 32

unfoldable pub murmur_final : ℕ → ℕ
murmur_final hash =
    let a = bit_xor hash (hash / 2 ^ 16) in
    let b = a * 0x85ebca6b % 2 ^ 32 in
    let c = bit_xor b (b / 2 ^ 13) in let d = c * 0xc2b2ae35 % 2 ^ 32 in bit_xor d (d / 2 ^ 16)

-- uint32(int32(int8(tail)))
sign_extend : ℕ → ℕ
sign_extend b = if ltb b 128 then b else b + 2 ^ 32 - 256

-- The loop over value[aligned:].
murmur_tail : ℕ → List ℕ → ℕ
unfolding murmur_mix_hash sign_extend
murmur_tail hash [] = hash
murmur_tail hash (b ∷ bs) = murmur_tail (murmur_mix_hash hash (sign_extend b)) bs

-- The loop over the aligned words, and then the tail of at most three bytes.
murmur_words : ℕ → List ℕ → ℕ
unfolding murmur_tail
murmur_words hash (a ∷ b ∷ c ∷ d ∷ rest) =
    murmur_words (murmur_mix_hash hash (from_little (a ∷ b ∷ c ∷ d ∷ []))) rest
murmur_words hash tail = murmur_tail hash tail

murmur_bytes : List ℕ → ℕ → ℕ
unfolding murmur_words murmur_final
murmur_bytes value seed = murmur_final (bit_xor (murmur_words seed value) (length value % 2 ^ 32))

-- -int32(hash) as a uint32 is 2 ^ 32 - hash.
unfoldable pub murmur_int : ℕ → ℕ
unfolding murmur_mix_hash murmur_final
murmur_int value =
    let hash = murmur_final (bit_xor (murmur_mix_hash 0 value) 4) in
    if ltb hash (2 ^ 31) then hash else if hash == 2 ^ 31 then 0 else 2 ^ 32 - hash

-- The bucket count is the length of a list of buckets, hence not negative.
unfoldable pub fluss_bucket : List ℕ → ℕ → Result ℕ
unfolding murmur_bytes murmur_int
fluss_bucket key bucket_count =
    if length key == 0 || bucket_count == 0
    then err err_invalid_config
    else ok (murmur_int (murmur_bytes key 42) % (bucket_count % 2 ^ 32))
