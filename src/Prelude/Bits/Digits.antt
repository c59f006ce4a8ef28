-- ===== src/Prelude/Bits/Digits.antt =====
-- `|` of a number and a multiple of a power of two above it, and the size of a `^`.
-- Both go down the digits that the native operations stand for.
use Prim.Native.Nat.{ℕ, zero, suc, ◌+◌, ◌*◌, ◌/◌, ◌%◌, ◌^◌, ◌≤◌, ◌<◌, bit_or, bit_xor, max, differ}
use Prim.Native.Nat.{digits, bit_or-bitwise, bit_xor-bitwise}
use mathlib.Core.Path.{◌≡◌, ap}
use native.Mathlib.Omega.{arith}
use native.Mathlib.Nat.{pow-suc, le_refl}

abbrev or_digits : ℕ → ℕ → ℕ → ℕ
or_digits n a b = digits (λ y. y) max n a b

two_pow_suc : (q k : ℕ) → q * 2 ^ suc k ≡ 2 * (q * 2 ^ k)
two_pow_suc q k = omega (arith, ap (λ (t : ℕ). q * t) (pow-suc 2 k))

or_digits_disjoint : (n k q r : ℕ) → r ≤ n → r < 2 ^ k → or_digits n r (q * 2 ^ k) ≡ r + q * 2 ^ k
or_digits_disjoint zero k q zero h lt = omega arith
or_digits_disjoint zero k q (suc r) h lt = absurd (omega arith)
or_digits_disjoint (suc n) k q zero h lt = omega arith
or_digits_disjoint (suc n) zero q (suc r) h lt = absurd (omega arith)
or_digits_disjoint (suc n) (suc k) q (suc r) h lt =
    let half : q * 2 ^ suc k / 2 ≡ q * 2 ^ k = omega (arith, two_pow_suc q k) in
    rw half (
      omega (
        arith,
        two_pow_suc q k,
        pow-suc 2 k,
        or_digits_disjoint n k q (suc r / 2) (omega arith) (omega (arith, pow-suc 2 k)),
      ))

-- `r | q << k` is a sum if `r` has at most k bits.
pub bit_or_disjoint : (k q r : ℕ) → r < 2 ^ k → bit_or r (q * 2 ^ k) ≡ r + q * 2 ^ k
bit_or_disjoint k q r lt = rw bit_or-bitwise (or_digits_disjoint r k q r (le_refl r) lt)

abbrev xor_digits : ℕ → ℕ → ℕ → ℕ
xor_digits n a b = digits (λ y. y) differ n a b

differ_le_one : (x y : ℕ) → x < 2 → y < 2 → differ x y ≤ 1
differ_le_one zero y hx hy = omega arith
differ_le_one (suc x) zero hx hy = omega arith
differ_le_one (suc zero) (suc zero) hx hy = omega arith
differ_le_one (suc (suc x)) (suc y) hx hy = absurd (omega arith)
differ_le_one (suc x) (suc (suc y)) hx hy = absurd (omega arith)

xor_digits_lt : (n k a b : ℕ) → a ≤ n → a < 2 ^ k → b < 2 ^ k → xor_digits n a b < 2 ^ k
xor_digits_lt zero k a b h la lb = lb
xor_digits_lt (suc n) k zero b h la lb = lb
xor_digits_lt (suc n) zero (suc a) b h la lb = absurd (omega arith)
xor_digits_lt (suc n) (suc k) (suc a) b h la lb = omega (
  arith,
  pow-suc 2 k,
  differ_le_one (suc a % 2) (b % 2) (omega arith) (omega arith),
  xor_digits_lt n k (suc a / 2) (b / 2) (omega arith) (omega (arith, pow-suc 2 k))
      (omega (arith, pow-suc 2 k)),
)

-- `^` of two numbers of k bits has k bits.
pub bit_xor-lt : (k a b : ℕ) → a < 2 ^ k → b < 2 ^ k → bit_xor a b < 2 ^ k
bit_xor-lt k a b la lb = rw bit_xor-bitwise (xor_digits_lt a k a b (le_refl a) la lb)
