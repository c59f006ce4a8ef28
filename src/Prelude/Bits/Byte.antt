-- ===== src/Prelude/Bits/Byte.antt =====
-- Masks on one byte: two functions that agree on every byte, which evaluation decides.
use Prim.Native.Nat.{ℕ, zero, suc, ◌+◌, ◌*◌, ◌/◌, ◌%◌, ◌<◌, bit_and, bit_or}
use mathlib.Core.Path.{◌≡◌, refl}
use mathlib.Core.Bool.{Bool, true, ◌&&◌}
use native.Mathlib.Omega.{arith}
use fluss_go.Prelude.Tests.{◌==◌, Bool-cases}
use mathlib.Core.Logic.{inl, inr}

module _ (f g : ℕ → ℕ) where
  agree : ℕ → Bool
  agree zero = true
  agree (suc bound) = agree bound && (f bound == g bound)

  agree_below : (bound b : ℕ) → agree bound ≡ true → b < bound → f b ≡ g b
  unfolding agree
  agree_below zero b = λ same below. absurd (omega arith)
  agree_below (suc bound) b = elim (Bool-cases (agree bound)) [
    | inr differs ↦ rw differs (λ same below. cc)
    | inl yes_below ↦ rw yes_below (λ same below. elim (Bool-cases (b == bound)) [
      | inl here ↦
          let e : b ≡ bound = ground arith in
          let equal : f bound ≡ g bound = ground arith in rw e equal
      | inr there ↦ agree_below bound b yes_below (ground arith)
    ])
  ]

pub low_seven_bits : (b : ℕ) → b < 256 → bit_and b 0x7f ≡ b % 128
unfolding agree
low_seven_bits b below = agree_below (λ x. bit_and x 0x7f) (λ x. x % 128) 256 b refl below

pub top_bit : (b : ℕ) → b < 256 → bit_and b 0x80 ≡ b / 128 * 128
unfolding agree
top_bit b below = agree_below (λ x. bit_and x 0x80) (λ x. x / 128 * 128) 256 b refl below

pub set_top_bit : (b : ℕ) → b < 256 → bit_or b 0x80 ≡ b % 128 + 128
unfolding agree
set_top_bit b below = agree_below (λ x. bit_or x 0x80) (λ x. x % 128 + 128) 256 b refl below
