-- ===== src/Prelude/Bits.antt =====
-- Bit operations as arithmetic.
mod Byte
mod Digits
pub use Byte.*
pub use Digits.*
pub use Prim.Native.Nat.{bit_and, bit_or, bit_xor}
