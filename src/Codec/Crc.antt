-- ===== src/Codec/Crc.antt =====
-- hash/crc32 with the Castagnoli table, digit by digit: the checksum of the record batches.
-- An element of the list is taken as the byte that it stands for.
use fluss_go.Prelude.{ℕ, zero, suc, ◌/◌, ◌%◌, ◌^◌, ◌<◌, ◌≡◌, refl, arith, List, [], ◌∷◌}
use fluss_go.Prelude.{◌==◌, if◌then◌else◌, Bool-cases, inl, inr}
use fluss_go.Prelude.Bits.{bit_xor, bit_xor-lt}

crc_step : ℕ → ℕ
crc_step c = if c % 2 == 1 then bit_xor (c / 2) 0x82f63b78 else c / 2

crc_steps : ℕ → ℕ → ℕ
unfolding crc_step
crc_steps zero c = c
crc_steps (suc n) c = crc_steps n (crc_step c)

crc_bytes : ℕ → List ℕ → ℕ
unfolding crc_steps
crc_bytes c [] = c
crc_bytes c (b ∷ bs) = crc_bytes (crc_steps 8 (bit_xor c (b % 256))) bs

-- crc32.Checksum(data, crc32.MakeTable(crc32.Castagnoli))
unfoldable pub checksum : List ℕ → ℕ
unfolding crc_bytes
checksum bs = bit_xor (crc_bytes 0xffffffff bs) 0xffffffff

-- The published check value, of the text "123456789".
checksum_check :
    checksum (b'1' ∷ b'2' ∷ b'3' ∷ b'4' ∷ b'5' ∷ b'6' ∷ b'7' ∷ b'8' ∷ b'9' ∷ []) ≡ 0xe3069283
unfolding checksum
checksum_check = refl

crc_step-lt : (c : ℕ) → c < 2 ^ 32 → crc_step c < 2 ^ 32
unfolding crc_step
crc_step-lt c h = elim (Bool-cases (c % 2 == 1)) [
  | inl e ↦ rw e (bit_xor-lt 32 (c / 2) 0x82f63b78 (omega arith) (omega arith))
  | inr e ↦ rw e (omega arith)
]

crc_steps-lt : (n c : ℕ) → c < 2 ^ 32 → crc_steps n c < 2 ^ 32
unfolding crc_steps
crc_steps-lt zero c h = h
crc_steps-lt (suc n) c h = crc_steps-lt n (crc_step c) (crc_step-lt c h)

crc_bytes-lt : (c : ℕ) (bs : List ℕ) → c < 2 ^ 32 → crc_bytes c bs < 2 ^ 32
unfolding crc_bytes
crc_bytes-lt c [] h = h
crc_bytes-lt c (b ∷ bs) h =
    crc_bytes-lt (crc_steps 8 (bit_xor c (b % 256))) bs
      (crc_steps-lt 8 (bit_xor c (b % 256)) (bit_xor-lt 32 c (b % 256) h (omega arith)))

pub checksum-lt : (bs : List ℕ) → checksum bs < 2 ^ 32
unfolding checksum
checksum-lt bs =
    bit_xor-lt 32 (crc_bytes 0xffffffff bs) 0xffffffff (crc_bytes-lt 0xffffffff bs (omega arith))
      (omega arith)
