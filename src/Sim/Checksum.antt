-- ===== src/Sim/Checksum.antt =====
-- `calculateChecksum` of src/sim.cpp, the same text in `Writer` and `Reader`: a CRC-32, bit by
-- bit.
pub mod Laws
use sim_library_v.Prelude.{ℕ, zero, suc, ◌-◌, ◌/◌, ◌^◌, bit_and, bit_xor, List, [], ◌∷◌, u32, not32}

-- `CHECKSUM_DISABLED`
abbrev pub checksum_disabled : ℕ
checksum_disabled = 0xFFFFFFFF

abbrev pub polynomial : ℕ
polynomial = 0xEDB88320

-- `crc = (crc >> 1) ^ (0xEDB88320 & -(crc & 1))`
pub crc_bit : ℕ → ℕ
crc_bit crc = bit_xor (crc / 2) (bit_and polynomial (u32 (2 ^ 32 - bit_and crc 1)))

-- The inner loop, with `n` rounds left.
pub crc_bits : ℕ → ℕ → ℕ
crc_bits zero crc = crc
crc_bits (suc n) crc = crc_bits n (crc_bit crc)

-- The outer loop over the bytes left.
pub crc_loop : ℕ → List ℕ → ℕ
crc_loop crc [] = crc
crc_loop crc (byte ∷ bytes) = crc_loop (crc_bits 8 (bit_xor crc byte)) bytes

unfoldable pub calculate_checksum : List ℕ → ℕ
unfolding crc_loop crc_bits crc_bit
calculate_checksum bytes = not32 (crc_loop 0xFFFFFFFF bytes)
