-- ===== src/Crc/Bitwise.antt =====
-- The checksum as its polynomial defines it, a bit at a time: an independent reference for the
-- table-driven loop. The header file names the polynomial 0x1021 and the start value 0xFFFF.
use chats.Prelude.{ℕ, zero, suc, ◌*◌, ◌%◌, ◌^◌, List, [], ◌∷◌, bit_xor, leb, if◌then◌else◌}

-- One bit: shift left, and reduce by the polynomial if a bit falls out.
unfoldable pub shift_bit : ℕ → ℕ
shift_bit c = if leb (2 ^ 15) c then bit_xor (c * 2 % 2 ^ 16) 0x1021 else c * 2 % 2 ^ 16

unfoldable pub shift_bits : ℕ → ℕ → ℕ
unfolding shift_bit
shift_bits zero c = c
shift_bits (suc n) c = shift_bits n (shift_bit c)

-- One byte enters at the top of the register.
unfoldable pub feed_byte : ℕ → ℕ → ℕ
unfolding shift_bits
feed_byte c byte = shift_bits 8 (bit_xor c (byte * 2 ^ 8))

unfoldable pub feed : List ℕ → ℕ → ℕ
unfolding feed_byte
feed [] c = c
feed (byte ∷ bytes) c = feed bytes (feed_byte c byte)
