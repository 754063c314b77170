-- ===== src/Crc/Equivalence.antt =====
-- The table-driven loop computes the bitwise checksum.
use chats.Prelude.{
  ℕ, zero, suc, ◌*◌, ◌/◌, ◌%◌, ◌^◌, ◌<◌, ◌≡◌, refl, sym, ap, ◌∙◌, true, some, inl, inr, Bool-cases,
  leb→le, List, [], ◌∷◌, ◌==◌, ==_iff, bit_xor, arith, get_or, take, leb,
}
use chats.Prelude.Bits.{
  zero-bit_xor, bit_xor-zero, bit_xor_comm, bit_xor_assoc, bit_xor-double, bit_xor-shift,
  bit_xor-lt, bit_xor-div, bit_xor-mod, bit_xor-fields,
}
use chats.Prelude.Range.{holds_below, at_of_holds_below}
use chats.Crc.{crc_16_ccitt_table, crc_update, crc_loop, crc16_ccitt}
use chats.Crc.Bitwise.{shift_bit, shift_bits, feed_byte, feed}

abbrev pub IsWord : ℕ → Type 0
IsWord c = c < 2 ^ 16

-- Two sums of two parts, regrouped.
pub bit_xor_exchange :
    (p q r s : ℕ) → bit_xor (bit_xor p q) (bit_xor r s) ≡ bit_xor (bit_xor p r) (bit_xor q s)
bit_xor_exchange p q r s =
    bit_xor_assoc p q (bit_xor r s)
    ∙ ap (bit_xor p)
        (sym (bit_xor_assoc q r s) ∙ ap (λ t. bit_xor t s) (bit_xor_comm q r) ∙ bit_xor_assoc r q s)
    ∙ sym (bit_xor_assoc p r (bit_xor q s))

-- The bit that falls out, times the polynomial.
poly : ℕ → ℕ
poly b = b * 0x1021

poly-bit_xor : (a b : ℕ) → a < 2 → b < 2 → poly (bit_xor a b) ≡ bit_xor (poly a) (poly b)
unfolding poly
poly-bit_xor zero b p q = rw (zero-bit_xor b) (sym (zero-bit_xor _))
poly-bit_xor (suc zero) zero p q = refl
poly-bit_xor (suc zero) (suc zero) p q = refl
poly-bit_xor (suc zero) (suc (suc b)) p q = absurd (omega arith)
poly-bit_xor (suc (suc a)) b p q = absurd (omega arith)

shift_bit_lem : (c : ℕ) → IsWord c → shift_bit c ≡ bit_xor (c % 2 ^ 15 * 2) (poly (c / 2 ^ 15))
unfolding shift_bit poly
shift_bit_lem c h = elim (Bool-cases (leb (2 ^ 15) c)) [
  | inl out ↦
      let top : c / 2 ^ 15 ≡ 1 = omega (arith, leb→le (2 ^ 15) c out) in
      let low : c * 2 % 2 ^ 16 ≡ c % 2 ^ 15 * 2 = omega arith in rw (out, top, low)
  | inr stay ↦
      let top : c / 2 ^ 15 ≡ 0 = ground arith in
      let low : c * 2 % 2 ^ 16 ≡ c % 2 ^ 15 * 2 = omega arith in
      rw (stay, top, low) (sym (bit_xor-zero _))
]

pub shift_bit-lt : (c : ℕ) → IsWord (shift_bit c)
unfolding shift_bit
shift_bit-lt c = elim (Bool-cases (leb (2 ^ 15) c)) [
  | inl out ↦ rw out (bit_xor-lt 16 (c * 2 % 2 ^ 16) 0x1021 (omega arith) (omega arith))
  | inr stay ↦ rw stay (omega arith)
]

-- A shift is linear.
pub shift_bit-bit_xor :
    (a b : ℕ) → IsWord a → IsWord b → shift_bit (bit_xor a b) ≡ bit_xor (shift_bit a) (shift_bit b)
shift_bit-bit_xor a b p q =
    rw
      (
        shift_bit_lem (bit_xor a b) (bit_xor-lt 16 a b p q),
        shift_bit_lem a p,
        shift_bit_lem b q,
        bit_xor-mod 15 a b,
        bit_xor-div 15 a b,
        ← bit_xor-double (a % 2 ^ 15) (b % 2 ^ 15),
        poly-bit_xor (a / 2 ^ 15) (b / 2 ^ 15) (omega arith) (omega arith),
      )
      (bit_xor_exchange (a % 2 ^ 15 * 2) (b % 2 ^ 15 * 2) (poly (a / 2 ^ 15)) (poly (b / 2 ^ 15)))

pub shift_bits-lt : (n c : ℕ) → IsWord c → IsWord (shift_bits n c)
unfolding shift_bits
shift_bits-lt zero c h = h
shift_bits-lt (suc n) c h = shift_bits-lt n (shift_bit c) (shift_bit-lt c)

pub shift_bits-bit_xor :
    (n a b : ℕ)
    → IsWord a
    → IsWord b
    → shift_bits n (bit_xor a b) ≡ bit_xor (shift_bits n a) (shift_bits n b)
unfolding shift_bits
shift_bits-bit_xor zero a b p q = refl
shift_bits-bit_xor (suc n) a b p q =
    rw (shift_bit-bit_xor a b p q)
      (shift_bits-bit_xor n (shift_bit a) (shift_bit b) (shift_bit-lt a) (shift_bit-lt b))

-- Eight shifts of the high byte are the table, and of the low byte a plain shift.
high_table : holds_below (λ i. shift_bits 8 (i * 2 ^ 8) == get_or crc_16_ccitt_table i 0) 256 ≡ true
unfolding holds_below shift_bits shift_bit
high_table = refl

low_table : holds_below (λ i. shift_bits 8 i == i * 2 ^ 8) 256 ≡ true
unfolding holds_below shift_bits shift_bit
low_table = refl

shift_bits_high : (i : ℕ) → i < 256 → shift_bits 8 (i * 2 ^ 8) ≡ get_or crc_16_ccitt_table i 0
shift_bits_high i h = (==_iff _ _).0 (at_of_holds_below _ 256 high_table h)

shift_bits_low : (i : ℕ) → i < 256 → shift_bits 8 i ≡ i * 2 ^ 8
shift_bits_low i h = (==_iff _ _).0 (at_of_holds_below _ 256 low_table h)

-- One round of the loop is one byte of the bitwise checksum.
pub crc_update-feed_byte : (c b : ℕ) → IsWord c → b < 256 → crc_update c b ≡ feed_byte c b
unfolding crc_update feed_byte
crc_update-feed_byte c b p q =
    let hi = c / 2 ^ 8 in
    let lo = c % 2 ^ 8 in
    let i = bit_xor hi b in
    let in_table : i < 256 = bit_xor-lt 8 hi b (omega arith) q in
    let entry : IsWord (get_or crc_16_ccitt_table i 0) =
      rw (← shift_bits_high i in_table) (shift_bits-lt 8 (i * 2 ^ 8) (omega arith)) in
    let fields : c ≡ bit_xor (hi * 2 ^ 8) lo =
      sym (bit_xor-fields 8 hi lo (omega arith) ∙ omega arith) in
    let input : bit_xor c (b * 2 ^ 8) ≡ bit_xor (i * 2 ^ 8) lo =
      ap (λ t. bit_xor t (b * 2 ^ 8)) fields
      ∙ bit_xor_assoc (hi * 2 ^ 8) lo (b * 2 ^ 8)
      ∙ ap (bit_xor (hi * 2 ^ 8)) (bit_xor_comm lo (b * 2 ^ 8))
      ∙ sym (bit_xor_assoc (hi * 2 ^ 8) (b * 2 ^ 8) lo)
      ∙ ap (λ t. bit_xor t lo) (bit_xor-shift 8 hi b) in
    let shifted : c * 2 ^ 8 % 2 ^ 16 ≡ lo * 2 ^ 8 = omega arith in
    let small : get_or crc_16_ccitt_table i 0 % 2 ^ 16 ≡ get_or crc_16_ccitt_table i 0 =
      omega arith in
    bit_xor-mod 16 (c * 2 ^ 8) (get_or crc_16_ccitt_table i 0)
    ∙ rw (shifted, small, input, shift_bits-bit_xor 8 (i * 2 ^ 8) lo (omega arith) (omega arith))
        (rw (shift_bits_high i in_table, shift_bits_low lo (omega arith))
          (bit_xor_comm (lo * 2 ^ 8) (get_or crc_16_ccitt_table i 0)))

pub crc_update-lt : (c b : ℕ) → IsWord (crc_update c b)
unfolding crc_update
crc_update-lt c b = omega arith

-- Memory of which the first `len` bytes can be read.
abbrev pub AreBytes : ℕ → List ℕ → Type 0
AreBytes zero bytes = Unit
AreBytes (suc n) [] = ⊥
AreBytes (suc n) (b ∷ bytes) = (b < 256) × AreBytes n bytes

crc_loop-feed :
    (len : ℕ) (bytes : List ℕ) (c : ℕ)
    → AreBytes len bytes
    → IsWord c
    → crc_loop len bytes c ≡ some (feed (take len bytes) c)
unfolding crc_loop feed
crc_loop-feed zero bytes c h p = refl
crc_loop-feed (suc len) [] c h p = absurd h
crc_loop-feed (suc len) (b ∷ bytes) c h p =
    crc_loop-feed len bytes (crc_update c b) h.1 (crc_update-lt c b)
    ∙ ap (λ t. some (feed (take len bytes) t)) (crc_update-feed_byte c b p h.0)

-- `crc16_ccitt` over `len` readable bytes returns the bitwise CRC of those bytes: polynomial
-- 0x1021, start value 0xFFFF, high bit first.
pub crc16_ccitt-feed :
    (bytes : List ℕ) (len : ℕ)
    → AreBytes len bytes
    → crc16_ccitt bytes len ≡ some (feed (take len bytes) 0xffff)
unfolding crc16_ccitt
crc16_ccitt-feed bytes len h = crc_loop-feed len bytes 0xffff h (omega arith)
