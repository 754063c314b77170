-- ===== src/Crc/Detection.antt =====
-- Which corruptions the checksum of chats/p2p/crc/crc16-ccitt.c detects.
use chats.Prelude.{
  ℕ, zero, suc, ◌*◌, ◌%◌, ◌^◌, ◌<◌, ◌≡◌, ◌≢◌, refl, sym, ap, ◌∙◌, some, List, [], ◌∷◌, ◌++◌,
  bit_xor, arith, length, take,
}
use chats.Prelude.Bits.{
  bit_xor-zero, bit_xor_self, bit_xor-lt, bit_xor-parity, eq_of_bit_xor-zero, bit_xor_comm,
}
use chats.Crc.{crc16_ccitt}
use chats.Crc.Bitwise.{shift_bit, shift_bits, feed_byte, feed}
use chats.Crc.Equivalence.{
  IsWord, AreBytes, bit_xor_exchange, shift_bit-lt, shift_bits-lt, shift_bits-bit_xor,
  crc16_ccitt-feed,
}

shift_bit_kernel : (c : ℕ) → IsWord c → shift_bit c ≡ 0 → c ≡ 0
unfolding shift_bit
shift_bit_kernel c h e = ground (arith, bit_xor-parity (c * 2 % 2 ^ 16) 0x1021)

shift_bits_kernel : (n c : ℕ) → IsWord c → shift_bits n c ≡ 0 → c ≡ 0
unfolding shift_bits
shift_bits_kernel zero c h e = e
shift_bits_kernel (suc n) c h e =
    shift_bit_kernel c h (shift_bits_kernel n (shift_bit c) (shift_bit-lt c) e)

-- The register before `n` shifts is determined by the register after them.
shift_bits_injective : (n a b : ℕ) → IsWord a → IsWord b → shift_bits n a ≡ shift_bits n b → a ≡ b
shift_bits_injective n a b p q e = eq_of_bit_xor-zero a b (
    shift_bits_kernel n (bit_xor a b) (bit_xor-lt 16 a b p q)
      (shift_bits-bit_xor n a b p q ∙ ap (bit_xor (shift_bits n a)) (sym e) ∙ bit_xor_self _))

bit_xor_cancel : (a b c : ℕ) → bit_xor a c ≡ bit_xor b c → a ≡ b
bit_xor_cancel a b c e = eq_of_bit_xor-zero a b (
    sym (
      bit_xor_exchange a c b c
      ∙ ap (bit_xor (bit_xor a b)) (bit_xor_self c)
      ∙ bit_xor-zero (bit_xor a b))
    ∙ ap (λ t. bit_xor t (bit_xor b c)) e
    ∙ bit_xor_self (bit_xor b c))

high_byte : (b : ℕ) → b < 256 → IsWord (b * 2 ^ 8)
high_byte b h = omega arith

pub feed_byte-lt : (c b : ℕ) → IsWord c → b < 256 → IsWord (feed_byte c b)
unfolding feed_byte
feed_byte-lt c b p q =
    shift_bits-lt 8 (bit_xor c (b * 2 ^ 8)) (bit_xor-lt 16 c (b * 2 ^ 8) p (high_byte b q))

-- A byte is a permutation of the register, and a register a permutation of the byte's effect.
feed_byte_injective :
    (c c' b : ℕ) → IsWord c → IsWord c' → b < 256 → feed_byte c b ≡ feed_byte c' b → c ≡ c'
unfolding feed_byte
feed_byte_injective c c' b p p' q e = bit_xor_cancel c c' (b * 2 ^ 8) (
    shift_bits_injective 8 _ _ (bit_xor-lt 16 c _ p (high_byte b q))
      (bit_xor-lt 16 c' _ p' (high_byte b q)) e)

feed_byte_injective_byte :
    (c b b' : ℕ) → IsWord c → b < 256 → b' < 256 → feed_byte c b ≡ feed_byte c b' → b ≡ b'
unfolding feed_byte
feed_byte_injective_byte c b b' p q q' e =
    let same =
      shift_bits_injective 8 _ _ (bit_xor-lt 16 c _ p (high_byte b q))
        (bit_xor-lt 16 c _ p (high_byte b' q')) e in
    let shifted : b * 2 ^ 8 ≡ b' * 2 ^ 8 =
      bit_xor_cancel (b * 2 ^ 8) (b' * 2 ^ 8) c
        (bit_xor_comm (b * 2 ^ 8) c ∙ same ∙ bit_xor_comm c (b' * 2 ^ 8)) in
    omega arith

feed-lt :
    (bytes : List ℕ) (c : ℕ) → AreBytes (length bytes) bytes → IsWord c → IsWord (feed bytes c)
unfolding feed
feed-lt [] c h p = p
feed-lt (b ∷ bytes) c h p = feed-lt bytes (feed_byte c b) h.1 (feed_byte-lt c b p h.0)

feed_injective :
    (bytes : List ℕ) (c c' : ℕ)
    → AreBytes (length bytes) bytes
    → IsWord c
    → IsWord c'
    → feed bytes c ≡ feed bytes c'
    → c ≡ c'
unfolding feed
feed_injective [] c c' h p p' e = e
feed_injective (b ∷ bytes) c c' h p p' e = feed_byte_injective c c' b p p' h.0 (
    feed_injective bytes (feed_byte c b) (feed_byte c' b) h.1 (feed_byte-lt c b p h.0)
      (feed_byte-lt c' b p' h.0) e)

feed-append : (xs ys : List ℕ) (c : ℕ) → feed (xs ++ ys) c ≡ feed ys (feed xs c)
unfolding feed
feed-append [] ys c = refl
feed-append (x ∷ xs) ys c = feed-append xs ys (feed_byte c x)

take-length : (xs : List ℕ) → take (length xs) xs ≡ xs
take-length [] = refl
take-length (x ∷ xs) = ap (◌∷◌ x) (take-length xs)

AreBytes-append :
    (xs ys : List ℕ)
    → AreBytes (length xs) xs
    → AreBytes (length ys) ys
    → AreBytes (length (xs ++ ys)) (xs ++ ys)
AreBytes-append [] ys p q = q
AreBytes-append (x ∷ xs) ys p q = (p.0, AreBytes-append xs ys p.1 q)

crc16_ccitt-whole :
    (bytes : List ℕ)
    → AreBytes (length bytes) bytes
    → crc16_ccitt bytes (length bytes) ≡ some (feed bytes 0xffff)
crc16_ccitt-whole bytes h =
    crc16_ccitt-feed bytes (length bytes) h ∙ ap (λ t. some (feed t 0xffff)) (take-length bytes)

-- Two messages of bytes that differ in exactly one byte, at any place and in any way, have
-- different checksums.
pub crc16_ccitt-ne :
    (before after : List ℕ) (b b' : ℕ)
    → AreBytes (length before) before
    → AreBytes (length after) after
    → b < 256
    → b' < 256
    → b ≢ b'
    → crc16_ccitt (before ++ (b ∷ after)) (length (before ++ (b ∷ after)))
      ≢ crc16_ccitt (before ++ (b' ∷ after)) (length (before ++ (b' ∷ after)))
unfolding feed
crc16_ccitt-ne before after b b' h k p p' ne e =
    let start = feed-lt before 0xffff h (omega arith) in
    let whole = λ (x : ℕ) (q : x < 256).
      crc16_ccitt-whole (before ++ (x ∷ after)) (AreBytes-append before (x ∷ after) h (q, k))
      ∙ ap some (feed-append before (x ∷ after) 0xffff) in
    let chained = sym (whole b p) ∙ e ∙ whole b' p' in
    let same : feed (b ∷ after) (feed before 0xffff) ≡ feed (b' ∷ after) (feed before 0xffff) =
      cc (chained) in
    ne (
      feed_byte_injective_byte (feed before 0xffff) b b' start p p'
        (feed_injective after _ _ k (feed_byte-lt _ b start p) (feed_byte-lt _ b' start p') same))
