-- ===== src/Crc/Tests.antt =====
-- Runs of the checksum, and the theorems at concrete messages.
use chats.Prelude.{ℕ, ◌≡◌, ◌≢◌, refl, arith, some, none, List, [], ◌∷◌, ◌++◌, take}
use chats.Crc.{crc16_ccitt, crc_update}
use chats.Crc.Bitwise.{feed}
use chats.Crc.Equivalence.{AreBytes, crc16_ccitt-feed}
use chats.Crc.Detection.{crc16_ccitt-ne}

-- "123456789"
abbrev digits : List ℕ
digits = 0x31 ∷ 0x32 ∷ 0x33 ∷ 0x34 ∷ 0x35 ∷ 0x36 ∷ 0x37 ∷ 0x38 ∷ 0x39 ∷ []

-- The check value that the header file names.
check_value : crc16_ccitt digits 9 ≡ some 0x29b1
unfolding crc16_ccitt crc_update
check_value = refl

short_memory : crc16_ccitt digits 10 ≡ none
unfolding crc16_ccitt crc_update
short_memory = refl

digits-AreBytes : AreBytes 9 digits
digits-AreBytes = omega arith

crc16_ccitt-feed_example : crc16_ccitt digits 9 ≡ some (feed (take 9 digits) 0xffff)
crc16_ccitt-feed_example = crc16_ccitt-feed digits 9 digits-AreBytes

crc16_ccitt-ne_example :
    crc16_ccitt (digits ++ (7 ∷ digits)) 19 ≢ crc16_ccitt (digits ++ (8 ∷ digits)) 19
crc16_ccitt-ne_example =
    crc16_ccitt-ne digits digits 7 8 digits-AreBytes digits-AreBytes (omega arith) (omega arith)
      (omega arith)
