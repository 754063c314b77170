-- ===== src/Protocol/Tests.antt =====
-- Runs of the packet functions, and the theorems at concrete packets.
use chats.Prelude.{ℕ, ◌+◌, ◌≡◌, refl, arith, Option, some, none, [], ◌∷◌}
use chats.Crc.{crc16_ccitt, crc_update}
use chats.Protocol.{Header, Handler, p2p_validate_header, p2p_utilize_packet, signature}
use chats.Protocol.Validate.{Verdict, p2p_validate_header-Verdict}
use chats.Protocol.Utilize.{Outcome, p2p_utilize_packet-Outcome}
use chats.Protocol.Stream.{Packet, IsWellFormed, packet_bytes, read_header-packet_bytes}

abbrev accept_header : Header
accept_header = record {
  signature = signature;
  cmd = 7;
  length = 1;
  crc_header = 0x8df7;
  crc_data = 0x8df7;
}

abbrev accept : Packet
accept = record { header = accept_header; body = 0 ∷ [] }

accept-IsWellFormed : IsWellFormed accept
accept-IsWellFormed = omega arith

-- The checksum of the body, where the header says that it stands.
abbrev body_checked : Packet
body_checked = record { header = record accept_header { crc_data = 0xe1f0 }; body = 0 ∷ [] }

abbrev counting : ℕ → Option (Handler ℕ)
counting cmd = some (λ body n. (0, n + 1))

accepted : p2p_utilize_packet (some (packet_bytes accept [])) counting 4 ≡ some (0, 5)
unfolding p2p_utilize_packet p2p_validate_header packet_bytes crc16_ccitt crc_update
accepted = refl

body_checksum : crc16_ccitt (0 ∷ []) 1 ≡ some 0xe1f0
unfolding crc16_ccitt crc_update
body_checksum = refl

-- A packet that carries the checksum of its body is refused.
refused : p2p_utilize_packet (some (packet_bytes body_checked [])) counting 4 ≡ some (0x0200, 4)
unfolding p2p_utilize_packet p2p_validate_header packet_bytes crc16_ccitt crc_update
refused = refl

-- NULL counts as valid, and is read.
null_header : p2p_validate_header none ≡ some 0
unfolding p2p_validate_header
null_header = refl

null_packet : p2p_utilize_packet none counting 4 ≡ none
unfolding p2p_utilize_packet p2p_validate_header
null_packet = refl

p2p_validate_header-Verdict_example :
    Verdict
      (packet_bytes accept [])
      accept_header
      (p2p_validate_header (some (packet_bytes accept [])))
p2p_validate_header-Verdict_example =
    p2p_validate_header-Verdict (packet_bytes accept []) accept_header (0 ∷ [])
      (read_header-packet_bytes accept [] accept-IsWellFormed)

p2p_utilize_packet-Outcome_example :
    Outcome
      (packet_bytes accept [])
      accept_header
      (0 ∷ [])
      counting
      4
      (p2p_utilize_packet (some (packet_bytes accept [])) counting 4)
p2p_utilize_packet-Outcome_example =
    p2p_utilize_packet-Outcome (packet_bytes accept []) counting 4 accept_header (0 ∷ [])
      (read_header-packet_bytes accept [] accept-IsWellFormed)
