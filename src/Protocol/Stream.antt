-- ===== src/Protocol/Stream.antt =====
-- Packets one behind the other in memory: `p2p_skip_packet` goes from each to the next.
use chats.Prelude.{
  ℕ, ◌/◌, ◌%◌, ◌<◌, ◌≡◌, refl, none, some, List, [], ◌∷◌, ◌++◌, arith, length, drop, if◌then◌else◌,
  ltb, length-append,
}
use chats.Protocol.{Header, read_header, p2p_skip_packet}

pub record Packet : Type 0 where
  pub header : Header
  pub body : List ℕ

abbrev pub IsByte : ℕ → Type 0
IsByte n = n < 256

abbrev pub IsWord : ℕ → Type 0
IsWord n = n < 65536

-- The fields fit their widths, and the header says how long the body is.
pub record IsWellFormed (p : Packet) : Type 0 where
  pub signature_size : length p.header.signature ≡ 5
  pub length_word : IsWord p.header.length
  pub crc_header_word : IsWord p.header.crc_header
  pub crc_data_word : IsWord p.header.crc_data
  pub body_size : length p.body ≡ p.header.length

abbrev word_bytes : ℕ → List ℕ → List ℕ
word_bytes w rest = w % 256 ∷ w / 256 ∷ rest

-- The packed header in memory, in front of `rest`.
unfoldable pub header_bytes : Header → List ℕ → List ℕ
header_bytes h rest =
    h.signature
    ++ (h.cmd ∷ word_bytes h.length (word_bytes h.crc_header (word_bytes h.crc_data rest)))

unfoldable pub packet_bytes : Packet → List ℕ → List ℕ
unfolding header_bytes
packet_bytes p rest = header_bytes p.header (p.body ++ rest)

-- A list of five.
read_at :
    (sig : List ℕ) (h : Header) (rest : List ℕ)
    → length sig ≡ 5
    → read_header (
        sig ++ (h.cmd ∷ word_bytes h.length (word_bytes h.crc_header (word_bytes h.crc_data rest))))
      ≡ some (
        record {
          signature = sig;
          cmd = h.cmd;
          length = h.length;
          crc_header = h.crc_header;
          crc_data = h.crc_data;
        },
        rest,
      )
unfolding read_header
read_at [] h rest e = absurd (omega arith)
read_at (a ∷ []) h rest e = absurd (omega arith)
read_at (a ∷ b ∷ []) h rest e = absurd (omega arith)
read_at (a ∷ b ∷ c ∷ []) h rest e = absurd (omega arith)
read_at (a ∷ b ∷ c ∷ d ∷ []) h rest e = absurd (omega arith)
read_at (a ∷ b ∷ c ∷ d ∷ f ∷ []) h rest e = ground arith
read_at (a ∷ b ∷ c ∷ d ∷ f ∷ g ∷ l) h rest e = absurd (omega arith)

-- Reading the header of a well-formed packet gives back its fields, and the memory behind it.
pub read_header-packet_bytes :
    (p : Packet) (rest : List ℕ)
    → IsWellFormed p
    → read_header (packet_bytes p rest) ≡ some (p.header, p.body ++ rest)
unfolding packet_bytes
read_header-packet_bytes p rest w =
    read_at p.header.signature p.header (p.body ++ rest) w.signature_size

drop-append : (xs ys : List ℕ) → drop (length xs) (xs ++ ys) ≡ ys
drop-append [] ys = refl
drop-append (x ∷ xs) ys = drop-append xs ys

skip-body :
    (xs ys : List ℕ) (n : ℕ)
    → length xs ≡ n
    → (if ltb (length (xs ++ ys)) n then none else some (drop n (xs ++ ys))) ≡ some ys
skip-body xs ys n e = rw (← e) (ground (arith, length-append xs ys, drop-append xs ys))

-- `p2p_skip_packet` at a well-formed packet is the memory behind that packet, whatever follows it.
pub p2p_skip_packet-packet_bytes :
    (p : Packet) (rest : List ℕ)
    → IsWellFormed p
    → p2p_skip_packet (packet_bytes p rest) ≡ some rest
unfolding p2p_skip_packet
p2p_skip_packet-packet_bytes p rest w =
    rw (read_header-packet_bytes p rest w) (skip-body p.body rest p.header.length w.body_size)
