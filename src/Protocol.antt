-- ===== src/Protocol.antt =====
-- chats/p2p/protocol: packet headers, their validation, and the dispatch of packets to handlers.
-- A pointer to a header is the list of the bytes from there to the end of the memory that may be
-- read, and `none` is NULL. A result `none` is a read outside of that memory.
pub mod Validate
pub mod Utilize
pub mod Stream
mod Tests
use chats.Prelude.{
  ℕ, ◌+◌, ◌*◌, ◌/◌, ◌%◌, Bool, true, false, not, ◌||◌, Option, none, some, List, [], ◌∷◌, ◌++◌,
  ◌==◌, ltb, leb, if◌then◌else◌, ◌>>=◌, bit_or, drop, length,
}
use chats.Crc.{crc16_ccitt}

-- `P2P_SIGNATURE_LENGTH`, `P2P_NICKNAME_LENGTH`
abbrev pub signature_length : ℕ
signature_length = 5

abbrev pub nickname_length : ℕ
nickname_length = 16

-- `command_t`
abbrev pub cmd_connect : ℕ
cmd_connect = 0x00

abbrev pub cmd_reference : ℕ
cmd_reference = 0x01

abbrev pub cmd_channel_switch : ℕ
cmd_channel_switch = 0x02

abbrev pub cmd_reference_add : ℕ
cmd_reference_add = 0x03

abbrev pub cmd_reference_remove : ℕ
cmd_reference_remove = 0x04

abbrev pub cmd_quit : ℕ
cmd_quit = 0x05

abbrev pub cmd_ping : ℕ
cmd_ping = 0x06

abbrev pub cmd_accept : ℕ
cmd_accept = 0x07

abbrev pub cmd_message : ℕ
cmd_message = 0x08

abbrev pub cmd_max : ℕ
cmd_max = 0x09

-- The sizes of the packed structures.
abbrev pub sizeof_header : ℕ
sizeof_header = signature_length + 1 + 2 + 2 + 2

abbrev pub sizeof_connect_request : ℕ
sizeof_connect_request = nickname_length

abbrev pub sizeof_reference : ℕ
sizeof_reference = 2

abbrev pub sizeof_channel_switch : ℕ
sizeof_channel_switch = 0

abbrev pub sizeof_reference_add : ℕ
sizeof_reference_add = nickname_length + 2 + 1

abbrev pub sizeof_reference_remove : ℕ
sizeof_reference_remove = nickname_length

abbrev pub sizeof_quit : ℕ
sizeof_quit = nickname_length

abbrev pub sizeof_ping : ℕ
sizeof_ping = nickname_length

abbrev pub sizeof_accept : ℕ
sizeof_accept = 1

-- `p2p_packet_validation_code_t`
abbrev pub pvc_ok : ℕ
pvc_ok = 0x0000

abbrev pub pvc_header_invalid : ℕ
pvc_header_invalid = 0x0100

abbrev pub pvc_data_invalid_crc : ℕ
pvc_data_invalid_crc = 0x0200

abbrev pub pvc_no_handler : ℕ
pvc_no_handler = 0x0400

abbrev pub pvc_handler_error : ℕ
pvc_handler_error = 0x0800

-- `p2p_header_validation_result_t`
abbrev pub header_valid : ℕ
header_valid = 0x0000

abbrev pub header_invalid_signature : ℕ
header_invalid_signature = 0x0001

abbrev pub header_invalid_cmd : ℕ
header_invalid_cmd = 0x0002

abbrev pub header_invalid_length : ℕ
header_invalid_length = 0x0003

abbrev pub header_invalid_crc_header : ℕ
header_invalid_crc_header = 0x0004

-- `struct p2p_header`
pub record Header : Type 0 where
  pub signature : List ℕ
  pub cmd : ℕ
  pub length : ℕ
  pub crc_header : ℕ
  pub crc_data : ℕ

-- The packed layout, its 16-bit fields with the low byte first; and the memory behind it.
unfoldable pub read_header : List ℕ → Option (Header × List ℕ)
read_header (s0 ∷ s1 ∷ s2 ∷ s3 ∷ s4 ∷ c ∷ l0 ∷ l1 ∷ h0 ∷ h1 ∷ d0 ∷ d1 ∷ body) = some (
  record {
    signature = s0 ∷ s1 ∷ s2 ∷ s3 ∷ s4 ∷ [];
    cmd = c;
    length = l0 + l1 * 256;
    crc_header = h0 + h1 * 256;
    crc_data = d0 + d1 * 256;
  },
  body,
)
read_header _ = none

-- `SIGNATURE`: "p2pmu"
abbrev pub signature : List ℕ
signature = b'p' ∷ b'2' ∷ b'p' ∷ b'm' ∷ b'u' ∷ []

-- The loop over `SIGNATURE[i] != header->signature[i]`.
unfoldable pub signature_differs : List ℕ → List ℕ → Bool
signature_differs [] given = false
signature_differs (c ∷ expected) [] = true
signature_differs (c ∷ expected) (s ∷ given) = not (c == s) || signature_differs expected given

-- The `switch` over the command.
unfoldable pub length_invalid : (cmd : ℕ) → (length : ℕ) → Bool
length_invalid cmd length =
    if cmd == cmd_connect
    then not (length == sizeof_connect_request)
    else if cmd == cmd_reference
    then ltb length sizeof_reference
    else if cmd == cmd_channel_switch
    then not (length == sizeof_channel_switch)
    else if cmd == cmd_reference_add
    then not (length == sizeof_reference_add)
    else if cmd == cmd_reference_remove
    then not (length == sizeof_reference_remove)
    else if cmd == cmd_quit
    then not (length == sizeof_quit)
    else if cmd == cmd_ping
    then not (length == sizeof_ping)
    else if cmd == cmd_accept
    then not (length == sizeof_accept)
    else false

-- The bytes that both checksums are taken over: the header less its two checksum fields.
abbrev pub crc_length : ℕ
crc_length = 8

unfoldable pub p2p_validate_header : Option (List ℕ) → Option ℕ
unfolding read_header signature_differs length_invalid
p2p_validate_header none = some 0
p2p_validate_header (some ptr) = do
  (header, body) ← read_header ptr
  if signature_differs signature header.signature
      then some header_invalid_signature
      else if leb cmd_max header.cmd
      then some header_invalid_cmd
      else do
        crc_header ← crc16_ccitt ptr crc_length
        if not (crc_header == header.crc_header)
            then some header_invalid_crc_header
            else if length_invalid header.cmd header.length
            then some header_invalid_length
            else some header_valid

-- A handler gets the body and the context. What it does to the context is its result's second part.
abbrev pub Handler : Type 0 → Type 0
Handler C = List ℕ → C → ℕ × C

unfoldable pub call_handler : {C : Type 0} → Option (Handler C) → List ℕ → C → ℕ × C
call_handler none data_ ctx = (pvc_no_handler, ctx)
call_handler (some handler) data_ ctx =
    let (ret, ctx') = handler data_ ctx in
    if not (ret == 0) then (bit_or ret pvc_handler_error, ctx') else (pvc_ok, ctx')

-- `handlers[cmd]` is read only at commands below `cmd_max`.
unfoldable pub p2p_utilize_packet :
    {C : Type 0} → Option (List ℕ) → (handlers : ℕ → Option (Handler C)) → C → Option (ℕ × C)
unfolding call_handler
p2p_utilize_packet ptr? handlers ctx = do
  ret ← p2p_validate_header ptr?
  if not (ret == 0) then some (bit_or ret pvc_header_invalid, ctx) else do
    ptr ← ptr?
    (header, data_) ← read_header ptr
    data_crc ← crc16_ccitt ptr crc_length
    if not (data_crc == header.crc_data)
        then some (pvc_data_invalid_crc, ctx)
        else some (call_handler (handlers header.cmd) data_ ctx)

-- The memory from the next header on.
unfoldable pub p2p_skip_packet : List ℕ → Option (List ℕ)
unfolding read_header
p2p_skip_packet ptr = do
  (header, body) ← read_header ptr
  if ltb (length body) header.length then none else some (drop header.length body)
