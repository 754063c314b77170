-- ===== src/Protocol/Utilize.antt =====
-- `p2p_utilize_packet`: which packets reach their handler, and what the result says.
use chats.Prelude.{
  ℕ, ◌<◌, ◌≡◌, ◌≢◌, refl, ◌∙◌, Bool, true, Option, none, some, List, arith, ◌==◌, ◌&&◌, bit_or,
  bit_and,
}
use chats.Prelude.Range.{holds_below, at_of_holds_below}
use chats.Protocol.{
  Header, Handler, read_header, p2p_validate_header, p2p_utilize_packet, call_handler,
  pvc_header_invalid, pvc_handler_error,
}
use chats.Protocol.Validate.{IsAllowed, p2p_validate_header-Verdict}

-- What a call with the packet at `ptr` comes to, in each of the cases.
pub record Outcome {C : Type 0} (ptr : List ℕ) (h : Header) (body : List ℕ)
    (handlers : ℕ → Option (Handler C)) (ctx : C) (result : Option (ℕ × C)) : Type 0 where
  pub invalid :
      (code : ℕ)
      → p2p_validate_header (some ptr) ≡ some code
      → code ≢ 0
      → result ≡ some (bit_or code 0x0100, ctx)
  pub bad_data : IsAllowed ptr h → h.crc_data ≢ h.crc_header → result ≡ some (0x0200, ctx)
  pub unhandled :
      IsAllowed ptr h
      → h.crc_data ≡ h.crc_header
      → handlers h.cmd ≡ none
      → result ≡ some (0x0400, ctx)
  pub handled :
      (handler : Handler C)
      → IsAllowed ptr h
      → h.crc_data ≡ h.crc_header
      → handlers h.cmd ≡ some handler
      → (handler body ctx).0 ≡ 0
      → result ≡ some (0x0000, (handler body ctx).1)
  pub failed :
      (handler : Handler C)
      → IsAllowed ptr h
      → h.crc_data ≡ h.crc_header
      → handlers h.cmd ≡ some handler
      → (handler body ctx).0 ≢ 0
      → result ≡ some (bit_or (handler body ctx).0 0x0800, (handler body ctx).1)

module _ {C : Type 0} (ptr : List ℕ) (handlers : ℕ → Option (Handler C)) (ctx : C) (h : Header)
    (body : List ℕ) (e : read_header ptr ≡ some (h, body)) where
  dispatch :
      IsAllowed ptr h
      → h.crc_data ≡ h.crc_header
      → p2p_utilize_packet (some ptr) handlers ctx ≡ some (call_handler (handlers h.cmd) body ctx)
  unfolding p2p_utilize_packet
  dispatch a same =
      rw (((p2p_validate_header-Verdict ptr h body e).allowed).1 a, e, a.intact) (ground arith)

  refuse :
      {code : ℕ}
      → p2p_validate_header (some ptr) ≡ some code
      → code ≢ 0
      → p2p_utilize_packet (some ptr) handlers ctx ≡ some (bit_or code 0x0100, ctx)
  unfolding p2p_utilize_packet
  refuse v ne = rw v (ground arith)

  bad_data :
      IsAllowed ptr h
      → h.crc_data ≢ h.crc_header
      → p2p_utilize_packet (some ptr) handlers ctx ≡ some (0x0200, ctx)
  unfolding p2p_utilize_packet
  bad_data a differ =
      rw (((p2p_validate_header-Verdict ptr h body e).allowed).1 a, e, a.intact) (ground arith)

  -- `p2p_utilize_packet` at a readable header. A header that is not valid gives its validation
  -- code with 0x0100. A valid one whose two checksum fields differ gives 0x0200, whatever the body
  -- is. Otherwise the handler of the command gets the body and the context; 0x0400 says that there
  -- is none, 0 that it succeeded, and its own code with 0x0800 that it failed. The context changes
  -- only through the handler.
  pub p2p_utilize_packet-Outcome :
      Outcome ptr h body handlers ctx (p2p_utilize_packet (some ptr) handlers ctx)
  unfolding call_handler
  p2p_utilize_packet-Outcome = record {
    invalid = λ code. refuse;
    bad_data = bad_data;
    unhandled = λ a same none_set. dispatch a same ∙ rw none_set;
    handled = λ handler a same set ok. dispatch a same ∙ rw set (ground arith);
    failed = λ handler a same set ko. dispatch a same ∙ rw set (ground arith);
  }

-- `PACKET_VALIDATION_CODE(x)`, and what it leaves.
abbrev pub packet_validation_code : ℕ → ℕ
packet_validation_code x = bit_and x 0xff00

abbrev pub detail : ℕ → ℕ
detail x = bit_and x 0x00ff

abbrev splits : ℕ → ℕ → Bool
splits mask code =
    (packet_validation_code (bit_or code mask) == mask) && (detail (bit_or code mask) == code)

header_table : holds_below (splits pvc_header_invalid) 256 ≡ true
unfolding holds_below
header_table = refl

handler_table : holds_below (splits pvc_handler_error) 256 ≡ true
unfolding holds_below
handler_table = refl

-- A code below 256, of the validation or of a handler, can be read back from the result of
-- `p2p_utilize_packet`, and `PACKET_VALIDATION_CODE` tells which of the two it is.
pub packet_validation_code_lem :
    (code : ℕ)
    → code < 256
    → (packet_validation_code (bit_or code pvc_header_invalid) ≡ pvc_header_invalid)
      × (detail (bit_or code pvc_header_invalid) ≡ code)
      × (packet_validation_code (bit_or code pvc_handler_error) ≡ pvc_handler_error)
      × (detail (bit_or code pvc_handler_error) ≡ code)
packet_validation_code_lem code h =
    let a = at_of_holds_below _ 256 header_table h in
    let b = at_of_holds_below _ 256 handler_table h in ground (arith, a, b)
