-- ===== src/Protocol/Validate.antt =====
-- `p2p_validate_header` against a description of the headers that protocol.h allows, and the README.
use chats.Prelude.{
  ℕ, zero, suc, ◌≤◌, ◌<◌, ◌≡◌, ◌≢◌, ◌↔◌, refl, false, not, Option, some, List, [], ◌∷◌, arith, ◌==◌,
  ◌+◌, leb, length, if◌then◌else◌,
}
use chats.Crc.{crc16_ccitt}
use chats.Protocol.{
  Header, read_header, signature, signature_differs, length_invalid, cmd_max, p2p_validate_header,
}

-- What the body of each command weighs.
pub data BodySize : Type 0 where
  exactly : ℕ → BodySize
  at_least : ℕ → BodySize

pub data Command : Type 0 where
  connect reference channel_switch reference_add reference_remove quit ping accept message : Command

abbrev pub code : Command → ℕ
code Command.connect = 0
code Command.reference = 1
code Command.channel_switch = 2
code Command.reference_add = 3
code Command.reference_remove = 4
code Command.quit = 5
code Command.ping = 6
code Command.accept = 7
code Command.message = 8

abbrev pub body_size : Command → BodySize
body_size Command.connect = exactly 16
body_size Command.reference = at_least 2
body_size Command.channel_switch = exactly 0
body_size Command.reference_add = exactly 19
body_size Command.reference_remove = exactly 16
body_size Command.quit = exactly 16
body_size Command.ping = exactly 16
body_size Command.accept = exactly 1
body_size Command.message = at_least 0

abbrev pub Fits : BodySize → ℕ → Type 0
Fits (exactly n) length = length ≡ n
Fits (at_least n) length = n ≤ length

-- What the README of the program gives the bodies that carry a keyword, of 40 bytes: in front of a
-- nickname, or of an entry with its port and a whole address.
abbrev keyword_length : ℕ
keyword_length = 40

abbrev nickname_length : ℕ
nickname_length = 16

abbrev pub documented_remove : ℕ
documented_remove = keyword_length + nickname_length

abbrev pub documented_add : (ip : ℕ) → ℕ
documented_add ip = keyword_length + nickname_length + 2 + ip

-- The header in memory at `ptr` is one that the program allows.
pub record IsAllowed (ptr : List ℕ) (h : Header) : Type 0 where
  pub signed : h.signature ≡ signature
  pub command : Command
  pub known : h.cmd ≡ code command
  pub intact : crc16_ccitt ptr 8 ≡ some h.crc_header
  pub sized : Fits (body_size command) h.length

-- What a readable header gives: a signature of five bytes, and a checksum.
abbrev Readable : List ℕ → Header → Type 0
Readable ptr h = (length h.signature ≡ 5) × ((crc : ℕ) × (crc16_ccitt ptr 8 ≡ some crc))

pub read_header-Readable :
    (ptr : List ℕ) {h : Header} {body : List ℕ} → read_header ptr ≡ some (h, body) → Readable ptr h
unfolding read_header crc16_ccitt
read_header-Readable ([]) e = cc
read_header-Readable (s0 ∷ []) e = cc
read_header-Readable (s0 ∷ s1 ∷ []) e = cc
read_header-Readable (s0 ∷ s1 ∷ s2 ∷ []) e = cc
read_header-Readable (s0 ∷ s1 ∷ s2 ∷ s3 ∷ []) e = cc
read_header-Readable (s0 ∷ s1 ∷ s2 ∷ s3 ∷ s4 ∷ []) e = cc
read_header-Readable (s0 ∷ s1 ∷ s2 ∷ s3 ∷ s4 ∷ c ∷ []) e = cc
read_header-Readable (s0 ∷ s1 ∷ s2 ∷ s3 ∷ s4 ∷ c ∷ l0 ∷ []) e = cc
read_header-Readable (s0 ∷ s1 ∷ s2 ∷ s3 ∷ s4 ∷ c ∷ l0 ∷ l1 ∷ []) e = cc
read_header-Readable (s0 ∷ s1 ∷ s2 ∷ s3 ∷ s4 ∷ c ∷ l0 ∷ l1 ∷ h0 ∷ []) e = cc
read_header-Readable (s0 ∷ s1 ∷ s2 ∷ s3 ∷ s4 ∷ c ∷ l0 ∷ l1 ∷ h0 ∷ h1 ∷ []) e = cc
read_header-Readable (s0 ∷ s1 ∷ s2 ∷ s3 ∷ s4 ∷ c ∷ l0 ∷ l1 ∷ h0 ∷ h1 ∷ d0 ∷ []) e = cc
read_header-Readable (s0 ∷ s1 ∷ s2 ∷ s3 ∷ s4 ∷ c ∷ l0 ∷ l1 ∷ h0 ∷ h1 ∷ d0 ∷ d1 ∷ body) e =
    (ground arith, (_, refl))

signature_differs_lem :
    (a b : List ℕ) → length b ≡ length a → (signature_differs a b ≡ false) ↔ (b ≡ a)
unfolding signature_differs
signature_differs_lem [] [] h = ((λ e. refl), (λ e. refl))
signature_differs_lem [] (x ∷ b) h = absurd (omega arith)
signature_differs_lem (x ∷ a) [] h = absurd (omega arith)
signature_differs_lem (x ∷ a) (y ∷ b) h =
    let ih = signature_differs_lem a b (omega arith) in
    ((λ e. ground (arith, ih.0)), (λ e. ground (arith, ih.1)))

command_of : (cmd : ℕ) → cmd < cmd_max → (c : Command) × (cmd ≡ code c)
command_of zero h = (Command.connect, refl)
command_of (suc zero) h = (Command.reference, refl)
command_of (suc (suc zero)) h = (Command.channel_switch, refl)
command_of (suc (suc (suc zero))) h = (Command.reference_add, refl)
command_of (suc (suc (suc (suc zero)))) h = (Command.reference_remove, refl)
command_of (suc (suc (suc (suc (suc zero))))) h = (Command.quit, refl)
command_of (suc (suc (suc (suc (suc (suc zero)))))) h = (Command.ping, refl)
command_of (suc (suc (suc (suc (suc (suc (suc zero))))))) h = (Command.accept, refl)
command_of (suc (suc (suc (suc (suc (suc (suc (suc zero)))))))) h = (Command.message, refl)
command_of (suc (suc (suc (suc (suc (suc (suc (suc (suc n))))))))) h = absurd (omega arith)

code-lt : (c : Command) → code c < cmd_max
code-lt Command.connect = omega arith
code-lt Command.reference = omega arith
code-lt Command.channel_switch = omega arith
code-lt Command.reference_add = omega arith
code-lt Command.reference_remove = omega arith
code-lt Command.quit = omega arith
code-lt Command.ping = omega arith
code-lt Command.accept = omega arith
code-lt Command.message = omega arith

-- The `switch` of the source is the table of sizes above.
length_invalid_lem :
    (c : Command) (n : ℕ) → (length_invalid (code c) n ≡ false) ↔ Fits (body_size c) n
unfolding length_invalid
length_invalid_lem Command.connect n = ground arith
length_invalid_lem Command.reference n = ground arith
length_invalid_lem Command.channel_switch n = ground arith
length_invalid_lem Command.reference_add n = ground arith
length_invalid_lem Command.reference_remove n = ground arith
length_invalid_lem Command.quit n = ground arith
length_invalid_lem Command.ping n = ground arith
length_invalid_lem Command.accept n = ground arith
length_invalid_lem Command.message n = ground arith

-- The first check that fails names the result: signature, command, checksum, length.
pub record Verdict (ptr : List ℕ) (h : Header) (result : Option ℕ) : Type 0 where
  pub bad_signature : h.signature ≢ signature → result ≡ some 1
  pub bad_command : h.signature ≡ signature → 9 ≤ h.cmd → result ≡ some 2
  pub bad_checksum :
      h.signature ≡ signature → h.cmd < 9 → crc16_ccitt ptr 8 ≢ some h.crc_header → result ≡ some 4
  pub bad_length :
      (c : Command)
      → h.signature ≡ signature
      → h.cmd ≡ code c
      → crc16_ccitt ptr 8 ≡ some h.crc_header
      → ¬ Fits (body_size c) h.length
      → result ≡ some 3
  pub documented_remove_refused :
      h.cmd ≡ code Command.reference_remove → h.length ≡ documented_remove → result ≢ some 0
  pub documented_add_refused :
      (ip : ℕ) → h.cmd ≡ code Command.reference_add → h.length ≡ documented_add ip → result ≢ some 0
  pub allowed : (result ≡ some 0) ↔ IsAllowed ptr h

-- The result of `p2p_validate_header` at a header that can be read whole.
checked : List ℕ → Header → ℕ → ℕ
checked ptr h crc =
    if signature_differs signature h.signature
    then 1
    else if leb cmd_max h.cmd
    then 2
    else if not (crc == h.crc_header)
    then 4
    else if length_invalid h.cmd h.length
    then 3
    else 0

p2p_validate_header-checked :
    (ptr : List ℕ) {h : Header} {body : List ℕ} {crc : ℕ}
    → read_header ptr ≡ some (h, body)
    → crc16_ccitt ptr 8 ≡ some crc
    → p2p_validate_header (some ptr) ≡ some (checked ptr h crc)
unfolding p2p_validate_header checked
p2p_validate_header-checked ptr e c = rw (e, c) (ground arith)

module _ (ptr : List ℕ) (h : Header) (body : List ℕ) (e : read_header ptr ≡ some (h, body)) where
  crc : ℕ
  crc = (read_header-Readable ptr e).1.0

  crc_lem : crc16_ccitt ptr 8 ≡ some crc
  unfolding crc
  crc_lem = (read_header-Readable ptr e).1.1

  signature_lem : (signature_differs signature h.signature ≡ false) ↔ (h.signature ≡ signature)
  signature_lem = signature_differs_lem signature h.signature (read_header-Readable ptr e).0

  checked_zero : checked ptr h crc ≡ 0 → IsAllowed ptr h
  unfolding checked
  checked_zero r =
      let (c, known) = command_of h.cmd (ground arith) in
      record {
        signed = ground (arith, signature_lem.0);
        command = c;
        known = known;
        intact = ground (arith, crc_lem);
        sized = (length_invalid_lem c h.length).0 (ground arith);
      }

  checked_refuses :
      (c : Command) → h.cmd ≡ code c → ¬ Fits (body_size c) h.length → checked ptr h crc ≢ 0
  unfolding checked
  checked_refuses c k n r = n ((length_invalid_lem c h.length).0 (ground (arith, code-lt c)))

  -- `p2p_validate_header` at a readable header: its result is the code of the first check that
  -- fails, in the order signature, command, header checksum, length of the body for the command;
  -- and 0, valid, exactly where none fails. The lengths allowed are those of the structures of
  -- protocol.h. So a REF_DEL of the length that the README gives it, with its keyword, is never
  -- valid, nor is a REF_ADD with its keyword and an address of any length.
  pub p2p_validate_header-Verdict : Verdict ptr h (p2p_validate_header (some ptr))
  unfolding checked
  p2p_validate_header-Verdict = rw (p2p_validate_header-checked ptr e crc_lem) (record {
    bad_signature = λ n. ground (arith, signature_lem.0);
    bad_command = λ s n. ground (arith, signature_lem.1);
    bad_checksum = λ s k n. ground (arith, signature_lem.1, crc_lem);
    bad_length = λ c s k i n.
        ground (arith, signature_lem.1, crc_lem, code-lt c, (length_invalid_lem c h.length).0);
    documented_remove_refused =
        λ k n r. checked_refuses Command.reference_remove k (λ f. omega arith) (ground arith);
    documented_add_refused =
        λ ip k n r. checked_refuses Command.reference_add k (λ f. omega arith) (ground arith);
    allowed = (
      λ r. checked_zero (ground arith),
      λ a. ground (
        arith,
        signature_lem.1,
        crc_lem,
        code-lt a.command,
        (length_invalid_lem a.command h.length).1,
      ),
    );
  })
