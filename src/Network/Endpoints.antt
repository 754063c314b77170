-- ===== src/Network/Endpoints.antt =====
-- network/endpoint.h and network/endpoint.c: addresses of endpoints.
use chats.Prelude.{ℕ, ◌+◌, ◌*◌, ◌/◌, ◌%◌, ◌^◌, ◌<◌, ◌≡◌, refl, Option, List, [], ◌∷◌, arith}

pub data EndpointClass : Type 0 where
  ip4 : EndpointClass
  ip6 : EndpointClass
  none : EndpointClass

pub data EndpointType : Type 0 where
  tcp : EndpointType
  udp : EndpointType
  none : EndpointType

-- The union of `struct ip4_endpoint` and `struct ip6_endpoint`: the bytes of the address, the port.
pub data Address : Type 0 where
  ip4 : (addr : List ℕ) → (port : ℕ) → Address
  ip6 : (addr : List ℕ) → (port : ℕ) → Address

-- A port or an address as it stands in memory, in network order.
pub data Port : Type 0 where
  bytes : (b0 b1 : ℕ) → Port

pub data InAddr : Type 0 where
  bytes : (b0 b1 b2 b3 : ℕ) → InAddr

-- What a `struct sockaddr_storage` holds, by its family.
pub data Sockaddr : Type 0 where
  inet : (sin_port : Port) → (sin_addr : InAddr) → Sockaddr
  inet6 : (sin6_port : Port) → (sin6_addr : List ℕ) → Sockaddr
  other : (sa_family : ℕ) → Sockaddr

pub record Endpoint : Type 0 where
  pub ep_class : EndpointClass
  pub ep_type : EndpointType
  pub ep : Address
  pub addr : Sockaddr

-- `skt` is `none` where it is negative.
pub record EndpointSocket : Type 0 where
  pub skt : Option ℕ
  pub ep : Endpoint

abbrev ntohs : Port → ℕ
ntohs (Port.bytes b0 b1) = b0 * 2 ^ 8 + b1

abbrev ntohl : InAddr → ℕ
ntohl (InAddr.bytes b0 b1 b2 b3) = b0 * 2 ^ 24 + b1 * 2 ^ 16 + b2 * 2 ^ 8 + b3

unfoldable pub translate_endpoint : Endpoint → Endpoint
translate_endpoint e = elim e.addr [
  | Sockaddr.inet sin_port sin_addr ↦
      let addr = ntohl sin_addr in
      record e {
        ep_class = EndpointClass.ip4;
        ep =
            Address.ip4
              (addr / 2 ^ 24 % 2 ^ 8
                ∷ addr / 2 ^ 16 % 2 ^ 8
                ∷ addr / 2 ^ 8 % 2 ^ 8
                ∷ addr % 2 ^ 8
                ∷ [])
              (ntohs sin_port);
      }
  | Sockaddr.inet6 sin6_port sin6_addr ↦ record e {
    ep_class = EndpointClass.ip6;
    ep = Address.ip6 sin6_addr (ntohs sin6_port);
  }
  | Sockaddr.other sa_family ↦ e
]

-- `translate_endpoint` at an IPv4 address of four bytes: the bytes in their order, the port by its
-- two bytes, the high one first. Nothing else of the endpoint changes.
pub translate_endpoint_inet :
    (e : Endpoint) (p0 p1 b0 b1 b2 b3 : ℕ)
    → b0 < 256
    → b1 < 256
    → b2 < 256
    → b3 < 256
    → translate_endpoint
        (record e { addr = Sockaddr.inet (Port.bytes p0 p1) (InAddr.bytes b0 b1 b2 b3) })
      ≡ record e {
        ep_class = EndpointClass.ip4;
        ep = Address.ip4 (b0 ∷ b1 ∷ b2 ∷ b3 ∷ []) (p0 * 256 + p1);
        addr = Sockaddr.inet (Port.bytes p0 p1) (InAddr.bytes b0 b1 b2 b3);
      }
unfolding translate_endpoint
translate_endpoint_inet e p0 p1 b0 b1 b2 b3 h0 h1 h2 h3 =
    let addr = b0 * 2 ^ 24 + b1 * 2 ^ 16 + b2 * 2 ^ 8 + b3 in
    let first : addr / 2 ^ 24 % 2 ^ 8 ≡ b0 = omega arith in
    let second : addr / 2 ^ 16 % 2 ^ 8 ≡ b1 = omega arith in
    let third : addr / 2 ^ 8 % 2 ^ 8 ≡ b2 = omega arith in
    let fourth : addr % 2 ^ 8 ≡ b3 = omega arith in rw (first, second, third, fourth) refl
