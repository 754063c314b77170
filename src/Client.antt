-- ===== src/Client.antt =====
-- network/client/client.c: the socket of a client, and the TCP client.
-- A system call's result is an argument. `client` is NULL or the address of the object, which is the
-- state here; a result is `none` where an assertion stops the program, or a callback that is NULL is
-- called.
pub mod Connections
pub mod Connecting
pub mod Stuck
pub mod Udp
mod Tests
use chats.Prelude.{
  ℕ, ◌+◌, ◌-◌, Bool, true, false, not, Option, none, some, List, [], ◌∷◌, ◌++◌, ◌==◌, ◌||◌, ◌&&◌,
  if◌then◌else◌, ◌>>=◌,
}
use chats.IoService.{io_service_post_job}
use chats.IoService.Elements.{Op}
use chats.LinkedList.{Ptr, null}
use chats.Network.Endpoints.{
  EndpointClass, EndpointType, Sockaddr, Endpoint, EndpointSocket, translate_endpoint,
}
use chats.Network.{SrbOp, Srb, Net}
use chats.Network.Operate.{Jobs, Kernel}
use chats.Sockets.{Candidate, Bound, bind_loop, close, Transfer, has_data, lock, unlock, transfer}

-- What the calls of `client_init_socket` come to: `socket` and `setsockopt` without a name, the
-- address that `getsockname` gives, and the addresses of the name.
pub record Opening : Type 0 where
  pub socket : Option ℕ
  pub setsockopt_fails : Bool
  pub sockname : Option Sockaddr
  pub addr_info : Option (List Candidate)

-- The endpoint, whether it is open, and the sockets closed.
pub record Opened : Type 0 where
  pub ep_skt : EndpointSocket
  pub success : Bool
  pub closed : List ℕ

-- `if (epc == EPC_NONE) epc = EPC_IP4;`
abbrev pub default_class : EndpointClass → EndpointClass
default_class epc = elim epc [
  | EndpointClass.none ↦ EndpointClass.ip4
  | EndpointClass.ip4 ↦ EndpointClass.ip4
  | EndpointClass.ip6 ↦ EndpointClass.ip6
]

-- The fields of an endpoint with an open socket.
abbrev pub open_at :
    EndpointType → EndpointClass → (sfd : ℕ) → Sockaddr → EndpointSocket → EndpointSocket
open_at ept epc sfd addr s = record {
  skt = some sfd;
  ep = translate_endpoint (record s.ep { ep_type = ept; ep_class = epc; addr = addr });
}

-- The end of the branch with a name.
abbrev pub bound_to : EndpointType → EndpointClass → EndpointSocket → Bound × List ℕ → Opened
bound_to ept epc ep_skt r =
    let failed : EndpointSocket = record ep_skt { skt = none } in
    elim r.0 [
      | Bound.bound sfd addr ↦ record {
        ep_skt = open_at ept epc sfd addr ep_skt;
        success = true;
        closed = r.1;
      }
      | Bound.exhausted ↦ record { ep_skt = failed; success = false; closed = r.1 }
      | Bound.option_refused sfd ↦ record { ep_skt = failed; success = false; closed = r.1 }
    ]

-- `named` says that an address or a port is given.
unfoldable pub client_init_socket :
    Opening → EndpointType → EndpointClass → (named : Bool) → EndpointSocket → Option Opened
client_init_socket o ept epc named ep_skt =
    let failed : Opened = record {
      ep_skt = record ep_skt { skt = none };
      success = false;
      closed = [];
    } in
    if named
    then elim o.addr_info [
      | none ↦ some failed
      | some cs ↦ some (bound_to ept (default_class epc) ep_skt (bind_loop cs))
    ]
    else elim o.socket [
      | none ↦ some failed
      | some sfd ↦ if o.setsockopt_fails then some failed else do
        addr ← o.sockname
        some (record {
          ep_skt = open_at ept (default_class epc) sfd addr ep_skt;
          success = true;
          closed = [];
        })
    ]

-- A call of a `tcp_client_connection_cb_t`; the endpoint is `none` for NULL.
pub record Told : Type 0 where
  pub cb : ℕ
  pub ep : Option Endpoint
  pub err : ℕ
  pub ctx : ℕ

-- `struct client_tcp`, with the sockets that it closed and the calls of its callbacks, which do not
-- touch the client. `named` says that a local address or port is kept, `mutex` counts the locks held,
-- and `net` has the service `master`.
pub record ClientTcp (E : Type 0) : Type 0 where
  pub connected : Bool
  pub named : Bool
  pub mutex : ℕ
  pub net : Net E
  pub local : EndpointSocket
  pub remote : EndpointSocket
  pub closed : List ℕ
  pub told : List Told

abbrev pub eaddrnotavail : ℕ
eaddrnotavail = 99

abbrev pub eisconn : ℕ
eisconn = 106

abbrev pub einprogress : ℕ
einprogress = 115

module _ {E : Type 0} where
  abbrev pub locked : ClientTcp E → ClientTcp E
  locked s = record s { mutex = lock s.mutex }

  abbrev pub unlocked : ClientTcp E → ClientTcp E
  unlocked s = record s { mutex = unlock s.mutex }

  -- `if (cb) (*cb)(ep, err, ctx)`.
  abbrev pub tell : (cb ctx : ℕ) → Option Endpoint → (err : ℕ) → ClientTcp E → ClientTcp E
  tell cb ctx ep err s = record s {
    told =
        if cb == 0
        then s.told
        else s.told ++ (record { cb = cb; ep = ep; err = err; ctx = ctx } ∷ []);
  }

  -- `(*cb)(ep, err, ctx)`.
  abbrev pub call : (cb ctx : ℕ) → Option Endpoint → (err : ℕ) → ClientTcp E → Option (ClientTcp E)
  call cb ctx ep err s = if cb == 0 then none else some (tell cb ctx ep err s)

  unfoldable pub client_tcp_disconnect : (client : Ptr) → ClientTcp E → ClientTcp E
  client_tcp_disconnect client s =
      if client == null
      then s
      else if not s.connected
      then unlocked (locked s)
      else unlocked (record (locked s) {
        closed = close s.local.skt s.closed;
        local = record s.local { skt = none };
        connected = false;
      })

  -- The object is freed; what is left is what it did before.
  unfoldable pub client_tcp_deinit : (client : Ptr) → ClientTcp E → ClientTcp E
  client_tcp_deinit client s =
      if client == null
      then s
      else let s0 = locked s in
        let s1 = if s.connected then client_tcp_disconnect client s0 else s0 in
        unlocked (record s1 { closed = close s1.local.skt s1.closed })

  -- `given` says that the service is not NULL; `raw` is the memory allocated.
  unfoldable pub client_tcp_init :
      (given : Bool) → (raw : Option (ClientTcp E)) → (named : Bool) → Net E → Option (ClientTcp E)
  client_tcp_init given none named net = none
  client_tcp_init given (some raw) named net =
      if not given
      then none
      else some (record raw {
        mutex = 0;
        net = net;
        named = named;
        local = record {
          skt = none;
          ep = record raw.local.ep { ep_type = EndpointType.none; ep_class = EndpointClass.none };
        };
        remote = record raw.remote {
          ep = record raw.remote.ep { ep_type = EndpointType.none; ep_class = EndpointClass.none };
        };
        connected = false;
      })

  unfoldable pub client_tcp_local_ep :
      (client : Ptr) → (ep : Endpoint) → ClientTcp E → Endpoint × ClientTcp E
  client_tcp_local_ep client ep s =
      if client == null then (ep, s) else (s.local.ep, unlocked (locked s))

  unfoldable pub client_tcp_remote_ep :
      (client : Ptr) → (ep : Endpoint) → ClientTcp E → Endpoint × ClientTcp E
  client_tcp_remote_ep client ep s =
      if client == null then (ep, s) else (s.remote.ep, unlocked (locked s))
