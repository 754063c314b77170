-- ===== src/Sockets/Requests.antt =====
-- What a transfer of the servers or the client registers with the I/O service.
use chats.Prelude.{ℕ, ◌≡◌, refl, true, not, some, ◌==◌, ◌&&◌, if◌then◌else◌}
use chats.IoService.Registry.{Registry, registry, put}
use chats.Network.Endpoints.{EndpointType, EndpointSocket}
use chats.Network.{SrbOp, Srb, Net, iosvc_op}
use chats.Network.Operate.{Jobs, Kernel, has_type}
use chats.Network.Datagrams.{job_of_operation, registry-srb_operate}
use chats.Sockets.{Transfer, fill_srb, transfer}

-- The registrations behind a transfer of the `srb_t` at the address `addr`, with the socket `skt`.
abbrev pub registered :
    {E : Type 0} → Jobs → EndpointType → SrbOp → (skt addr : ℕ) → Net E → Registry
registered jobs t op skt addr net =
    if net.service.allow_new && not (job_of_operation jobs t op == 0)
    then put skt (iosvc_op op)
        (record { job = job_of_operation jobs t op; ctx = addr; oneshot = true })
        (registry net.service)
    else registry net.service

-- A transfer with the service that is given a buffer and an open socket of its type registers its
-- job at that socket, under the rules of the service, and tells no callback.
pub transfer-registry :
    {E : Type 0} (jobs : Jobs) (k : Kernel) (raw : Srb) (t : EndpointType) (op : SrbOp)
    (peer : EndpointSocket) (tr : Transfer) (net : Net E) (skt size : ℕ)
    → peer.skt ≡ some skt
    → has_type t peer ≡ true
    → tr.buffer ≡ some size
    → (net' : Net E) × (transfer jobs k (some raw) t op true peer tr net ≡ some net')
      × (registry net'.service ≡ registered jobs t op skt raw.addr net)
      × (net'.notices ≡ net.notices)
unfolding transfer
transfer-registry jobs k raw t SrbOp.send peer tr net skt size open_ same known =
    let (srb', net', done, registers, moved, vec, told) =
      registry-srb_operate jobs k t SrbOp.send (fill_srb raw t SrbOp.send true peer tr) net skt size
        open_ same known in
    (net', rw done refl, registers, told)
transfer-registry jobs k raw t SrbOp.recv peer tr net skt size open_ same known =
    let (srb', net', done, registers, moved, vec, told) =
      registry-srb_operate jobs k t SrbOp.recv (fill_srb raw t SrbOp.recv true peer tr) net skt size
        open_ same known in
    (net', rw done refl, registers, told)
