-- ===== src/Network/Datagrams.antt =====
-- The receiving of datagrams in network/network.c, and what `srb_operate` registers.
use mathlib.Core.Bool.{false≢true}
use chats.Prelude.{
  ℕ, ◌+◌, ◌-◌, ◌^◌, ◌≡◌, refl, ap, ◌∙◌, inl, inr, true, false, not, some, List, ◌∷◌, ◌==◌, ◌&&◌,
  arith, length, length-append, ltb, if◌then◌else◌, Bool-cases,
}
use chats.Prelude.Int.{ℤ, pos, negsuc}
use chats.IoService.Elements.{Op}
use chats.IoService.Registry.{registry, put, registry-io_service_post_job}
use chats.Network.Endpoints.{EndpointType, Endpoint, translate_endpoint}
use chats.Network.{Name, Srb, SrbOp, Result, Net, iosvc_op, notify, deallocate_srb, move, post}
use chats.Network.Operate.{
  Jobs, Kernel, side, has_type, prepare, sizeof_sockaddr, receive, receive_from, too_small,
  srb_operate, udp_recv_async_tpl, tcp_send_recv_async, udp_send_async, udp_recv_async,
}

-- How often the receiving of a datagram tells the callback.
abbrev pub times : (size pending : ℕ) → ℕ
times size pending = if ltb size pending then 2 else 1

-- `net'` is `net` after `n` calls of the callback and as many frees.
abbrev Told : {E : Type 0} → (n : ℕ) → (net net' : Net E) → Type 0
Told n net net' = (length net'.notices ≡ length net.notices + n) × (net'.freed ≡ net.freed + n)

cb-receive_from : (k : Kernel) (r : Result) (srb : Srb) → (receive_from k r srb).cb ≡ srb.cb
cb-receive_from k (Result.failed e) srb = refl
cb-receive_from k (Result.moved n) srb = refl

module _ {E : Type 0} (srb : Srb) (net : Net E) (told : (srb.cb == 0) ≡ false) where
  notify-Told :
      (ep : Endpoint) (err : ℤ) (bytes more : ℕ)
      → Told 1 net (deallocate_srb (notify srb ep err bytes more net))
  notify-Told ep err bytes more = rw told (length-append net.notices _, refl)

  receive-Told :
      (k : Kernel) (pending : ℕ) (r : Result) (rs : List Result)
      → k.oper ≡ r ∷ rs
      → (net' : Net E) × (receive k srb pending net ≡ some net') × Told 1 net net'
  receive-Told k pending (Result.failed e) rs gives = (
    deallocate_srb (notify srb (translate_endpoint srb.src.ep) (pos e) 0 pending net),
    rw gives refl,
    notify-Told (translate_endpoint srb.src.ep) (pos e) 0 pending,
  )
  receive-Told k pending (Result.moved n) rs gives =
      let ep = translate_endpoint (receive_from k (Result.moved n) srb).src.ep in
      (
        deallocate_srb (notify srb ep (pos 0) n pending (move srb n net)),
        rw gives refl,
        notify-Told ep (pos 0) n pending,
      )

  too_small-Told :
      (k : Kernel) (pending : ℕ) (peek : Result)
      → Told 1 net (too_small (record k { peek = peek }) srb pending net)
  too_small-Told k pending (Result.failed e) =
      notify-Told srb.src.ep (if e == 0 then negsuc 0 else pos e) (2 ^ 64 - 1) pending
  too_small-Told k pending (Result.moved n) =
      notify-Told (receive_from k (Result.moved n) srb).src.ep (negsuc 0) n pending

-- `udp_recv_async_tpl` tells the callback once and frees its `srb_t` once where the datagram that
-- waits fits the buffer. Where it does not, it does both twice: the branch for it does not return.
pub udp_recv_async_tpl-times :
    {E : Type 0} (k : Kernel) (srb : Srb) (net : Net E) (size pending : ℕ) (r : Result)
    (rs : List Result)
    → srb.buffer ≡ some size
    → (srb.cb == 0) ≡ false
    → k.pending ≡ some pending
    → k.oper ≡ r ∷ rs
    → (net' : Net E) × (udp_recv_async_tpl k srb net ≡ some net')
      × (length net'.notices ≡ length net.notices + times size pending)
      × (net'.freed ≡ net.freed + times size pending)
unfolding udp_recv_async_tpl
udp_recv_async_tpl-times k srb net size pending r rs known told waits gives =
    elim (Bool-cases (ltb size pending)) [
      | inl larger ↦
          let first = too_small-Told srb net told k pending k.peek in
          let srb1 = receive_from k k.peek srb in
          let (net', run, second) =
            receive-Told srb1 (too_small k srb pending net)
              (ap (λ c. c == 0) (cb-receive_from k k.peek srb) ∙ told) k pending r rs gives in
          (
            net',
            simp (known, waits, larger) run,
            rw larger (omega (arith, first.0, second.0)),
            rw larger (omega (arith, first.1, second.1)),
          )
      | inr fits ↦
          let (net', run, once) = receive-Told srb net told k pending r rs gives in
          (net', simp (known, waits, fits) run, rw fits once.0, rw fits once.1)
    ]

-- The job that stands for an operation, and its address.
abbrev pub job_of_operation : Jobs → EndpointType → SrbOp → ℕ
job_of_operation jobs EndpointType.tcp op = jobs.tcp_send_recv_async_tpl
job_of_operation jobs EndpointType.udp SrbOp.send = jobs.udp_send_async_tpl
job_of_operation jobs EndpointType.udp SrbOp.recv = jobs.udp_recv_async_tpl
job_of_operation jobs EndpointType.none op = 0

-- `srb_operate` at an `srb_t` with a service, a buffer, and an open socket of its type on its side:
-- it registers the job of the operation, for one call, at that socket and for its direction, under
-- the rules of the service, and nothing else. The `srb_t` is set to the whole buffer, of which
-- nothing is moved yet; no callback is told.
pub registry-srb_operate :
    {E : Type 0} (jobs : Jobs) (k : Kernel) (t : EndpointType) (op : SrbOp) (given : Srb)
    (net : Net E) (skt size : ℕ)
    → (side op given).skt ≡ some skt
    → has_type t (side op given) ≡ true
    → given.buffer ≡ some size
    → (srb' : Srb) × (net' : Net E) × (srb_operate jobs k
          (some (record given { op_type = t; op = op; has_iosvc = true }))
          net
        ≡ some (some srb', net'))
      × (registry net'.service ≡ (
          if net.service.allow_new && not (job_of_operation jobs t op == 0)
          then put skt
              (iosvc_op op)
              (record { job = job_of_operation jobs t op; ctx = given.addr; oneshot = true })
              (registry net.service)
          else registry net.service))
      × (srb'.bytes_operated ≡ 0)
      × (srb'.vec ≡ record { iov_base = 0; iov_len = size })
      × (net'.notices ≡ net.notices)
unfolding srb_operate tcp_send_recv_async udp_send_async udp_recv_async
registry-srb_operate jobs k EndpointType.tcp SrbOp.send given net skt size open_ same known =
    let set =
      prepare Name.null 0 size
        (record given { op_type = EndpointType.tcp; op = SrbOp.send; has_iosvc = true }) in
    let job = job_of_operation jobs EndpointType.tcp SrbOp.send in
    (
      set,
      post set skt job net,
      simp open_ (simp same (simp known refl)),
      registry-io_service_post_job net.service skt Op.write true job given.addr,
      refl,
      refl,
      refl,
    )
registry-srb_operate jobs k EndpointType.tcp SrbOp.recv given net skt size open_ same known =
    let set =
      prepare Name.null 0 size
        (record given { op_type = EndpointType.tcp; op = SrbOp.recv; has_iosvc = true }) in
    let job = job_of_operation jobs EndpointType.tcp SrbOp.recv in
    (
      set,
      post set skt job net,
      simp open_ (simp same (simp known refl)),
      registry-io_service_post_job net.service skt Op.read true job given.addr,
      refl,
      refl,
      refl,
    )
registry-srb_operate jobs k EndpointType.udp SrbOp.send given net skt size open_ same known =
    let set =
      prepare Name.of_dst (sizeof_sockaddr given.dst.ep.ep_class) size
        (record given { op_type = EndpointType.udp; op = SrbOp.send; has_iosvc = true }) in
    let job = job_of_operation jobs EndpointType.udp SrbOp.send in
    (
      set,
      post set skt job net,
      simp open_ (simp same (simp known refl)),
      registry-io_service_post_job net.service skt Op.write true job given.addr,
      refl,
      refl,
      refl,
    )
registry-srb_operate jobs k EndpointType.udp SrbOp.recv given net skt size open_ same known =
    let set =
      prepare Name.of_src 128 size
        (record given { op_type = EndpointType.udp; op = SrbOp.recv; has_iosvc = true }) in
    let job = job_of_operation jobs EndpointType.udp SrbOp.recv in
    (
      set,
      post set skt job net,
      simp open_ (simp same (simp known refl)),
      registry-io_service_post_job net.service skt Op.read true job given.addr,
      refl,
      refl,
      refl,
    )
registry-srb_operate jobs k EndpointType.none op given net skt size open_ same known =
    absurd (false≢true same)
