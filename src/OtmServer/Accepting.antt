-- ===== src/OtmServer/Accepting.antt =====
-- network/one-to-many/server.c: what the list of connections has behind `tcp_acceptor`.
use mathlib.Core.List.{append-nil}
use chats.Prelude.{
  ℕ, suc, ◌+◌, ◌-◌, ◌<◌, ◌^◌, ◌≡◌, refl, ap, ◌∙◌, Bool, true, false, none, some, List, [], ◌∷◌,
  ◌++◌, arith, ◌==◌, length,
}
use chats.Network.Endpoints.{Sockaddr, EndpointType, translate_endpoint}
use chats.LinkedList.{Ptr, null, data_of, ListElement, Memory, Allocation}
use chats.LinkedList.Adding.{list_append}
use chats.LinkedList.Chain.{IsList}
use chats.LinkedList.Growth.{IsFresh, list_append-Changed}
use chats.LinkedList.Removal.{list_remove-Removed}
use chats.OtmServer.{OtmServerTcp, Callback, answered, put_connection, locked, tcp_acceptor}
use chats.Sockets.{Acceptor, connected_to}

-- The server as the callback finds it: `memory` is that behind the append of the element.
abbrev pub told :
    {E : Type 0} → Acceptor → Ptr → (afd : ℕ) → Sockaddr → Memory → OtmServerTcp E → OtmServerTcp E
told a p afd addr memory s =
    put_connection p (connected_to a.host afd addr (s.connections p))
      (record (locked s) { memory = memory })

-- A connection kept: it is the last one of the list, open, and belongs to the server.
pub record Kept {E : Type 0} (s s' : OtmServerTcp E) (xs : List Ptr) (m afd : ℕ) (addr : Sockaddr)
    (host : Ptr) : Type 0 where
  pub listed : IsList s'.memory s.remotes_list (xs ++ m ∷ [])
  pub hosted : (s'.connections (data_of m)).host ≡ host
  pub socket : (s'.connections (data_of m)).ep_skt.skt ≡ some afd
  pub address :
      (s'.connections (data_of m)).ep_skt.ep
      ≡ translate_endpoint
          (record (s.connections (data_of m)).ep_skt.ep { ep_type = EndpointType.tcp; addr = addr })
  pub closed : s'.closed ≡ s.closed

-- A connection turned down: its socket is closed, its element freed, and the list as before.
pub record TurnedDown {E : Type 0} (s s' : OtmServerTcp E) (xs : List Ptr) (m afd : ℕ)
    : Type 0 where
  pub listed : IsList s'.memory s.remotes_list xs
  pub freed : s'.memory.elements m ≡ none
  pub closed : s'.closed ≡ s.closed ++ afd ∷ []

module _ {E : Type 0} (a : Acceptor) (m afd : ℕ) (addr : Sockaddr) (memory : Memory)
    (s : OtmServerTcp E) where
  answered-Kept :
      (xs : List Ptr)
      → IsList memory s.remotes_list (xs ++ m ∷ [])
      → (s' : OtmServerTcp E) × (answered (data_of m) (told a (data_of m) afd addr memory s, true)
          ≡ some s')
        × Kept s s' xs m afd addr a.host
  unfolding answered
  answered-Kept xs is =
      let same : (data_of m == data_of m) ≡ true = ground arith in
      (
        record s {
          mutex = s.mutex + 1 - 1;
          memory = memory;
          connections = (told a (data_of m) afd addr memory s).connections;
        },
        refl,
        record {
          listed = is;
          hosted = rw same refl;
          socket = rw same refl;
          address = rw same refl;
          closed = refl;
        },
      )

  answered-TurnedDown :
      (xs : List Ptr)
      → IsList memory s.remotes_list (xs ++ m ∷ [])
      → (s' : OtmServerTcp E) × (answered (data_of m) (told a (data_of m) afd addr memory s, false)
          ≡ some s')
        × TurnedDown s s' xs m afd
  unfolding answered
  answered-TurnedDown xs is =
      let same : (data_of m == data_of m) ≡ true = ground arith in
      let (memory', done, next, prev, r) = list_remove-Removed s.remotes_list m memory xs [] is in
      (
        record s {
          mutex = s.mutex + 1 - 1;
          memory = memory';
          connections = (told a (data_of m) afd addr memory s).connections;
          closed = s.closed ++ afd ∷ [];
        },
        rw (done, same) refl,
        record { listed = rw (append-nil xs) at r.is_list; freed = r.freed; closed = refl },
      )

-- What the answer of the callback makes of a connection.
abbrev pub Answer :
    {E : Type 0}
    → Bool
    → (s s' : OtmServerTcp E) → (xs : List Ptr) → (m afd : ℕ) → Sockaddr
    → (host : Ptr) → Type 0
Answer true s s' xs m afd addr host = Kept s s' xs m afd addr host
Answer false s s' xs m afd addr host = TurnedDown s s' xs m afd

module _ {E : Type 0} (fall_off : Ptr → Ptr) (call : Callback E)
    (untouched : (cb connection err ctx : ℕ) (s : OtmServerTcp E)
      → (call cb connection err ctx s).0 ≡ s) where
  answered-Answer :
      (a : Acceptor) (m afd : ℕ) (addr : Sockaddr) (memory : Memory) (s : OtmServerTcp E)
      (xs : List Ptr) (answer : Bool)
      → IsList memory s.remotes_list (xs ++ m ∷ [])
      → (s' : OtmServerTcp E) × (answered (data_of m) (told a (data_of m) afd addr memory s, answer)
          ≡ some s')
        × Answer answer s s' xs m afd addr a.host
  answered-Answer a m afd addr memory s xs true is = answered-Kept a m afd addr memory s xs is
  answered-Answer a m afd addr memory s xs false is =
      answered-TurnedDown a m afd addr memory s xs is

  -- `tcp_acceptor` of a server whose list has the elements `xs`, where the allocation and `accept`
  -- succeed, the count does not overflow, and the callback leaves the server as it is: it comes to its
  -- end, the callback having been told of the new connection with no error. If the callback keeps it,
  -- it is listed behind the others, open, and the server's; if not, its socket is closed, its element
  -- freed, and the list is as before.
  pub tcp_acceptor-Answer :
      (m : Allocation ListElement) (a : Acceptor) (afd : ℕ) (addr : Sockaddr) (s : OtmServerTcp E)
      (xs : List Ptr)
      → IsFresh fall_off m s.memory
      → IsList s.memory s.remotes_list xs
      → suc (length xs) < 2 ^ 64
      → (memory : Memory) × (s' : OtmServerTcp E) × (list_append fall_off m s.remotes_list s.memory
          ≡ some (data_of m.address, memory))
        × (tcp_acceptor fall_off call m (some (afd, addr)) a s ≡ some s')
        × Answer
            (call a.connection_cb
              (data_of m.address)
              0
              a.connection_ctx
              (told a (data_of m.address) afd addr memory s)).1
            s
            s'
            xs
            m.address
            afd
            addr
            a.host
  unfolding tcp_acceptor
  tcp_acceptor-Answer m a afd addr s xs f is room =
      let (memory, appended, changed) =
        list_append-Changed fall_off m s.remotes_list s.memory xs f is room in
      let p = data_of m.address in
      let there : (p == null) ≡ false = ground arith in
      let start = told a p afd addr memory s in
      let answer = (call a.connection_cb p 0 a.connection_ctx start).1 in
      let (s', done, outcome) =
        answered-Answer a m.address afd addr memory s xs answer changed.is_list in
      (
        memory,
        s',
        appended,
        rw (appended, there)
            (ap (λ (u : OtmServerTcp E). answered p (u, answer))
                (untouched a.connection_cb p 0 a.connection_ctx start)
              ∙ done),
        outcome,
      )
