-- ===== src/OtmServer/Closing.antt =====
-- network/one-to-many/server.c: what `otm_server_tcp_deinit` closes and frees.
use mathlib.Core.List.{append_assoc, append-nil}
use chats.Prelude.{
  ℕ, zero, suc, ◌-◌, ◌<◌, ◌≡◌, ◌≢◌, refl, sym, ◌∙◌, true, false, Option, none, some, List, [], ◌∷◌,
  ◌++◌, arith, ◌==◌, length, Bool-cases, inl, inr,
}
use chats.LinkedList.{Ptr, null, data_of, data_or_null, Memory, list_remove_next}
use chats.LinkedList.Chain.{first_or, occurs, IsList}
use chats.LinkedList.Ends.{list_first_element_lem}
use chats.LinkedList.Links.{not_null}
use chats.LinkedList.Removal.{list_remove-Removed}
use chats.Sockets.{close}
use chats.OtmServer.{OtmServerTcp, close_connection, locked, close_all, otm_server_tcp_deinit}
use chats.Sockets.{Connection}

-- The open sockets of the connections at the elements `xs`, in order.
abbrev pub sockets : (Ptr → Connection) → List Ptr → List ℕ
sockets connections [] = []
sockets connections (x ∷ xs) =
    close (connections (data_of x)).ep_skt.skt [] ++ sockets connections xs

-- The connections at the elements `xs` of the list are closed, in order, and the elements freed.
pub record AllClosed {E : Type 0} (xs : List Ptr) (s s' : OtmServerTcp E) : Type 0 where
  pub closed : s'.closed ≡ s.closed ++ sockets s.connections xs
  pub listed : IsList s'.memory s.remotes_list []
  pub freed : (a : Ptr) → occurs a xs ≡ true → s'.memory.elements a ≡ none
  pub spared : (a : Ptr) → occurs a xs ≡ false → s'.memory.elements a ≡ s.memory.elements a
  pub local : s'.local ≡ s.local
  pub mutex : s'.mutex ≡ s.mutex

close_append :
    (skt : Option ℕ) (closed more : List ℕ)
    → close skt closed ++ more ≡ closed ++ (close skt [] ++ more)
close_append none closed more = refl
close_append (some fd) closed more = append_assoc closed (fd ∷ []) more

module _ {E : Type 0} where
  close_step :
      (rounds : ℕ) (p : Ptr) (s : OtmServerTcp E) {next : Ptr} {memory : Memory}
      → list_remove_next s.remotes_list (data_of p) s.memory ≡ some (next, memory)
      → close_all (suc rounds) (data_of p) s
        ≡ close_all rounds next
            (record (close_connection (s.connections (data_of p)) s) { memory = memory })
  unfolding close_all
  close_step rounds p s h =
      let there : (data_of p == null) ≡ false = ground arith in rw (there, close_all, h) refl

  close_all-AllClosed :
      (rounds : ℕ) (xs : List Ptr) (s : OtmServerTcp E)
      → length xs < rounds
      → IsList s.memory s.remotes_list xs
      → (s' : OtmServerTcp E) × (close_all rounds (data_or_null (first_or xs null)) s ≡ some s')
        × AllClosed xs s s'
  unfolding close_all
  close_all-AllClosed zero xs s enough is = absurd (omega arith)
  close_all-AllClosed (suc rounds) [] s enough is = (
    s,
    refl,
    record {
      closed = sym (append-nil s.closed);
      listed = is;
      freed = λ a m. cc;
      spared = λ a out. refl;
      local = refl;
      mutex = refl;
    },
  )
  close_all-AllClosed (suc rounds) (x ∷ xs) s enough is =
      let (memory, done, next, prev, r) = list_remove-Removed s.remotes_list x s.memory [] xs is in
      let c = s.connections (data_of x) in
      let s1 : OtmServerTcp E = record (close_connection c s) { memory = memory } in
      let (s', rest, closed) = close_all-AllClosed rounds xs s1 (omega arith) r.is_list in
      (
        s',
        rw (not_null x is.chain.0) (close_step rounds x s next ∙ rest),
        record {
          closed = closed.closed ∙ close_append c.ep_skt.skt s.closed (sockets s.connections xs);
          listed = closed.listed;
          freed = λ a m. elim (Bool-cases (occurs a xs)) [
            | inl there ↦ closed.freed a there
            | inr out ↦ let here : a ≡ x = ground arith in closed.spared a out ∙ rw here r.freed
          ];
          spared = λ a out.
              let past : occurs a xs ≡ false = ground arith in
              closed.spared a past ∙ r.spared a out;
          local = closed.local;
          mutex = closed.mutex;
        },
      )

  -- `otm_server_tcp_deinit` of a server whose list has the elements `xs`, with a round more than
  -- there are, comes to its end: it closes the socket of each connection once, in order, and then its
  -- own, frees each element and no other one, and gives its lock back. The list itself is not freed.
  pub otm_server_tcp_deinit-AllClosed :
      (rounds : ℕ) (server : Ptr) (xs : List Ptr) (s : OtmServerTcp E)
      → server ≢ null
      → length xs < rounds
      → IsList s.memory s.remotes_list xs
      → (s' : OtmServerTcp E) × (otm_server_tcp_deinit rounds server s ≡ some s')
        × (s'.closed ≡ close s.local.skt (s.closed ++ sockets s.connections xs))
        × ((a : Ptr) → occurs a xs ≡ true → s'.memory.elements a ≡ none)
        × ((a : Ptr) → occurs a xs ≡ false → s'.memory.elements a ≡ s.memory.elements a)
        × IsList s'.memory s.remotes_list []
        × (s'.mutex ≡ s.mutex)
  unfolding otm_server_tcp_deinit
  otm_server_tcp_deinit-AllClosed rounds server xs s n enough is =
      let (s1, done, c) = close_all-AllClosed rounds xs (locked s) enough is in
      (
        record s1 { closed = close s1.local.skt s1.closed; mutex = s1.mutex - 1 },
        rw (not_null server n, list_first_element_lem s.remotes_list s.memory xs is, done) refl,
        rw (c.closed, c.local) refl,
        c.freed,
        c.spared,
        c.listed,
        omega (arith, c.mutex),
      )
