-- ===== src/Sockets/Tests.antt =====
-- Runs of the loop over the addresses.
use chats.Prelude.{ℕ, ◌≡◌, refl, true, false, some, [], ◌∷◌}
use chats.Network.Endpoints.{Sockaddr}
use chats.Sockets.{Candidate, Bound, bind_loop}

abbrev candidate : ℕ → Candidate
candidate fd = record {
  addr = Sockaddr.other fd;
  socket = some fd;
  setsockopt_fails = false;
  bind_fails = true;
}

-- The first two cannot be bound, and are closed.
third :
    bind_loop
      (candidate 4 ∷ candidate 5 ∷ record (candidate 6) { bind_fails = false } ∷ candidate 7 ∷ [])
    ≡ (Bound.bound 6 (Sockaddr.other 6), 4 ∷ 5 ∷ [])
unfolding bind_loop
third = refl
