-- ===== src/Network/Stages.antt =====
-- What one call of `tcp_send_recv_async_tpl` of network/network.c does, by the system call's result.
use chats.Prelude.{ℕ, ◌+◌, ◌≡◌, refl, true, false, none, some, ◌==◌, ltb}
use chats.Prelude.Int.{pos}
use chats.Network.{
  Srb, Result, Net, remote, notify, move, post, deallocate_srb, sub_size, tcp_send_recv_async_tpl,
}

-- The `srb_t` as the system call sees it, and behind a call that moved `n` bytes.
abbrev pub asked : Srb → (size : ℕ) → Srb
asked srb size = record srb {
  vec = record { iov_base = srb.bytes_operated; iov_len = sub_size size srb.bytes_operated };
}

abbrev pub moving : Srb → (size n : ℕ) → Srb
moving srb size n = record (asked srb size) { bytes_operated = srb.bytes_operated + n }

-- The job's result, by that of the system call.
module _ {E : Type 0} (tpl stale fd : ℕ) (srb : Srb) (size : ℕ) (known : srb.buffer ≡ some size)
    (pending : ℕ) (net : Net E) where
  pub tpl-again :
      (e : ℕ)
      → (e == 11) ≡ true
      → tcp_send_recv_async_tpl tpl stale srb fd (Result.failed e) (some pending) net
        ≡ some (some (asked srb size), post (asked srb size) fd tpl net)
  unfolding tcp_send_recv_async_tpl
  tpl-again e h = rw (known, h) refl

  pub tpl-failed :
      (e : ℕ)
      → (e == 11) ≡ false
      → tcp_send_recv_async_tpl tpl stale srb fd (Result.failed e) (some pending) net
        ≡ some (
          none,
          deallocate_srb
              (notify (asked srb size) (remote srb).ep (pos e) srb.bytes_operated stale net),
        )
  unfolding tcp_send_recv_async_tpl
  tpl-failed e h = rw (known, h) refl

  pub tpl-more :
      (n : ℕ)
      → ltb (srb.bytes_operated + n) size ≡ true
      → tcp_send_recv_async_tpl tpl stale srb fd (Result.moved n) (some pending) net
        ≡ some (
          some (moving srb size n),
          post (moving srb size n) fd tpl (move (asked srb size) n net),
        )
  unfolding tcp_send_recv_async_tpl
  tpl-more n h = rw (known, h) refl

  pub tpl-done :
      (n : ℕ)
      → ltb (srb.bytes_operated + n) size ≡ false
      → tcp_send_recv_async_tpl tpl stale srb fd (Result.moved n) (some pending) net
        ≡ some (
          none,
          deallocate_srb (
              notify
                (moving srb size n)
                (remote srb).ep
                (pos 0)
                (srb.bytes_operated + n)
                pending
                (move (asked srb size) n net)),
        )
  unfolding tcp_send_recv_async_tpl
  tpl-done n h = rw (known, h) refl
