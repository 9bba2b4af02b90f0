-- ===== src/Session/Invariant/Buffers.antt =====
-- The handshake and the receive buffers keep the session's invariant.
use yuwibo_server.Prelude.{
  ℕ, zero, suc, refl, Bool, false, ◌==◌, ok, ◌>>=◌, or_fault, Always, bind-Always, then-Always,
  if-Always, ok-Always, spins-Always,
}
use yuwibo_server.Buffer.{
  Buffer, get_stored_size, get_read_buffer, get_buffer_size, on_read, reset, read_at,
}
use yuwibo_server.Tls.{Ssl, SslError, error_none, error_want_read, error_want_write, error_other}
use yuwibo_server.Session.{
  Uring, provide, Conn, close, flush_tls_write_buffer, tls_handshake, recv_buffer, set_recv_buffer,
  give_back, recycle, feed_tls,
}
use yuwibo_server.Session.Invariant.{IsSound, close-IsSound, request-IsSound}
use yuwibo_server.Session.Invariant.Queue.{flush-IsSound}

module _ (u : Uring) (ssl : Ssl) (W : Type 0) where
  abbrev Good : Conn u ssl W → Type 0
  Good = IsSound

  pub tls_handshake-IsSound :
      (c : Conn u ssl W) → IsSound c → Always (λ r. Good r.1) (tls_handshake u ssl W c)
  unfolding tls_handshake
  tls_handshake-IsSound c i =
      let r = ssl.do_handshake c.tls in
      bind-Always _
        (flush-IsSound u ssl W (record c { tls = r.2 })
          (record { sending = i.sending; closed = i.closed }))
        (λ c₁ i₁.
          if-Always r.0 (λ e. ok-Always (record { sending = i₁.sending; closed = i₁.closed }))
            (λ e. on_error r.1 c₁ i₁))
    where
      on_error :
          (err : SslError) (c' : Conn u ssl W)
          → IsSound c'
          → Always {A = Bool × Conn u ssl W}
              (λ r. Good r.1)
              (elim err [
                | error_want_read ↦ ok (false, c')
                | error_want_write ↦ (do c'' ← flush_tls_write_buffer u ssl W c'; ok (false, c''))
                | _ ↦ (do c'' ← close u ssl W false c'; ok (false, c''))
              ])
      on_error error_none c' j =
          bind-Always _ (close-IsSound u ssl W false c' j) (λ c'' k. ok-Always k)
      on_error error_want_read c' j = ok-Always j
      on_error error_want_write c' j =
          bind-Always _ (flush-IsSound u ssl W c' j) (λ c'' k. ok-Always k)
      on_error error_other c' j =
          bind-Always _ (close-IsSound u ssl W false c' j) (λ c'' k. ok-Always k)

  pub set_recv_buffer-IsSound :
      (id : ℕ) (b : Buffer) (c : Conn u ssl W) → IsSound c → Good (set_recv_buffer u ssl W id b c)
  unfolding set_recv_buffer
  set_recv_buffer-IsSound id b c i = record { sending = i.sending; closed = i.closed }

  give_back-IsSound : (id : ℕ) (c : Conn u ssl W) → IsSound c → Always Good (give_back u ssl W id c)
  unfolding give_back
  give_back-IsSound id c i = then-Always (recv_buffer u ssl W id c) (λ b.
      then-Always (get_buffer_size b)
        (λ size. ok-Always (request-IsSound u ssl W (provide id size) c refl i)))

  pub recycle-IsSound : (id : ℕ) (c : Conn u ssl W) → IsSound c → Always Good (recycle u ssl W id c)
  unfolding recycle
  recycle-IsSound id c i = then-Always (recv_buffer u ssl W id c) (λ b.
      then-Always (reset b) (λ b'. give_back-IsSound id _ (set_recv_buffer-IsSound id b' c i)))

  pub feed_tls-IsSound :
      (fuel id : ℕ) (c : Conn u ssl W)
      → IsSound c
      → Always (λ r. Good r.1) (feed_tls u ssl W fuel id c)
  unfolding feed_tls
  feed_tls-IsSound zero id c i = spins-Always
  feed_tls-IsSound (suc fuel) id c i = then-Always (recv_buffer u ssl W id c) (λ b.
      then-Always (get_stored_size b) (λ stored. then-Always (get_read_buffer b) (λ pos.
        if-Always (stored == 0) (λ e. ok-Always i)
          (λ e. then-Always (or_fault (read_at b.bytes pos stored)) (λ bytes.
            let r = ssl.bio_write bytes c.tls in
            let j : Good (record c { tls = r.1 }) = record {
              sending = i.sending;
              closed = i.closed;
            } in
            if-Always (r.0 == 0) (λ e'. ok-Always j)
              (λ e'.
                then-Always (on_read b r.0)
                  (λ b'. feed_tls-IsSound fuel id _ (set_recv_buffer-IsSound id b' _ j))))))))
