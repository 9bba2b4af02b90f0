-- ===== src/Session/Receiving.antt =====
-- The receiving side of a session, for packet handlers that keep a property of the state.
use yuwibo_server.Prelude.{
  ℕ, zero, suc, ◌+◌, false, not, List, Option, none, some, ◌==◌, ltb, leb, if◌then◌else◌, drop,
  Outcome, ok, or_fault, Always, ok-Always, spins-Always, bind-Always, then-Always, if-Always,
  minus_one, add_size,
}
use yuwibo_server.Buffer.{
  Buffer, new, default_size, get_stored_size, get_read_buffer, get_buffer_size, on_write, reset,
  resize, append, preserve_from, read_at,
}
use yuwibo_server.Buffer
use yuwibo_server.Tls.{
  Ssl, SslError, error_none, error_want_read, error_want_write, error_other, get_recv_text,
}
use yuwibo_server.Framing.{ntohs_bytes, process_packet, process_loop, finish}
use yuwibo_server.Session.{
  Uring, Conn, close, flush_tls_write_buffer, recv_buffer, deliver, receive_text, on_recv,
}
use yuwibo_server.Session.Invariant.{IsSound, close-IsSound}
use yuwibo_server.Session.Invariant.Queue.{flush-IsSound}
use yuwibo_server.Session.Invariant.Buffers.{
  tls_handshake-IsSound, set_recv_buffer-IsSound, recycle-IsSound, feed_tls-IsSound,
}

module _ {S : Type 0} (handle : List ℕ → ℕ → S → Outcome S) (P : S → Type 0)
    (keeps : (memory : List ℕ) (len : ℕ) (s : S) → P s → Always P (handle memory len s)) where
  process_loop-Always :
      (fuel : ℕ) (memory : List ℕ) (total offset : ℕ) (s : S)
      → P s
      → Always (λ r. P r.1) (process_loop handle fuel memory total offset s)
  unfolding process_loop
  process_loop-Always zero memory total offset s p = spins-Always
  process_loop-Always (suc fuel) memory total offset s p =
      if-Always (leb (add_size offset 2) total)
        (λ e. then-Always (or_fault (read_at memory offset 2)) (λ two.
          if-Always (ltb total (add_size (add_size offset 2) (ntohs_bytes two))) (λ e'. ok-Always p)
            (λ e'. bind-Always _ (keeps (drop (offset + 2) memory) (ntohs_bytes two) s p) (λ s' p'.
              process_loop-Always fuel memory total (add_size offset (2 + ntohs_bytes two)) s'
                p'))))
        (λ e. ok-Always p)

  pub process_packet-Always :
      (b : Buffer) (s : S) → P s → Always (λ r. P r.2) (process_packet handle b s)
  unfolding process_packet finish
  process_packet-Always b s p = then-Always (get_read_buffer b) (λ pos.
      then-Always (get_stored_size b) (λ total.
        bind-Always _ (process_loop-Always (suc total) (drop pos b.bytes) total 0 s p) (λ r p'.
          if-Always (ltb r.0 total) (λ e. then-Always (preserve_from b r.0) (λ b'. ok-Always p'))
            (λ e. then-Always (reset b) (λ b'. ok-Always p')))))

module _ (u : Uring) (ssl : Ssl) (W : Type 0)
    (handle : List ℕ → ℕ → Conn u ssl W → Outcome (Conn u ssl W))
    (keeps : (memory : List ℕ) (len : ℕ) (c : Conn u ssl W)
      → IsSound c
      → Always {A = Conn u ssl W} IsSound (handle memory len c)) where
  deliver-IsSound :
      (id : ℕ) (c : Conn u ssl W)
      → IsSound c
      → Always {A = Conn u ssl W} IsSound (deliver u ssl W handle id c)
  unfolding deliver
  deliver-IsSound id c i =
      if-Always (c.pending == minus_one)
        (λ e. then-Always (recv_buffer u ssl W id c) (λ b.
          bind-Always _ (process_packet-Always handle IsSound keeps b c i) (λ r j.
            let k = set_recv_buffer-IsSound u ssl W id r.1 r.2 j in
            if-Always r.0 (λ e'. recycle-IsSound u ssl W id _ k)
              (λ e'. ok-Always (record { sending = k.sending; closed = k.closed })))))
        (λ e. then-Always (recv_buffer u ssl W id c) (λ b.
          then-Always (recv_buffer u ssl W c.pending c) (λ held.
            then-Always (append held b) (λ held'.
              bind-Always _
                (recycle-IsSound u ssl W id _ (set_recv_buffer-IsSound u ssl W c.pending held' c i))
                (λ c₁ i₁.
                  bind-Always _ (process_packet-Always handle IsSound keeps held' c₁ i₁) (λ r j.
                    let k = set_recv_buffer-IsSound u ssl W r.2.pending r.1 r.2 j in
                    if-Always r.0
                      (λ e'.
                        bind-Always _ (recycle-IsSound u ssl W _ _ k) (λ c₂ i₂.
                          ok-Always (record { sending = i₂.sending; closed = i₂.closed })))
                      (λ e'. ok-Always k)))))))

  receive_text-IsSound :
      (id : ℕ) (c : Conn u ssl W)
      → IsSound c
      → Always {A = Conn u ssl W} IsSound (receive_text u ssl W handle id c)
  unfolding receive_text
  receive_text-IsSound id c i = then-Always (get_recv_text ssl (new default_size) c.tls) (λ r.
      bind-Always _
        (on_error r.1 (record c { tls = r.3 }) (record { sending = i.sending; closed = i.closed }))
        (λ c₁ i₁.
          if-Always (r.0 == 0) (λ e. ok-Always i₁)
            (λ e. then-Always (recv_buffer u ssl W id c₁) (λ b.
              then-Always (get_buffer_size b) (λ size.
                then-Always (if ltb size r.0 then resize b r.0 else reset b) (λ b'.
                  then-Always (or_fault (read_at (r.2).bytes 0 r.0)) (λ bytes.
                    then-Always (Buffer.write b' bytes) (λ b''.
                      deliver-IsSound id _ (set_recv_buffer-IsSound u ssl W id b'' c₁ i₁)))))))))
    where
      on_error :
          (err : SslError) (c' : Conn u ssl W)
          → IsSound c'
          → Always {A = Conn u ssl W} IsSound (elim err [
            | error_none ↦ ok c'
            | error_want_read ↦ ok c'
            | error_want_write ↦ flush_tls_write_buffer u ssl W c'
            | _ ↦ close u ssl W false c'
          ])
      on_error error_none c' j = ok-Always j
      on_error error_want_read c' j = ok-Always j
      on_error error_want_write c' j = flush-IsSound u ssl W c' j
      on_error error_other c' j = close-IsSound u ssl W false c' j

  pub on_recv-IsSound :
      (result : Option ℕ) (id : ℕ) (c : Conn u ssl W)
      → IsSound c
      → Always {A = Conn u ssl W} IsSound (on_recv u ssl W handle result id c)
  unfolding on_recv
  on_recv-IsSound none id c i = close-IsSound u ssl W false c i
  on_recv-IsSound (some n) id c i = then-Always (recv_buffer u ssl W id c) (λ b.
      then-Always (on_write b n) (λ b'.
        bind-Always _
          (feed_tls-IsSound u ssl W (suc n) id _ (set_recv_buffer-IsSound u ssl W id b' c i))
          (λ r j.
            if-Always (not r.0) (λ e. close-IsSound u ssl W false r.1 j)
              (λ e.
                if-Always r.1.handshaking
                  (λ e'. bind-Always _ (tls_handshake-IsSound u ssl W r.1 j) (λ q k.
                    if-Always q.0 (λ e''. receive_text-IsSound id q.1 k)
                      (λ e''. recycle-IsSound u ssl W id q.1 k)))
                  (λ e'. receive_text-IsSound id r.1 j)))))
