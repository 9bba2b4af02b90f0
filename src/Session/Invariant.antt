-- ===== src/Session/Invariant.antt =====
-- What every operation of a session keeps: a send is in flight or on its way exactly while something
-- is queued, and the descriptor is closed once at most.
pub mod Buffers
pub mod Queue
use yuwibo_server.Prelude.{
  ℕ, zero, suc, ◌+◌, ◌≤◌, ◌≡◌, refl, sym, ap, ◌∙◌, Bool, true, false, not, ◌&&◌, ◌||◌, List, [],
  ◌∷◌, ◌++◌, Option, none, some, arith, ◌==◌, ltb, if◌then◌else◌, inl, inr, ok, ◌>>=◌, or_fault,
  Always, bind-Always, then-Always, if-Always, ok-Always, fault-Always, spins-Always, ◌⊎◌,
}
use yuwibo_server.Buffer.{
  Buffer, new, default_size, get_stored_size, get_read_buffer, get_buffer_size, on_read, reset,
  read_at,
}
use yuwibo_server.Tls.{
  Ssl, SslError, error_none, error_want_read, error_want_write, error_other, get_secret_text,
}
use yuwibo_server.Framing.{build_packet}
use yuwibo_server.Session.{
  Uring, Request, recv_multishot, send_data, send_raw, cancel_recv, close_fd, nop, submitted,
  provide, Session, Conn, request, submit, start_recv, send_text, close, start_close, send_internal,
  flush_tls_write_buffer, send_message, tls_handshake, complete_front, on_send, recv_buffer,
  set_recv_buffer, give_back, recycle, feed_tls,
}

abbrev pub is_queued {ℓ} : {A : Type ℓ} → List A → Bool
is_queued [] = false
is_queued (x ∷ xs) = true

-- How often the descriptor was closed.
abbrev pub closes : List Request → ℕ
closes [] = 0
closes (close_fd fd ∷ rs) = closes rs + 1
closes (r ∷ rs) = closes rs

closes-append : (rs ss : List Request) → closes (rs ++ ss) ≡ closes rs + closes ss
closes-append [] ss = omega arith
closes-append (recv_multishot fd ∷ rs) ss = closes-append rs ss
closes-append (send_data fd bs ∷ rs) ss = closes-append rs ss
closes-append (send_raw fd bs ∷ rs) ss = closes-append rs ss
closes-append (cancel_recv fd ∷ rs) ss = closes-append rs ss
closes-append (close_fd fd ∷ rs) ss = omega (arith, closes-append rs ss)
closes-append (nop ∷ rs) ss = closes-append rs ss
closes-append (submitted ∷ rs) ss = closes-append rs ss
closes-append (provide id n ∷ rs) ss = closes-append rs ss

abbrev pub once : Bool → ℕ
once true = 1
once false = 0

pub record IsSound {R T W : Type 0} (c : Session R T W) : Type 0 where
  pub sending : c.is_sending ≡ is_queued c.send_queue
  pub closed : closes c.requests ≤ once c.closing

module _ (u : Uring) (ssl : Ssl) (W : Type 0) where
  abbrev Good : Conn u ssl W → Type 0
  Good = IsSound

  pub request-IsSound :
      (r : Request) (c : Conn u ssl W)
      → closes (r ∷ []) ≡ 0
      → IsSound c
      → Good (request u ssl W r c)
  request-IsSound r c h i = record {
    sending = i.sending;
    closed = omega (arith, i.closed, closes-append c.requests (r ∷ []));
  }

  pub submit-IsSound : (c : Conn u ssl W) → IsSound c → Good (submit u ssl W c)
  submit-IsSound c i = record {
    sending = i.sending;
    closed = omega (arith, i.closed, closes-append c.requests (submitted ∷ []));
  }

  pub start_recv-IsSound : (c : Conn u ssl W) → IsSound c → Always Good (start_recv u ssl W c)
  unfolding start_recv
  start_recv-IsSound c i =
      if-Always (u.get_sqe c.ring).0
        (λ e. ok-Always (
          submit-IsSound _ (
            request-IsSound (recv_multishot c.fd) (record c { ring = (u.get_sqe c.ring).1 }) refl
              (record { sending = i.sending; closed = i.closed }))))
        (λ e. fault-Always)

  pub send_text-IsSound :
      (bytes : List ℕ) (c : Conn u ssl W) → IsSound c → Always Good (send_text u ssl W bytes c)
  unfolding send_text
  send_text-IsSound bytes c i =
      if-Always (u.get_sqe c.ring).0
        (λ e.
          let j = submit-IsSound _ (
            request-IsSound (send_raw c.fd bytes) (record c { ring = (u.get_sqe c.ring).1 }) refl
              (record { sending = i.sending; closed = i.closed })) in
          ok-Always (record { sending = j.sending; closed = j.closed }))
        (λ e. fault-Always)

  pub close-IsSound :
      (checks : Bool) (c : Conn u ssl W) → IsSound c → Always Good (close u ssl W checks c)
  unfolding close
  close-IsSound checks c i =
      if-Always (checks && (not c.canceling || (c.is_sending || ltb 0 c.send_count)))
        (λ e. ok-Always i)
        (λ e.
          if-Always c.closing (λ e'. ok-Always i)
            (λ open_now.
              if-Always (u.get_sqe c.ring).0
                (λ e'. ok-Always (record {
                  sending = i.sending;
                  closed = omega (
                    arith,
                    i.closed,
                    ap once open_now,
                    closes-append c.requests (close_fd c.fd ∷ []),
                    closes-append (c.requests ++ (close_fd c.fd ∷ [])) (submitted ∷ []),
                  );
                }))
                (λ e'. ok-Always (record {
                  sending = i.sending;
                  closed = omega (arith, i.closed, ap once open_now);
                }))))

  pub start_close-IsSound :
      (submits : Bool) (c : Conn u ssl W) → IsSound c → Always Good (start_close u ssl W submits c)
  unfolding start_close
  start_close-IsSound submits c i =
      if-Always c.canceling (λ e. ok-Always i)
        (λ e.
          if-Always (u.get_sqe c.ring).0 (λ e'. ok-Always (with_flag submits))
            (λ e'. ok-Always (record { sending = i.sending; closed = i.closed })))
    where
      asked : Conn u ssl W
      asked = request u ssl W (cancel_recv c.fd) (record c { ring = (u.get_sqe c.ring).1 })

      asked-IsSound : Good asked
      asked-IsSound =
          request-IsSound (cancel_recv c.fd) _ refl
            (record { sending = i.sending; closed = i.closed })

      with_flag :
          (b : Bool)
          → Good (record (if b then submit u ssl W asked else asked) { canceling = true })
      with_flag true =
          let j = submit-IsSound asked asked-IsSound in
          record { sending = j.sending; closed = j.closed }
      with_flag false = record { sending = asked-IsSound.sending; closed = asked-IsSound.closed }
