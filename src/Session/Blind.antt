-- ===== src/Session/Blind.antt =====
-- Session::Send and what it calls neither look at the receive buffers nor change them.
use yuwibo_server.Prelude.{
  ℕ, ◌+◌, ◌%◌, ◌≡◌, refl, sym, ap, ◌∙◌, Bool, true, false, not, ◌&&◌, ◌||◌, List, [], ◌∷◌, ◌++◌,
  ◌==◌, ltb, if◌then◌else◌, Outcome, ok, ◌>>=◌, >>=-ok, or_fault, ok-injective, fault, deadlock,
  spins, spins-Always, Always, ok-Always, fault-Always, u16_mod,
}
use mathlib.Core.Path.{ap₂}
use yuwibo_server.Buffer.{Buffer, new, default_size, get_stored_size, get_read_buffer, read_at}
use yuwibo_server.Tls.{
  Ssl, SslError, error_none, error_want_read, error_want_write, error_other, get_secret_text,
}
use yuwibo_server.Framing.{build_packet}
use yuwibo_server.Session.{
  Uring, Request, send_data, close_fd, submitted, Conn, close, send_internal,
  flush_tls_write_buffer, send_message,
}
use yuwibo_server.Session.View.{own_requests, own_requests-append, view, IsBlind}

module _ (u : Uring) (ssl : Ssl) (W : Type 0) where
  -- The receive buffers are those of `c`.
  abbrev pub SameBuffers : Conn u ssl W → Conn u ssl W → Type 0
  SameBuffers c c' = (c'.pool ≡ c.pool) × (c'.pending ≡ c.pending)

  -- One run ends with the view of where the other ends, and that one keeps the receive buffers.
  pub record Mirrors (c : Conn u ssl W) (seen out : Outcome (Conn u ssl W)) : Type 0 where
    pub same : seen ≡ (out >>= λ c'. ok (view u ssl W c'))
    pub kept : Always (SameBuffers c) out

  ok-Mirrors :
      (c c' v : Conn u ssl W) → v ≡ view u ssl W c' → SameBuffers c c' → Mirrors c (ok v) (ok c')
  ok-Mirrors c c' v e kept = record { same = ap (λ x. ok x) e; kept = ok-Always kept }

  if-Mirrors :
      (c : Conn u ssl W) (b : Bool) {x y x' y' : Outcome (Conn u ssl W)}
      → Mirrors c x x'
      → Mirrors c y y'
      → Mirrors c (if b then x else y) (if b then x' else y')
  if-Mirrors c true h k = h
  if-Mirrors c false h k = k

  then-Mirrors :
      {A : Type 0} (c : Conn u ssl W) (m : Outcome A) {f f' : A → Outcome (Conn u ssl W)}
      → ((a : A) → Mirrors c (f a) (f' a))
      → Mirrors c (m >>= f) (m >>= f')
  then-Mirrors c (ok a) h = h a
  then-Mirrors c fault h = record { same = refl; kept = fault-Always }
  then-Mirrors c deadlock h = record { same = refl; kept = record { of_result = λ a e. cc } }
  then-Mirrors c spins h = record { same = refl; kept = spins-Always }

  two_more :
      (rs : List Request) (r s : Request)
      → own_requests (r ∷ []) ≡ r ∷ []
      → own_requests (s ∷ []) ≡ s ∷ []
      → (own_requests rs ++ (r ∷ [])) ++ (s ∷ []) ≡ own_requests ((rs ++ (r ∷ [])) ++ (s ∷ []))
  two_more rs r s er es = sym (
      own_requests-append (rs ++ (r ∷ [])) (s ∷ [])
      ∙ ap₂ (λ xs ys. xs ++ ys)
          (own_requests-append rs (r ∷ []) ∙ ap (λ xs. own_requests rs ++ xs) er) es)

  close-Mirrors :
      (c c' : Conn u ssl W) (check : Bool)
      → SameBuffers c c'
      → Mirrors c (close u ssl W check (view u ssl W c')) (close u ssl W check c')
  unfolding close
  close-Mirrors c c' check kept =
      if-Mirrors c (check && (not c'.canceling || (c'.is_sending || ltb 0 c'.send_count)))
        (ok-Mirrors c c' (view u ssl W c') refl kept)
        (if-Mirrors c c'.closing (ok-Mirrors c c' (view u ssl W c') refl kept) (
          if-Mirrors c (u.get_sqe c'.ring).0
            (ok-Mirrors c _ _
              (ap
                (λ rs. record (view u ssl W c') {
                  closing = true;
                  ring = u.submit (u.get_sqe c'.ring).1;
                  requests = rs;
                })
                (two_more c'.requests (close_fd c'.fd) submitted refl refl))
              kept)
            (ok-Mirrors c (record c' { closing = true; ring = (u.get_sqe c'.ring).1 }) _ refl
              kept)))

  send_internal-Mirrors :
      (c c' : Conn u ssl W)
      → SameBuffers c c'
      → Mirrors c (send_internal u ssl W (view u ssl W c')) (send_internal u ssl W c')
  unfolding send_internal
  send_internal-Mirrors c c' kept = by_queue c'.send_queue
    where
      by_queue :
          (q : List Buffer)
          → Mirrors c
              (send_internal u ssl W (record (view u ssl W c') { send_queue = q }))
              (send_internal u ssl W (record c' { send_queue = q }))
      by_queue [] = ok-Mirrors c (record c' { send_queue = [] }) _ refl kept
      by_queue (front ∷ rest) = then-Mirrors c (get_stored_size front) (λ len.
          if-Mirrors c (u.get_sqe c'.ring).0
            (then-Mirrors c (get_read_buffer front) (λ pos.
              then-Mirrors c (or_fault (read_at front.bytes pos len)) (λ bytes.
                ok-Mirrors c _ _
                  (ap
                    (λ rs. record (view u ssl W c') {
                      send_queue = front ∷ rest;
                      ring = u.submit (u.get_sqe c'.ring).1;
                      send_count = (c'.send_count + 1) % u16_mod;
                      requests = rs;
                    })
                    (two_more c'.requests (send_data c'.fd bytes) submitted refl refl))
                  kept)))
            (ok-Mirrors c (record c' { send_queue = front ∷ rest; ring = (u.get_sqe c'.ring).1 }) _
              refl kept))

  flush-Mirrors :
      (c c' : Conn u ssl W)
      → SameBuffers c c'
      → Mirrors c
          (flush_tls_write_buffer u ssl W (view u ssl W c'))
          (flush_tls_write_buffer u ssl W c')
  unfolding flush_tls_write_buffer
  flush-Mirrors c c' kept = then-Mirrors c (get_secret_text ssl (new default_size) c'.tls) (λ r.
      if-Mirrors c (r.0 == 0) (ok-Mirrors c (record c' { tls = r.2 }) _ refl kept) (
        if-Mirrors c c'.is_sending
          (ok-Mirrors c (record c' { tls = r.2; send_queue = c'.send_queue ++ (r.1 ∷ []) }) _ refl
            kept)
          (send_internal-Mirrors c
            (record c' { tls = r.2; send_queue = c'.send_queue ++ (r.1 ∷ []); is_sending = true })
            kept)))

  send_message-Mirrors :
      (c : Conn u ssl W) (id : ℕ) (serialized : List ℕ)
      → Mirrors c
          (send_message u ssl W id serialized (view u ssl W c))
          (send_message u ssl W id serialized c)
  unfolding send_message
  send_message-Mirrors c id serialized = then-Mirrors c (build_packet id serialized) (λ b.
      then-Mirrors c (get_stored_size b) (λ len.
        then-Mirrors c (or_fault (read_at b.bytes 0 len)) (λ bytes.
          let tls = (ssl.write bytes c.tls).2 in
          if-Mirrors c (ssl.write bytes c.tls).0
            (flush-Mirrors c (record c { tls = tls }) (refl, refl))
            (on_error (ssl.write bytes c.tls).1 (record c { tls = tls }) (refl, refl)))))
    where
      on_error :
          (err : SslError) (c' : Conn u ssl W)
          → SameBuffers c c'
          → Mirrors c
              (elim err [
                | error_want_write ↦ flush_tls_write_buffer u ssl W (view u ssl W c')
                | error_want_read ↦ flush_tls_write_buffer u ssl W (view u ssl W c')
                | _ ↦ close u ssl W false (view u ssl W c')
              ])
              (elim err [
                | error_want_write ↦ flush_tls_write_buffer u ssl W c'
                | error_want_read ↦ flush_tls_write_buffer u ssl W c'
                | _ ↦ close u ssl W false c'
              ])
      on_error error_want_write c' kept = flush-Mirrors c c' kept
      on_error error_want_read c' kept = flush-Mirrors c c' kept
      on_error error_none c' kept = close-Mirrors c c' false kept
      on_error error_other c' kept = close-Mirrors c c' false kept

  -- What a call of Send does depends on the view alone, and changes nothing else.
  pub send_message-IsBlind :
      (reply : List ℕ → ℕ × List ℕ)
      → IsBlind u ssl W (λ body. send_message u ssl W (reply body).0 (reply body).1)
  send_message-IsBlind reply body c v e =
      let m = send_message-Mirrors c (reply body).0 (reply body).1 in
      let (c', made, same) =
        >>=-ok (send_message u ssl W (reply body).0 (reply body).1 c) (λ c'. ok (view u ssl W c')) v
          (sym m.same ∙ e) in
      let (pool, pending) = m.kept.of_result c' made in (c', made, ok-injective same, pool, pending)
