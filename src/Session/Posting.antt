-- ===== src/Session/Posting.antt =====
-- Session::Send from one end to the other: from a message to the encrypted bytes in the send queue and
-- the request to io_uring.
use yuwibo_server.Prelude.{
  ℕ, ◌%◌, ◌+◌, ◌-◌, ◌<◌, ◌≡◌, ◌≢◌, refl, sym, ap, ◌∙◌, true, false, List, [], ◌∷◌, ◌++◌,
  append_assoc, append-nil, arith, length, take, drop, ◌==◌, if◌then◌else◌, Bool-cases, inl, inr,
  Outcome, ok, u16_mod,
}
use yuwibo_server.Buffer.{Buffer, default_size, contents}
use yuwibo_server.Buffer.Laws.{length-contents}
use yuwibo_server.Buffer.Whole.{read_all, read_stored}
use yuwibo_server.Buffer.Consuming.{get_stored_size_lem, get_read_buffer_lem}
use yuwibo_server.Framing.{htons_bytes}
use yuwibo_server.Framing.Stream.{encode}
use yuwibo_server.Framing.Build.{build_packet-encode}
use yuwibo_server.Tls.{Ssl}
use yuwibo_server.Tls.Drain.{IsQueue, bio_reader, get_secret_text_lem}
use yuwibo_server.Session.{
  Uring, send_data, submitted, Conn, send_internal, flush_tls_write_buffer, send_message,
}
use yuwibo_server.Session.Invariant.{IsSound, is_queued}
use yuwibo_server.Session.Decrypting.{some_taken}
use yuwibo_server.Session.Sending.{queued}

-- An established TLS connection that encrypts into a memory BIO: what SSL_write makes of bytes goes
-- behind what waits there.
pub record IsSealer (ssl : Ssl) : Type 0 where
  pub queue : IsQueue (bio_reader ssl)
  pub sealed : ssl.State → List ℕ → List ℕ
  pub written : (bytes : List ℕ) (st : ssl.State) → bytes ≢ [] → (ssl.write bytes st).0 ≡ true
  pub adds :
      (bytes : List ℕ) (st : ssl.State)
      → queue.pending (ssl.write bytes st).2 ≡ queue.pending st ++ sealed st bytes

queued-append : (bs cs : List Buffer) → queued (bs ++ cs) ≡ queued bs ++ queued cs
queued-append [] cs = refl
queued-append (b ∷ bs) cs =
    ap (λ xs. contents b ++ xs) (queued-append bs cs)
    ∙ sym (append_assoc (contents b) (queued bs) (queued cs))

module _ (u : Uring) (ssl : Ssl) (W : Type 0) where
  -- The receive buffers and the phase of the connection stay.
  abbrev pub Stays : Conn u ssl W → Conn u ssl W → Type 0
  Stays c c' = (c'.pool ≡ c.pool) × (c'.handshaking ≡ c.handshaking)

  -- From `c` to `c'`: the bytes wait to be sent, as far as a buffer of the usual size holds them, and
  -- are being sent if nothing was before and there is an entry.
  abbrev pub Posted : IsQueue (bio_reader ssl) → List ℕ → Conn u ssl W → Conn u ssl W → Type 0
  Posted q waiting c c' =
      (queued c'.send_queue ≡ queued c.send_queue ++ take default_size waiting)
      × (q.pending c'.tls ≡ drop default_size waiting)
      × (c'.is_sending ≡ true)
      × (c'.requests
          ≡ c.requests
            ++ (if c.is_sending
                then []
                else (if (u.get_sqe c.ring).0
                    then send_data c.fd (take default_size waiting) ∷ submitted ∷ []
                    else [])))

  abbrev pub Posts :
      IsQueue (bio_reader ssl) → List ℕ → Conn u ssl W → Outcome (Conn u ssl W) → Type 0
  Posts q waiting c out = (c' : Conn u ssl W) × (out ≡ ok c') × Stays c c' × Posted q waiting c c'

  pub flush-Posts :
      (q : IsQueue (bio_reader ssl)) (c : Conn u ssl W) (waiting : List ℕ)
      → IsSound c
      → q.pending c.tls ≡ waiting
      → waiting ≢ []
      → Posts q waiting c (flush_tls_write_buffer u ssl W c)
  unfolding flush_tls_write_buffer send_internal
  flush-Posts q c waiting sound held some_left =
      let (n, b, st, got, v, taken, counted, left) =
        get_secret_text_lem ssl q default_size c.tls (omega arith) in
      let same : contents b ≡ take default_size waiting = taken ∙ ap (take default_size) held in
      let later = left ∙ ap (drop default_size) held in
      let more =
        ap (λ k. k == 0) (counted ∙ ap (λ xs. length (take default_size xs)) held)
        ∙ some_taken waiting some_left in
      elim (Bool-cases c.is_sending) [
        | inl sending ↦ (
          record c { tls = st; send_queue = c.send_queue ++ (b ∷ []) },
          rw (got, more, sending) refl,
          (refl, refl),
          (
            behind c.send_queue b (take default_size waiting) same,
            later,
            sending,
            rw sending (sym (append-nil c.requests)),
          ),
        )
        | inr idle ↦
            let alone : c.send_queue ≡ [] = nothing c.send_queue (sym sound.sending ∙ idle) in
            elim (Bool-cases (u.get_sqe c.ring).0) [
              | inl free ↦ (
                record c {
                  tls = st;
                  send_queue = b ∷ [];
                  is_sending = true;
                  ring = u.submit (u.get_sqe c.ring).1;
                  requests = (c.requests ++ (send_data c.fd (contents b) ∷ [])) ++ (submitted ∷ []);
                  send_count = (c.send_count + 1) % u16_mod;
                },
                rw
                    (
                      got,
                      more,
                      idle,
                      alone,
                      get_stored_size_lem v,
                      free,
                      get_read_buffer_lem v,
                      read_stored v,
                    )
                    refl,
                (refl, refl),
                (
                  ap queued (sym (ap (λ q. q ++ (b ∷ [])) alone))
                      ∙ behind c.send_queue b (take default_size waiting) same,
                  later,
                  refl,
                  rw (idle, free)
                      (append_assoc c.requests (send_data c.fd (contents b) ∷ []) (submitted ∷ [])
                        ∙ ap (λ xs. c.requests ++ (send_data c.fd xs ∷ submitted ∷ [])) same),
                ),
              )
              | inr full ↦ (
                record c {
                  tls = st;
                  send_queue = b ∷ [];
                  is_sending = true;
                  ring = (u.get_sqe c.ring).1;
                },
                rw (got, more, idle, alone, get_stored_size_lem v, full) refl,
                (refl, refl),
                (
                  ap queued (sym (ap (λ q. q ++ (b ∷ [])) alone))
                      ∙ behind c.send_queue b (take default_size waiting) same,
                  later,
                  refl,
                  rw (idle, full) (sym (append-nil c.requests)),
                ),
              )
            ]
      ]
    where
      nothing : (q : List Buffer) → is_queued q ≡ false → q ≡ []
      nothing [] h = refl
      nothing (x ∷ xs) h = cc

      behind :
          (q : List Buffer) (b : Buffer) (xs : List ℕ)
          → contents b ≡ xs
          → queued (q ++ (b ∷ [])) ≡ queued q ++ xs
      behind q b xs e =
          queued-append q (b ∷ [])
          ∙ ap (λ ys. queued q ++ ys) (append-nil (contents b))
          ∙ ap (λ ys. queued q ++ ys) e

  -- With an established TLS connection, a session that is sending exactly while something is
  -- queued and whose descriptor was closed once at most, and only if it is closing, and a message
  -- of fewer than 2 ^ 16 - 2 bytes, Send returns. It has SSL_write seal one packet, the message's
  -- identifier and its bytes; then the oldest 4096 bytes of what is sealed and was not sent
  -- before, or all, go behind the send queue, the later ones stay with OpenSSL, and a send of them
  -- is asked for if nothing was being sent and there is a free entry.
  pub send_message-Posts :
      (t : IsSealer ssl) (message_id : ℕ) (serialized : List ℕ) (c : Conn u ssl W)
      (waiting : List ℕ)
      → IsSound c
      → 2 + length serialized < u16_mod
      → waiting
        ≡ t.queue.pending c.tls ++ t.sealed c.tls (encode (htons_bytes message_id ++ serialized))
      → waiting ≢ []
      → Posts t.queue waiting c (send_message u ssl W message_id serialized c)
  unfolding send_message
  send_message-Posts t message_id serialized c waiting sound short is_waiting some_left =
      let (b, built, v, held, r) = build_packet-encode message_id serialized short in
      let wire : List ℕ = encode (htons_bytes message_id ++ serialized) in
      let (c', posts, stays, posted) =
        flush-Posts t.queue (record c { tls = (ssl.write wire c.tls).2 }) waiting
          (record { sending = sound.sending; closed = sound.closed })
          (t.adds wire c.tls ∙ sym is_waiting) some_left in
      (
        c',
        rw
            (
              built,
              get_stored_size_lem v,
              read_all b (b.write_pos - b.read_pos) v r (sym (length-contents v)),
              held,
              t.written wire c.tls (λ e. cc),
            )
            posts,
        stays,
        posted,
      )
