-- ===== src/Session.antt =====
-- Session.h and Session.cpp: one connection. The state of a connection stands with what its worker
-- shares with it: the ring, the pool of receive buffers, and the requests made so far. io_uring is
-- the parameter `Uring`.
pub mod Blind
pub mod Decrypting
pub mod Delivery
pub mod Draining
pub mod Feeding
pub mod Handling
pub mod Invariant
pub mod Posting
pub mod Receiving
pub mod Reception
pub mod Runs
pub mod Sending
pub mod Shaking
pub mod View
mod State
unfoldable pub use State.*
use yuwibo_server.Prelude.{
  ℕ, zero, suc, ◌+◌, ◌-◌, ◌%◌, Bool, true, false, not, ◌&&◌, ◌||◌, List, [], ◌∷◌, ◌++◌, Option,
  none, some, ◌==◌, ltb, if◌then◌else◌, get_elem?, set, Outcome, ok, fault, spins, ◌>>=◌, or_fault,
  minus_one, u16_mod,
}
use yuwibo_server.Buffer.{
  Buffer, new, default_size, get_stored_size, get_read_buffer, get_buffer_size, on_read, on_write,
  reset, resize, append, read_at,
}
use yuwibo_server.Buffer
use yuwibo_server.Tls.{
  Ssl, error_none, error_want_read, error_want_write, get_recv_text, get_secret_text,
}
use yuwibo_server.Framing.{build_packet, process_packet}

module _ (u : Uring) (ssl : Ssl) (W : Type 0) where
  abbrev pub Conn : Type 0
  Conn = Session u.Ring ssl.State W

  abbrev pub request : Request → Conn → Conn
  request r c = record c { requests = c.requests ++ (r ∷ []) }

  abbrev pub submit : Conn → Conn
  submit c = record c { ring = u.submit c.ring; requests = c.requests ++ (submitted ∷ []) }

  -- `k` gets the connection if there is an entry, and `missing` if `io_uring_get_sqe` returns null.
  abbrev pub with_sqe : Conn → (Conn → Outcome Conn) → (Conn → Outcome Conn) → Outcome Conn
  with_sqe c k missing =
      let (found, ring) = u.get_sqe c.ring in
      if found then k (record c { ring = ring }) else missing (record c { ring = ring })

  unfoldable pub start_recv : Conn → Outcome Conn
  start_recv c = with_sqe c (λ c. ok (submit (request (recv_multishot c.fd) c))) (λ c. fault)

  -- Session::Send(const std::string&), which does not look whether there is an entry.
  unfoldable pub send_text : List ℕ → Conn → Outcome Conn
  send_text bytes c =
      with_sqe c
        (λ c.
          let c' = submit (request (send_raw c.fd bytes) c) in
          ok (record c' { send_count = (c'.send_count + 1) % u16_mod }))
        (λ c. fault)

  unfoldable pub close : Bool → Conn → Outcome Conn
  close additional_check c =
      if additional_check && (not c.canceling || (c.is_sending || ltb 0 c.send_count))
      then ok c
      else (if c.closing
          then ok c
          else with_sqe (record c { closing = true }) (λ c. ok (submit (request (close_fd c.fd) c)))
              (λ c. ok c))

  unfoldable pub start_close : Bool → Conn → Outcome Conn
  start_close submits c =
      if c.canceling
      then ok c
      else with_sqe c
          (λ c.
            let c' = request (cancel_recv c.fd) c in
            ok (record (if submits then submit c' else c') { canceling = true }))
          (λ c. ok c)

  unfoldable pub send_internal : Conn → Outcome Conn
  send_internal c = elim c.send_queue [
    | [] ↦ ok c
    | front ∷ rest ↦ do
      len ← get_stored_size front
      with_sqe c
          (λ c. do
            pos ← get_read_buffer front
            bytes ← or_fault (read_at front.bytes pos len)
            let c' = submit (request (send_data c.fd bytes) c)
            ok (record c' { send_count = (c'.send_count + 1) % u16_mod }))
          (λ c. ok c)
  ]

  unfoldable pub flush_tls_write_buffer : Conn → Outcome Conn
  flush_tls_write_buffer c = do
    (n, buf, tls) ← get_secret_text ssl (new default_size) c.tls
    let c : Conn = record c { tls = tls }
    if n == 0
        then ok c
        else (let c : Conn = record c { send_queue = c.send_queue ++ (buf ∷ []) } in
            if c.is_sending then ok c else send_internal (record c { is_sending = true }))

  -- Session::Send(const Message&), given the message's identifier and serialized bytes.
  unfoldable pub send_message : ℕ → List ℕ → Conn → Outcome Conn
  send_message message_id serialized c = do
    b ← build_packet message_id serialized
    len ← get_stored_size b
    bytes ← or_fault (read_at b.bytes 0 len)
    let (written, err, tls) = ssl.write bytes c.tls
    let c : Conn = record c { tls = tls }
    if written then flush_tls_write_buffer c else elim err [
      | error_want_write ↦ flush_tls_write_buffer c
      | error_want_read ↦ flush_tls_write_buffer c
      | _ ↦ close false c
    ]

  unfoldable pub on_tls_handshake_complete : Conn → Conn
  on_tls_handshake_complete c = record c { handshaking = false }

  unfoldable pub tls_handshake : Conn → Outcome (Bool × Conn)
  unfolding on_tls_handshake_complete
  tls_handshake c = do
    let (finished, err, tls) = ssl.do_handshake c.tls
    c ← flush_tls_write_buffer (record c { tls = tls })
    if finished then ok (true, on_tls_handshake_complete c) else elim err [
      | error_want_read ↦ ok (false, c)
      | error_want_write ↦ (do c ← flush_tls_write_buffer c; ok (false, c))
      | _ ↦ (do c ← close false c; ok (false, c))
    ]

  -- What OnSend does with the front buffer; `bytes` is a result that is positive.
  unfoldable pub complete_front : ℕ → Conn → Outcome Conn
  complete_front bytes c = elim c.send_queue [
    | [] ↦ ok c
    | front ∷ rest ↦ do
      front ← on_read front bytes
      left ← get_stored_size front
      if left == 0
          then elim rest [
            | [] ↦ ok (record c { send_queue = []; is_sending = false })
            | next ∷ more ↦ ok (record c { send_queue = next ∷ more })
          ]
          else ok (record c { send_queue = front ∷ rest })
  ]

  -- OnSend; `none` is a result that is not positive.
  unfoldable pub on_send : Option ℕ → Conn → Outcome Conn
  on_send result c =
      let c : Conn = record c { send_count = (c.send_count + (u16_mod - 1)) % u16_mod } in
      elim result [
        | none ↦ close false c
        | some bytes ↦ do c ← complete_front bytes c; c ← send_internal c; close true c
      ]

  -- `worker->GetRecvBuffer(bufId)`, and the buffer after a change.
  unfoldable pub recv_buffer : ℕ → Conn → Outcome Buffer
  recv_buffer id c = or_fault (get_elem? c.pool id)

  unfoldable pub set_recv_buffer : ℕ → Buffer → Conn → Conn
  set_recv_buffer id b c = record c { pool = set c.pool id b }

  -- `io_uring_buf_ring_add` and `io_uring_buf_ring_advance`.
  unfoldable pub give_back : ℕ → Conn → Outcome Conn
  unfolding recv_buffer
  give_back id c = do
    b ← recv_buffer id c
    size ← get_buffer_size b
    ok (request (provide id size) c)

  -- `recvBuf->Reset()` and giving it back.
  unfoldable pub recycle : ℕ → Conn → Outcome Conn
  unfolding recv_buffer set_recv_buffer give_back
  recycle id c = do b ← recv_buffer id c; b ← reset b; give_back id (set_recv_buffer id b c)

  -- The `while` loop of OnRecv that hands the received bytes to OpenSSL: whether all were taken.
  unfoldable pub feed_tls : ℕ → ℕ → Conn → Outcome (Bool × Conn)
  feed_tls zero id c = spins
  feed_tls (suc fuel) id c = do
    b ← recv_buffer id c
    stored ← get_stored_size b
    pos ← get_read_buffer b
    if stored == 0 then ok (true, c) else (do
      bytes ← or_fault (read_at b.bytes pos stored)
      let (written, tls) = ssl.bio_write bytes c.tls
      let c : Conn = record c { tls = tls }
      if written == 0
          then ok (false, c)
          else (do b ← on_read b written; feed_tls fuel id (set_recv_buffer id b c)))

  module _ (handle : List ℕ → ℕ → Conn → Outcome Conn) where
    -- The end of OnRecv, at decrypted text in the receive buffer.
    unfoldable pub deliver : ℕ → Conn → Outcome Conn
    deliver id c =
        if c.pending == minus_one
        then (do
          b ← recv_buffer id c
          (finished, b, c) ← process_packet handle b c
          let c : Conn = set_recv_buffer id b c
          if finished then recycle id c else ok (record c { pending = id }))
        else (do
          b ← recv_buffer id c
          held ← recv_buffer c.pending c
          held ← append held b
          c ← recycle id (set_recv_buffer c.pending held c)
          (finished, held, c) ← process_packet handle held c
          let c : Conn = set_recv_buffer c.pending held c
          if finished
              then (do c' ← recycle c.pending c; ok (record c' { pending = minus_one }))
              else ok c)

    -- The part of OnRecv behind the handshake.
    unfoldable pub receive_text : ℕ → Conn → Outcome Conn
    receive_text id c = do
      (n, err, text, tls) ← get_recv_text ssl (new default_size) c.tls
      c ←
          (let c : Conn = record c { tls = tls } in
            elim err [
              | error_none ↦ ok c
              | error_want_read ↦ ok c
              | error_want_write ↦ flush_tls_write_buffer c
              | _ ↦ close false c
            ])
      if n == 0 then ok c else (do
        b ← recv_buffer id c
        size ← get_buffer_size b
        b ← (if ltb size n then resize b n else reset b)
        bytes ← or_fault (read_at text.bytes 0 n)
        b ← Buffer.write b bytes
        deliver id (set_recv_buffer id b c))

    -- OnRecv: `none` is a result that is not positive; else the kernel put that many bytes at the
    -- start of the buffer `id`.
    unfoldable pub on_recv : Option ℕ → ℕ → Conn → Outcome Conn
    on_recv none id c = close false c
    on_recv (some n) id c = do
      b ← recv_buffer id c
      b ← on_write b n
      (taken, c) ← feed_tls (suc n) id (set_recv_buffer id b c)
      if not taken
          then close false c
          else (if c.handshaking
              then (do
                (finished, c) ← tls_handshake c
                if finished then receive_text id c else recycle id c)
              else receive_text id c)
