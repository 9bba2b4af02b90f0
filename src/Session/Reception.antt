-- ===== src/Session/Reception.antt =====
-- The whole of Session::OnRecv behind the handshake: from the bytes that the kernel put into a receive
-- buffer to the text that is handed to ProcessPacket.
use mathlib.Core.Path.{ap₂}
use yuwibo_server.Prelude.{
  ℕ, suc, ◌≤◌, ◌≡◌, ◌≢◌, refl, sym, ap, ◌∙◌, true, false, List, [], ◌++◌, some, arith, length,
  length-take, take, drop, get_elem?, get_elem?-set_same, Outcome, ok, Always, ok-Always,
}
use yuwibo_server.Buffer.{Buffer, default_size, contents, on_write}
use yuwibo_server.Buffer.Laws.{IsValid}
use yuwibo_server.Buffer.Consuming.{on_write-IsValid}
use yuwibo_server.Tls.{Ssl}
use yuwibo_server.Tls.Drain.{IsQueue}
use yuwibo_server.Session.{
  Uring, Conn, recv_buffer, set_recv_buffer, feed_tls, receive_text, deliver, on_recv,
}
use yuwibo_server.Session.Delivery.Streams.{IsChunk}
use yuwibo_server.Session.Decrypting.{is_quiet, receive_text-Decrypts}
use yuwibo_server.Session.Feeding.{IsSink, feed_tls_lem, set-set}

-- An established TLS connection: its text is a function of all bytes that were fed to it, and is read
-- in order; reading and feeding do not disturb each other.
pub record IsTunnel (ssl : Ssl) : Type 0 where
  pub queue : IsQueue ssl.read
  pub sink : IsSink ssl.bio_write
  pub quiet : (n : ℕ) (st : ssl.State) → is_quiet (ssl.read n st).1 ≡ true
  -- The text in what was fed, and how much of it was read.
  pub plain : List ℕ → List ℕ
  pub seen : ssl.State → ℕ
  pub opens : (st : ssl.State) → queue.pending st ≡ drop (seen st) (plain (sink.fed st))
  pub unseen : (bytes : List ℕ) (st : ssl.State) → seen (ssl.bio_write bytes st).1 ≡ seen st

pub on_write-keeps :
    (b : Buffer) (n : ℕ) → IsValid b → Always (λ b'. b'.bytes ≡ b.bytes) (on_write b n)
unfolding on_write
on_write-keeps b n v = rw v.free (ok-Always refl)

module _ (u : Uring) (ssl : Ssl) (W : Type 0)
    (handle : List ℕ → ℕ → Conn u ssl W → Outcome (Conn u ssl W)) where
  -- `text` is delivered, as far as a buffer of the usual size holds it.
  abbrev pub Delivers : IsTunnel ssl → ℕ → List ℕ → Conn u ssl W → Outcome (Conn u ssl W) → Type 0
  Delivers t id text c out =
      (b : Buffer) × (st : ssl.State) × (out
        ≡ deliver u ssl W handle id (set_recv_buffer u ssl W id b (record c { tls = st })))
      × IsChunk b
      × (contents b ≡ take default_size text)
      × (t.queue.pending st ≡ drop default_size text)

  -- The text that is there after `bytes` were received.
  abbrev pub text_after : IsTunnel ssl → ssl.State → List ℕ → List ℕ
  text_after t st bytes = drop (t.seen st) (t.plain (t.sink.fed st ++ bytes))

  fed_lem :
      (n id : ℕ) (c c' : Conn u ssl W) (old b : Buffer)
      → get_elem? c.pool id ≡ some old
      → on_write old n ≡ ok b
      → feed_tls u ssl W (suc n) id (set_recv_buffer u ssl W id b c) ≡ ok (true, c')
      → c'.handshaking ≡ false
      → on_recv u ssl W handle (some n) id c ≡ receive_text u ssl W handle id c'
  unfolding on_recv recv_buffer
  fed_lem n id c c' old b here written fed settled = rw (here, written, fed, settled) refl

  -- Over an established TLS connection whose text is a function of the bytes fed to it: when n
  -- bytes were received into a valid, empty receive buffer of at least 4096 bytes that holds them,
  -- and there is text that was not read, then OnRecv feeds exactly these bytes to OpenSSL and
  -- delivers the oldest 4096 bytes, or all, of the text not read before, alone and unread, in that
  -- receive buffer; the rest of the text stays with OpenSSL, and nothing else changes before the
  -- delivery.
  pub on_recv-Delivers :
      (t : IsTunnel ssl) (id n : ℕ) (c : Conn u ssl W) (old : Buffer)
      → c.handshaking ≡ false
      → get_elem? c.pool id ≡ some old
      → IsValid old
      → old.write_pos ≡ 0
      → n ≤ length old.bytes
      → default_size ≤ length old.bytes
      → text_after t c.tls (take n old.bytes) ≢ []
      → Delivers t id
          (text_after t c.tls (take n old.bytes))
          c
          (on_recv u ssl W handle (some n) id c)
  unfolding set_recv_buffer
  on_recv-Delivers t id n c old settled here v empty fits large some_text =
      let (b, written, v₁, held) = on_write-IsValid {b = old} n v (omega (arith, empty)) in
      let received : contents b ≡ take n old.bytes =
        held ∙ ap (λ k. take k old.bytes) (omega (arith, empty)) in
      let (b₁, st, pool, fed, there, v₂, size, same, grown, kept) =
        feed_tls_lem u ssl W t.sink (suc n) id (set_recv_buffer u ssl W id b c) b
          (get_elem?-set_same c.pool id old b here) v₁
          (omega (arith, ap length received, length-take n old.bytes)) in
      let c' : Conn u ssl W = record c { tls = st; pool = pool } in
      let text : t.queue.pending st ≡ text_after t c.tls (take n old.bytes) =
        t.opens st
        ∙ ap₂ (λ k xs. drop k (t.plain xs)) (kept t.seen t.unseen)
            (grown ∙ ap (λ xs. t.sink.fed c.tls ++ xs) received) in
      let (b₂, st₂, delivers, chunk, got, left) =
        receive_text-Decrypts u ssl W handle t.queue id c' b₁ t.quiet there v₂
          (omega (arith, size, ap length ((on_write-keeps old n v).of_result b written), large))
          (λ none_left. some_text (sym text ∙ none_left)) in
      (
        b₂,
        st₂,
        fed_lem n id c c' old b here written fed settled
            ∙ delivers
            ∙ ap (λ p. deliver u ssl W handle id (record c { tls = st₂; pool = p }))
                (same b₂ ∙ set-set c.pool id b b₂),
        chunk,
        got ∙ ap (take default_size) text,
        left ∙ ap (drop default_size) text,
      )
