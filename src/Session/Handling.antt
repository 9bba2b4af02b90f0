-- ===== src/Session/Handling.antt =====
-- Session::OnRecv from one end to the other: from the encrypted bytes of one reception to the packets
-- that are handled.
use yuwibo_server.Prelude.{
  ℕ, ◌+◌, ◌^◌, ◌≤◌, ◌<◌, ◌≡◌, ◌≢◌, sym, ap, ◌∙◌, false, List, [], ◌++◌, some, arith, length, take,
  drop, get_elem?, get_elem?-set_same, All, All-get_elem?, Outcome, ok,
}
use yuwibo_server.Buffer.{Buffer, default_size}
use yuwibo_server.Buffer.Laws.{IsValid}
use yuwibo_server.Framing.Stream.{encode_all, Fits, IsByte, IsPartial}
use yuwibo_server.Framing.Process.{act_all, HasId, IsLocal}
use yuwibo_server.Tls.{Ssl}
use yuwibo_server.Session.{Uring, Conn, set_recv_buffer, on_recv}
use yuwibo_server.Session.View.{view, IsBlind}
use yuwibo_server.Session.Delivery.{Waits}
use yuwibo_server.Session.Delivery.Steps.{deliver_lem}
use yuwibo_server.Session.Delivery.Streams.{placed}
use yuwibo_server.Session.Reception.{IsTunnel, text_after, on_recv-Delivers}

module _ (u : Uring) (ssl : Ssl) (W : Type 0)
    (handle : List ℕ → ℕ → Conn u ssl W → Outcome (Conn u ssl W)) where
  -- A reception returns, `rest` waits, the text behind the first 4096 bytes stays with OpenSSL, and
  -- the session is otherwise as the packets leave it from that state of OpenSSL.
  abbrev pub Handles :
      IsTunnel ssl → List ℕ → (ssl.State → Conn u ssl W) → List ℕ → Outcome (Conn u ssl W) → Type 0
  Handles t text v rest out =
      (st : ssl.State) × (c' : Conn u ssl W) × (out ≡ ok c')
      × Waits u ssl W c' rest
      × (view u ssl W c' ≡ v st)
      × (t.queue.pending st ≡ drop default_size text)

  module _ (t : IsTunnel ssl) (act : List ℕ → Conn u ssl W → Outcome (Conn u ssl W))
      (local : IsLocal handle act) (blind : IsBlind u ssl W act) where
    -- The calls of the packets succeed from every state of OpenSSL in which the later text waits.
    abbrev pub Succeed : List (List ℕ) → List ℕ → Conn u ssl W → (ssl.State → Conn u ssl W) → Type 0
    Succeed bodies text c v =
        (st : ssl.State)
        → t.queue.pending st ≡ drop default_size text
        → act_all act bodies (view u ssl W (record c { tls = st })) ≡ ok (v st)

    -- Over an established TLS connection whose text is a function of the bytes fed to it, let n
    -- bytes be received into a valid, empty receive buffer of at least 4096 bytes that the session
    -- does not hold, let there be text that was not read, and let the bytes that waited and the
    -- oldest 4096 bytes of this text, or all of it, be whole packets (each with an identifier) and
    -- an unfinished one, fewer than 2 ^ 62 bytes in all. If the packets' calls, which depend on
    -- and change nothing of the receive buffers, succeed one behind the other, then OnRecv
    -- returns, the session is, but for the receive buffers, as those calls leave it, exactly the
    -- unfinished packet waits, and the later text stays with OpenSSL.
    pub on_recv-Handles :
        (id n : ℕ) (c : Conn u ssl W) (v : ssl.State → Conn u ssl W) (old : Buffer)
        (held text : List ℕ) (bodies : List (List ℕ)) (rest : List ℕ)
        → text ≡ text_after u ssl W handle t c.tls (take n old.bytes)
        → text ≢ []
        → c.handshaking ≡ false
        → Waits u ssl W c held
        → id ≢ c.pending
        → get_elem? c.pool id ≡ some old
        → old.write_pos ≡ 0
        → n ≤ length old.bytes
        → default_size ≤ length old.bytes
        → length held + length (take default_size text) < 2 ^ 62
        → held ++ take default_size text ≡ encode_all bodies ++ rest
        → All Fits bodies
        → All HasId bodies
        → IsPartial rest
        → All IsByte rest
        → Succeed bodies text c v
        → Handles t text v rest (on_recv u ssl W handle (some n) id c)
    unfolding set_recv_buffer
    on_recv-Handles id n c v old held text bodies rest is_text some_text settled waits apart here
          empty fits_in large small e fits ids p bytes done =
        let valid : IsValid old = All-get_elem? IsValid c.pool id old waits.valid here in
        let (b, st, delivers, chunk, got, left) =
          on_recv-Delivers u ssl W handle t id n c old settled here valid empty fits_in large
            (λ none_left. some_text (is_text ∙ none_left)) in
        let came = got ∙ ap (take default_size) (sym is_text) in
        let later = left ∙ ap (drop default_size) (sym is_text) in
        let (c', handled, waits', len, same) =
          deliver_lem u ssl W handle act local blind id
            (set_recv_buffer u ssl W id b (record c { tls = st })) (v st) b held bodies rest
            (placed u ssl W handle (λ c. id) id b (record c { tls = st }) held chunk.valid apart
              (record { valid = waits.valid; few = waits.few; held_bytes = waits.held_bytes }))
            (get_elem?-set_same c.pool id old b here) apart chunk.unread
            (omega (arith, ap length came, small)) (ap (λ xs. held ++ xs) came ∙ e) fits ids p bytes
            (done st later) in
        (st, c', delivers ∙ handled, waits', same, later)
