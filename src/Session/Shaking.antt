-- ===== src/Session/Shaking.antt =====
-- Session::OnRecv during the TLS handshake: from the bytes of a reception to OpenSSL's answer in the send
-- queue.
use yuwibo_server.Prelude.{
  zero, or_fault, Always, ok-Always, then-Always, if-Always, spins-Always, ◌==◌, ℕ, suc, ◌≤◌, ◌≡◌,
  ◌≢◌, refl, ap, ◌∙◌, Bool, true, false, List, [], ◌∷◌, ◌++◌, some, arith, length, length-take,
  take, set, get_elem?, get_elem?-set_same, if◌then◌else◌, Outcome, ok, ◌>>=◌,
}
use yuwibo_server.Buffer.{
  Buffer, contents, on_write, on_read, get_stored_size, get_read_buffer, read_at,
}
use yuwibo_server.Buffer.Laws.{IsValid}
use yuwibo_server.Buffer.Consuming.{on_write-IsValid}
use yuwibo_server.Tls.{Ssl, error_want_read}
use yuwibo_server.Tls.Drain.{IsQueue, bio_reader}
use yuwibo_server.Session.{
  Uring, provide, Conn, recv_buffer, set_recv_buffer, feed_tls, recycle, flush_tls_write_buffer,
  on_tls_handshake_complete, tls_handshake, receive_text, on_recv,
}
use yuwibo_server.Session.View.{recycle_one}
use yuwibo_server.Session.Invariant.{IsSound}
use yuwibo_server.Session.Feeding.{IsSink, feed_tls_lem, set-set}
use yuwibo_server.Session.Reception.{on_write-keeps}
use yuwibo_server.Session.Posting.{Posted, flush-Posts}

-- An OpenSSL object with two memory BIOs: what is fed to it changes nothing of it but the bytes that
-- were fed.
pub record IsShaker (ssl : Ssl) : Type 1 where
  pub queue : IsQueue (bio_reader ssl)
  pub sink : IsSink ssl.bio_write
  pub Rest : Type 0
  pub rest : ssl.State → Rest
  pub untouched : (bytes : List ℕ) (st : ssl.State) → rest (ssl.bio_write bytes st).1 ≡ rest st

module _ (u : Uring) (ssl : Ssl) (W : Type 0)
    (handle : List ℕ → ℕ → Conn u ssl W → Outcome (Conn u ssl W)) where
  -- SSL_do_handshake ends the handshake, or wants more bytes; then `answer` waits to be sent.
  abbrev pub Wants : IsQueue (bio_reader ssl) → Bool → List ℕ → ssl.State → Type 0
  Wants q finished answer st =
      ((ssl.do_handshake st).0 ≡ finished)
      × (finished ≡ false → (ssl.do_handshake st).1 ≡ error_want_read)
      × (q.pending (ssl.do_handshake st).2 ≡ answer)

  -- The receive buffer is emptied and given back, and nothing else changes from `c` to the end.
  abbrev pub Returns : ℕ → Conn u ssl W → Outcome (Conn u ssl W) → Type 0
  Returns id c out =
      (b : Buffer) × (out
        ≡ ok (record c {
          pool = set c.pool id b;
          requests = c.requests ++ (provide id (length b.bytes) ∷ []);
        }))
      × IsValid b
      × (contents b ≡ [])

  -- The answer is posted, with no receive buffer changed but this one; then the rest of OnRecv follows
  -- if the handshake is finished, and the receive buffer is given back if not.
  abbrev pub Answers :
      IsQueue (bio_reader ssl)
      → ℕ
      → ℕ
      → Bool
      → List ℕ
      → Conn u ssl W
      → Outcome (Conn u ssl W)
      → Type 0
  Answers q id size finished answer c out =
      (c₁ : Conn u ssl W) × (b : Buffer) × Posted u ssl W q answer c c₁
      × (get_elem? c₁.pool id ≡ some b)
      × IsValid b
      × (length b.bytes ≡ size)
      × ((b' : Buffer) → set c₁.pool id b' ≡ set c.pool id b')
      × (finished ≡ true
          → out ≡ receive_text u ssl W handle id (on_tls_handshake_complete u ssl W c₁))
      × (finished ≡ false → (c₁.handshaking ≡ true) × Returns id c₁ out)

  feed_tls-untouched :
      (t : IsShaker ssl) (fuel id : ℕ) (c : Conn u ssl W)
      → Always (λ r. t.rest r.1.tls ≡ t.rest c.tls) (feed_tls u ssl W fuel id c)
  unfolding feed_tls set_recv_buffer
  feed_tls-untouched t zero id c = spins-Always
  feed_tls-untouched t (suc fuel) id c = then-Always (recv_buffer u ssl W id c) (λ b.
      then-Always (get_stored_size b) (λ stored. then-Always (get_read_buffer b) (λ pos.
        if-Always (stored == 0) (λ e. ok-Always refl)
          (λ e. then-Always (or_fault (read_at b.bytes pos stored)) (λ bytes.
            let r = ssl.bio_write bytes c.tls in
            if-Always (r.0 == 0) (λ e'. ok-Always (t.untouched bytes c.tls))
              (λ e'. then-Always (on_read b r.0) (λ b'. record {
                of_result = λ q fed.
                    (feed_tls-untouched t fuel id _).of_result q fed ∙ t.untouched bytes c.tls;
              })))))))

  -- The handshake's part of OnRecv, behind the bytes that were fed to OpenSSL.
  shakes :
      (n id : ℕ) (c c' : Conn u ssl W) (old b : Buffer)
      → get_elem? c.pool id ≡ some old
      → on_write old n ≡ ok b
      → feed_tls u ssl W (suc n) id (set_recv_buffer u ssl W id b c) ≡ ok (true, c')
      → c'.handshaking ≡ true
      → on_recv u ssl W handle (some n) id c ≡ (
          tls_handshake u ssl W c' >>= λ r.
          if r.0 then receive_text u ssl W handle id r.1 else recycle u ssl W id r.1)
  unfolding on_recv recv_buffer
  shakes n id c c' old b here written fed shaking = rw (here, written, fed, shaking) refl

  tls_handshake_lem :
      (q : IsQueue (bio_reader ssl)) (c c₁ : Conn u ssl W) (finished : Bool) (answer : List ℕ)
      → Wants q finished answer c.tls
      → flush_tls_write_buffer u ssl W (record c { tls = (ssl.do_handshake c.tls).2 }) ≡ ok c₁
      → tls_handshake u ssl W c
        ≡ ok (finished, (if finished then on_tls_handshake_complete u ssl W c₁ else c₁))
  unfolding tls_handshake
  tls_handshake_lem q c c₁ true answer (ends, wants, waits) posts = rw (posts, ends) refl
  tls_handshake_lem q c c₁ false answer (ends, wants, waits) posts =
      rw (posts, ends, wants refl) refl

  -- What follows the handshake.
  abbrev chosen : ℕ → Conn u ssl W → Bool → Outcome (Conn u ssl W)
  chosen id c₁ finished =
      let c₂ = if finished then on_tls_handshake_complete u ssl W c₁ else c₁ in
      if finished then receive_text u ssl W handle id c₂ else recycle u ssl W id c₂

  -- During the TLS handshake, let n bytes be received into a valid, empty receive buffer that
  -- holds them, of a session that is sending exactly while something is queued and whose
  -- descriptor was closed once at most, and only if it is closing. In every state in which exactly
  -- these bytes were fed to OpenSSL and nothing else of it changed, let SSL_do_handshake finish
  -- the handshake, or want more bytes, and leave the same bytes, one at least, to be sent. Then
  -- OnRecv puts the oldest 4096 of these, or all, behind the send queue, the later ones stay with
  -- OpenSSL, and it asks for a send of them if nothing was being sent and there is a free entry;
  -- it changes no receive buffer but this one; if the handshake is finished, it goes on to the
  -- text in what was received, and if not, it gives the receive buffer back, emptied, with the
  -- handshake still going on.
  pub on_recv-Answers :
      (t : IsShaker ssl) (id n : ℕ) (c : Conn u ssl W) (old : Buffer) (finished : Bool)
      (answer : List ℕ)
      → IsSound c
      → c.handshaking ≡ true
      → get_elem? c.pool id ≡ some old
      → IsValid old
      → old.write_pos ≡ 0
      → n ≤ length old.bytes
      → ((st : ssl.State)
          → t.sink.fed st ≡ t.sink.fed c.tls ++ take n old.bytes
          → t.rest st ≡ t.rest c.tls
          → Wants t.queue finished answer st)
      → answer ≢ []
      → Answers t.queue id
          (length old.bytes)
          finished
          answer
          c
          (on_recv u ssl W handle (some n) id c)
  unfolding set_recv_buffer
  on_recv-Answers t id n c old finished answer sound shaking here v empty fits wants some_answer =
      let (b, written, v₁, held) = on_write-IsValid {b = old} n v (omega (arith, empty)) in
      let received : contents b ≡ take n old.bytes =
        held ∙ ap (λ k. take k old.bytes) (omega (arith, empty)) in
      let (b₁, st, pool, fed, there, v₂, size, same, grown, kept) =
        feed_tls_lem u ssl W t.sink (suc n) id (set_recv_buffer u ssl W id b c) b
          (get_elem?-set_same c.pool id old b here) v₁
          (omega (arith, ap length received, length-take n old.bytes)) in
      let c' : Conn u ssl W = record c { tls = st; pool = pool } in
      let want = wants st (grown ∙ ap (λ xs. t.sink.fed c.tls ++ xs) received) (
        (feed_tls-untouched t (suc n) id (set_recv_buffer u ssl W id b c)).of_result (true, c')
          fed) in
      let (c₁, posts, stays, posted) =
        flush-Posts u ssl W t.queue (record c' { tls = (ssl.do_handshake st).2 }) answer
          (record { sending = sound.sending; closed = sound.closed }) want.2 some_answer in
      let run =
        shakes n id c c' old b here written fed shaking
        ∙ ap
            (λ m.
              m >>= λ r. if r.0 then receive_text u ssl W handle id r.1 else recycle u ssl W id r.1)
            (tls_handshake_lem t.queue c' c₁ finished answer want posts) in
      let found = ap (λ bs. get_elem? bs id) stays.0 ∙ there in
      let (b₂, given, v₃, none_left) = recycle_one u ssl W id b₁ c₁ found v₂ in
      (
        c₁,
        b₁,
        posted,
        found,
        v₂,
        size ∙ ap length ((on_write-keeps old n v).of_result b written),
        λ b'. ap (λ bs. set bs id b') stays.0 ∙ same b' ∙ set-set c.pool id b b',
        λ ends. run ∙ ap (chosen id c₁) ends,
        λ goes. (stays.1 ∙ shaking, (b₂, run ∙ ap (chosen id c₁) goes ∙ given, v₃, none_left)),
      )
