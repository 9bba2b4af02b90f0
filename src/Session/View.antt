-- ===== src/Session/View.antt =====
-- A session without what belongs to the receiving of bytes: the pool of receive buffers, which of
-- them waits, and the requests that give one back to the kernel.
use yuwibo_server.Prelude.{
  append-nil, ℕ, ◌≡◌, refl, ap, ◌∙◌, List, [], ◌∷◌, ◌++◌, some, length, set, get_elem?, All,
  All-get_elem?, get_elem?-set_same, Outcome, ok, ◌>>=◌, >>=-ok, ok-injective,
}
use yuwibo_server.Buffer.{Buffer, contents, get_buffer_size}
use yuwibo_server.Buffer.Laws.{IsValid}
use yuwibo_server.Buffer.Consuming.{reset-Holds}
use yuwibo_server.Tls.{Ssl}
use yuwibo_server.Framing.Process.{act_all}
use yuwibo_server.Session.{
  Uring, Request, recv_multishot, send_data, send_raw, cancel_recv, close_fd, nop, submitted,
  provide, Conn, recv_buffer, set_recv_buffer, give_back, recycle,
}

-- The requests but for the receive buffers that were given back.
abbrev pub own_requests : List Request → List Request
own_requests [] = []
own_requests (provide id size ∷ rs) = own_requests rs
own_requests (recv_multishot fd ∷ rs) = recv_multishot fd ∷ own_requests rs
own_requests (send_data fd bs ∷ rs) = send_data fd bs ∷ own_requests rs
own_requests (send_raw fd bs ∷ rs) = send_raw fd bs ∷ own_requests rs
own_requests (cancel_recv fd ∷ rs) = cancel_recv fd ∷ own_requests rs
own_requests (close_fd fd ∷ rs) = close_fd fd ∷ own_requests rs
own_requests (nop ∷ rs) = nop ∷ own_requests rs
own_requests (submitted ∷ rs) = submitted ∷ own_requests rs

pub own_requests-append :
    (rs ss : List Request) → own_requests (rs ++ ss) ≡ own_requests rs ++ own_requests ss
own_requests-append [] ss = refl
own_requests-append (provide i s ∷ rs) ss = own_requests-append rs ss
own_requests-append (recv_multishot fd ∷ rs) ss =
    ap (λ qs. recv_multishot fd ∷ qs) (own_requests-append rs ss)
own_requests-append (send_data fd bs ∷ rs) ss =
    ap (λ qs. send_data fd bs ∷ qs) (own_requests-append rs ss)
own_requests-append (send_raw fd bs ∷ rs) ss =
    ap (λ qs. send_raw fd bs ∷ qs) (own_requests-append rs ss)
own_requests-append (cancel_recv fd ∷ rs) ss =
    ap (λ qs. cancel_recv fd ∷ qs) (own_requests-append rs ss)
own_requests-append (close_fd fd ∷ rs) ss = ap (λ qs. close_fd fd ∷ qs) (own_requests-append rs ss)
own_requests-append (nop ∷ rs) ss = ap (λ qs. nop ∷ qs) (own_requests-append rs ss)
own_requests-append (submitted ∷ rs) ss = ap (λ qs. submitted ∷ qs) (own_requests-append rs ss)

own_requests-provide :
    (rs : List Request) (id size : ℕ)
    → own_requests (rs ++ (provide id size ∷ [])) ≡ own_requests rs
own_requests-provide rs id size =
    own_requests-append rs (provide id size ∷ []) ∙ append-nil (own_requests rs)

module _ (u : Uring) (ssl : Ssl) (W : Type 0) where
  abbrev pub view : Conn u ssl W → Conn u ssl W
  view c = record c { pool = []; pending = 0; requests = own_requests c.requests }

  -- What a packet does to a session depends on the view alone, and changes nothing else.
  abbrev pub IsBlind : (List ℕ → Conn u ssl W → Outcome (Conn u ssl W)) → Type 0
  IsBlind act =
      (body : List ℕ) (c v : Conn u ssl W)
      → act body (view c) ≡ ok v
      → (c' : Conn u ssl W) × (act body c ≡ ok c')
        × (view c' ≡ v)
        × (c'.pool ≡ c.pool)
        × (c'.pending ≡ c.pending)

  pub act_all-IsBlind :
      (act : List ℕ → Conn u ssl W → Outcome (Conn u ssl W))
      → IsBlind act
      → (bodies : List (List ℕ)) (c v : Conn u ssl W) → act_all act bodies (view c) ≡ ok v
      → (c' : Conn u ssl W) × (act_all act bodies c ≡ ok c')
        × (view c' ≡ v)
        × (c'.pool ≡ c.pool)
        × (c'.pending ≡ c.pending)
  act_all-IsBlind act blind [] c v e = (c, refl, ok-injective e, refl, refl)
  act_all-IsBlind act blind (body ∷ bodies) c v e =
      let (v₁, e₁, e₂) = >>=-ok (act body (view c)) (act_all act bodies) v e in
      let (c₁, made, same, pool, pending) = blind body c v₁ e₁ in
      let (c₂, made₂, same₂, pool₂, pending₂) =
        act_all-IsBlind act blind bodies c₁ v (ap (act_all act bodies) same ∙ e₂) in
      (c₂, ap (λ m. m >>= act_all act bodies) made ∙ made₂, same₂, pool₂ ∙ pool, pending₂ ∙ pending)

  -- A receive buffer is emptied and given back.
  pub recycle_one :
      (id : ℕ) (b : Buffer) (c : Conn u ssl W)
      → get_elem? c.pool id ≡ some b
      → IsValid b
      → (b' : Buffer) × (recycle u ssl W id c
          ≡ ok (record c {
            pool = set c.pool id b';
            requests = c.requests ++ (provide id (length b'.bytes) ∷ []);
          }))
        × IsValid b'
        × (contents b' ≡ [])
  unfolding recycle recv_buffer set_recv_buffer give_back get_buffer_size
  recycle_one id b c here v =
      let (b', e, v', held, r) = reset-Holds {b = b} v in
      (b', rw (here, e, get_elem?-set_same c.pool id b b' here, v'.free) refl, v', held)

  pub recycle_lem :
      (id : ℕ) (b : Buffer) (c : Conn u ssl W)
      → get_elem? c.pool id ≡ some b
      → All IsValid c.pool
      → (b' : Buffer) × (size : ℕ) × (recycle u ssl W id c
          ≡ ok (record c {
            pool = set c.pool id b';
            requests = c.requests ++ (provide id size ∷ []);
          }))
        × IsValid b'
        × (view (record c {
          pool = set c.pool id b';
          requests = c.requests ++ (provide id size ∷ []);
        })
            ≡ view c)
  recycle_lem id b c here valid =
      let (b', given, v', held) =
        recycle_one id b c here (All-get_elem? IsValid c.pool id b valid here) in
      (
        b',
        length b'.bytes,
        given,
        v',
        ap (λ rs. record (view c) { requests = rs })
            (own_requests-provide c.requests id (length b'.bytes)),
      )
