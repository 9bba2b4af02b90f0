-- ===== src/Session/Delivery.antt =====
-- The receive buffers of a session at the end of Session::OnRecv: which of them waits, and which is
-- given back.
pub mod Steps
pub mod Streams
use mathlib.Core.Path.{ap₂}
use yuwibo_server.Prelude.{
  ℕ, ◌+◌, ◌-◌, ◌^◌, ◌<◌, ◌≡◌, ◌≢◌, refl, sym, ap, subst, ◌∙◌, Bool, true, false, List, [], ◌∷◌,
  ◌++◌, some, arith, length, set, get_elem?, All, All-set, All-get_elem?, get_elem?-set_same,
  get_elem?-set_other, length-set, length-append, ◌==◌, ==_iff, ◌⊎◌, inl, inr, Bool-cases, Outcome,
  ok, ◌>>=◌, minus_one, if◌then◌else◌,
}
use yuwibo_server.Buffer.{Buffer, contents, append}
use yuwibo_server.Buffer.Laws.{IsValid, length-contents, append-Stores}
use yuwibo_server.Tls.{Ssl}
use yuwibo_server.Framing.{process_packet}
use yuwibo_server.Framing.Stream.{encode_all, Fits, IsByte, IsPartial}
use yuwibo_server.Framing.Process.{act_all, HasId, IsLocal, is_empty, process_packet_lem}
use yuwibo_server.Session.{Uring, provide, Conn, recv_buffer, set_recv_buffer, recycle, deliver}
use yuwibo_server.Session.View.{view, IsBlind, act_all-IsBlind, recycle_lem}

module _ (u : Uring) (ssl : Ssl) (W : Type 0) where
  -- The bytes that wait for the rest of their packet: none, or those of a buffer that was not given
  -- back.
  abbrev pub Held : Conn u ssl W → List ℕ → Type 0
  Held c held =
      ((c.pending ≡ minus_one) × (held ≡ []))
      ⊎ ((b : Buffer) × (get_elem? c.pool c.pending ≡ some b)
          × (b.read_pos ≡ 0)
          × (contents b ≡ held))

  -- All receive buffers are valid, and there are fewer than identifiers.
  pub record Waits (c : Conn u ssl W) (held : List ℕ) : Type 0 where
    pub valid : All IsValid c.pool
    pub few : length c.pool < minus_one
    pub held_bytes : Held c held

  -- A delivery returns, the rest waits, and the session is otherwise as its packets leave it.
  abbrev pub Delivers : Conn u ssl W → Conn u ssl W → List ℕ → Outcome (Conn u ssl W) → Type 0
  Delivers c v rest out =
      (c' : Conn u ssl W) × (out ≡ ok c')
      × Waits c' rest
      × (length c'.pool ≡ length c.pool)
      × (view u ssl W c' ≡ v)

  -- After the packets, an emptied buffer is given back, and any other one waits.
  pub finish_first :
      (id : ℕ) (c : Conn u ssl W) (b b' : Buffer) (rest : List ℕ)
      → c.pending ≡ minus_one
      → All IsValid c.pool
      → length c.pool < minus_one
      → get_elem? c.pool id ≡ some b
      → IsValid b'
      → contents b' ≡ rest
      → b'.read_pos ≡ 0
      → Delivers c (view u ssl W c) rest (
          if is_empty rest
          then recycle u ssl W id (set_recv_buffer u ssl W id b' c)
          else ok (record (set_recv_buffer u ssl W id b' c) { pending = id }))
  unfolding set_recv_buffer
  finish_first id c b b' [] none_waits valid few here v held r =
      let (b₂, size, e, v₂, same) =
        recycle_lem u ssl W id b' (record c { pool = set c.pool id b' })
          (get_elem?-set_same c.pool id b b' here) (All-set IsValid c.pool id b' valid v) in
      let len : length (set (set c.pool id b') id b₂) ≡ length c.pool =
        length-set (set c.pool id b') id b₂ ∙ length-set c.pool id b' in
      (
        record c {
          pool = set (set c.pool id b') id b₂;
          requests = c.requests ++ (provide id size ∷ []);
        },
        e,
        record {
          valid = All-set IsValid _ id b₂ (All-set IsValid c.pool id b' valid v) v₂;
          few = omega (arith, len);
          held_bytes = inl (none_waits, refl);
        },
        len,
        same,
      )
  finish_first id c b b' (x ∷ xs) none_waits valid few here v held r = (
    record c { pool = set c.pool id b'; pending = id },
    refl,
    record {
      valid = All-set IsValid c.pool id b' valid v;
      few = omega (arith, length-set c.pool id b');
      held_bytes = inr (b', get_elem?-set_same c.pool id b b' here, r, held);
    },
    length-set c.pool id b',
    refl,
  )

  abbrev pub none_pending : Conn u ssl W → Outcome (Conn u ssl W)
  none_pending c = ok (record c { pending = minus_one })

  -- After the packets, the waiting buffer is given back if it is empty.
  pub finish_next :
      (c : Conn u ssl W) (b b' : Buffer) (rest : List ℕ)
      → All IsValid c.pool
      → length c.pool < minus_one
      → get_elem? c.pool c.pending ≡ some b
      → IsValid b'
      → contents b' ≡ rest
      → b'.read_pos ≡ 0
      → Delivers c (view u ssl W c) rest (
          if is_empty rest
          then (recycle u ssl W c.pending (set_recv_buffer u ssl W c.pending b' c) >>= none_pending)
          else ok (set_recv_buffer u ssl W c.pending b' c))
  unfolding set_recv_buffer
  finish_next c b b' [] valid few there v held r =
      let (b₂, size, e, v₂, same) =
        recycle_lem u ssl W c.pending b' (record c { pool = set c.pool c.pending b' })
          (get_elem?-set_same c.pool c.pending b b' there)
          (All-set IsValid c.pool c.pending b' valid v) in
      let len : length (set (set c.pool c.pending b') c.pending b₂) ≡ length c.pool =
        length-set (set c.pool c.pending b') c.pending b₂ ∙ length-set c.pool c.pending b' in
      (
        record c {
          pool = set (set c.pool c.pending b') c.pending b₂;
          requests = c.requests ++ (provide c.pending size ∷ []);
          pending = minus_one;
        },
        ap (λ m. m >>= none_pending) e,
        record {
          valid = All-set IsValid _ c.pending b₂ (All-set IsValid c.pool c.pending b' valid v) v₂;
          few = omega (arith, len);
          held_bytes = inl (refl, refl);
        },
        len,
        same,
      )
  finish_next c b b' (x ∷ xs) valid few there v held r = (
    record c { pool = set c.pool c.pending b' },
    refl,
    record {
      valid = All-set IsValid c.pool c.pending b' valid v;
      few = omega (arith, length-set c.pool c.pending b');
      held_bytes = inr (b', get_elem?-set_same c.pool c.pending b b' there, r, held);
    },
    length-set c.pool c.pending b',
    refl,
  )

  -- The new bytes are put behind those that wait, and their buffer is given back.
  abbrev pub Joins : ℕ → Conn u ssl W → Buffer → Buffer → Type 0
  Joins id c b kept =
      (joined : Buffer) × (c₁ : Conn u ssl W) × (append kept b ≡ ok joined)
      × (recycle u ssl W id (set_recv_buffer u ssl W c.pending joined c) ≡ ok c₁)
      × (view u ssl W c₁ ≡ view u ssl W c)
      × (c₁.pending ≡ c.pending)
      × All IsValid c₁.pool
      × (length c₁.pool ≡ length c.pool)
      × (get_elem? c₁.pool c.pending ≡ some joined)
      × IsValid joined
      × (contents joined ≡ contents kept ++ contents b)
      × (joined.read_pos ≡ kept.read_pos)

  pub join_lem :
      (id : ℕ) (c : Conn u ssl W) (b kept : Buffer)
      → id ≢ c.pending
      → All IsValid c.pool
      → get_elem? c.pool id ≡ some b
      → get_elem? c.pool c.pending ≡ some kept
      → kept.write_pos + b.write_pos < 2 ^ 62
      → Joins id c b kept
  unfolding set_recv_buffer
  join_lem id c b kept apart valid here there small =
      let vb : IsValid b = All-get_elem? IsValid c.pool id b valid here in
      let vk : IsValid kept = All-get_elem? IsValid c.pool c.pending kept valid there in
      let (joined, grown, vj, held, rj, longer, size) =
        append-Stores {b = kept} {other = b} vk vb small in
      let pool₁ : List Buffer = set c.pool c.pending joined in
      let valid₁ : All IsValid pool₁ = All-set IsValid c.pool c.pending joined valid vj in
      let (b₂, n, e₁, v₂, same₁) =
        recycle_lem u ssl W id b (record c { pool = pool₁ })
          (get_elem?-set_other c.pool c.pending id joined (λ q. apart (sym q)) ∙ here) valid₁ in
      (
        joined,
        record c { pool = set pool₁ id b₂; requests = c.requests ++ (provide id n ∷ []) },
        grown,
        e₁,
        same₁,
        refl,
        All-set IsValid pool₁ id b₂ valid₁ v₂,
        length-set pool₁ id b₂ ∙ length-set c.pool c.pending joined,
        get_elem?-set_other pool₁ id c.pending b₂ apart
            ∙ get_elem?-set_same c.pool c.pending kept joined there,
        vj,
        held,
        rj,
      )
