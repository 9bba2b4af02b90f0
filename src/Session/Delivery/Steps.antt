-- ===== src/Session/Delivery/Steps.antt =====
-- The end of Session::OnRecv on one receive buffer, against the description of the stream.
use mathlib.Core.Path.{ap₂}
use yuwibo_server.Prelude.{
  ℕ, ◌+◌, ◌^◌, ◌<◌, ◌≡◌, ◌≢◌, sym, ap, subst, ◌∙◌, Bool, false, List, ◌++◌, some, arith, length,
  get_elem?, All, All-get_elem?, get_elem?_lt, ◌==◌, inl, inr, Outcome, ok, ◌>>=◌, minus_one,
  if◌then◌else◌,
}
use yuwibo_server.Buffer.{Buffer, contents}
use yuwibo_server.Buffer.Laws.{IsValid, length-contents}
use yuwibo_server.Tls.{Ssl}
use yuwibo_server.Framing.{process_packet}
use yuwibo_server.Framing.Stream.{encode_all, Fits, IsByte, IsPartial}
use yuwibo_server.Framing.Process.{act_all, HasId, IsLocal, is_empty, process_packet_lem}
use yuwibo_server.Session.{Uring, Conn, recv_buffer, set_recv_buffer, recycle, deliver}
use yuwibo_server.Session.View.{view, IsBlind, act_all-IsBlind}
use yuwibo_server.Session.Delivery.{
  Held, Waits, Delivers, none_pending, finish_first, finish_next, join_lem,
}

module _ (u : Uring) (ssl : Ssl) (W : Type 0)
    (handle : List ℕ → ℕ → Conn u ssl W → Outcome (Conn u ssl W))
    (act : List ℕ → Conn u ssl W → Outcome (Conn u ssl W)) (local : IsLocal handle act)
    (blind : IsBlind u ssl W act) where
  abbrev stage : ℕ → Bool × Buffer × Conn u ssl W → Outcome (Conn u ssl W)
  stage id (finished, b, c) =
      if finished
      then recycle u ssl W id (set_recv_buffer u ssl W id b c)
      else ok (record (set_recv_buffer u ssl W id b c) { pending = id })

  -- Nothing waits: the packets stand in the buffer that came.
  deliver_first :
      (id : ℕ) (c v : Conn u ssl W) (b : Buffer) (bodies : List (List ℕ)) (rest : List ℕ)
      → c.pending ≡ minus_one
      → All IsValid c.pool
      → length c.pool < minus_one
      → get_elem? c.pool id ≡ some b
      → b.read_pos ≡ 0
      → contents b ≡ encode_all bodies ++ rest
      → All Fits bodies
      → All HasId bodies
      → IsPartial rest
      → All IsByte rest
      → act_all act bodies (view u ssl W c) ≡ ok v
      → Delivers u ssl W c v rest (deliver u ssl W handle id c)
  unfolding deliver recv_buffer
  deliver_first id c v b bodies rest none_waits valid few here r e fits ids p bytes done =
      let (b', run, v', held, r') =
        process_packet_lem handle act local {b = b} bodies rest
          (All-get_elem? IsValid c.pool id b valid here) r e fits ids p bytes in
      let (c₁, made, same, pool, pending) = act_all-IsBlind u ssl W act blind bodies c v done in
      let (c₂, e₂, waits, len, view₂) =
        finish_first u ssl W id c₁ b b' rest (pending ∙ none_waits)
          (subst (All IsValid) (sym pool) valid) (omega (arith, ap length pool))
          (ap (λ bs. get_elem? bs id) pool ∙ here) v' held r' in
      (
        c₂,
        rw (ap (λ n. n == minus_one) none_waits, here)
            (ap (λ m. m >>= stage id)
                (run c ∙ ap (λ m. m >>= λ c'. ok (is_empty rest, b', c')) made)
              ∙ e₂),
        waits,
        len ∙ ap length pool,
        view₂ ∙ same,
      )

  abbrev stage_held : Bool × Buffer × Conn u ssl W → Outcome (Conn u ssl W)
  stage_held (finished, b, c) =
      let c₁ : Conn u ssl W = set_recv_buffer u ssl W c.pending b c in
      if finished then (recycle u ssl W c₁.pending c₁ >>= none_pending u ssl W) else ok c₁

  -- Some bytes wait: the new ones are put behind them.
  deliver_next :
      (id : ℕ) (c v : Conn u ssl W) (b kept : Buffer) (bodies : List (List ℕ)) (rest : List ℕ)
      → (c.pending == minus_one) ≡ false
      → id ≢ c.pending
      → All IsValid c.pool
      → length c.pool < minus_one
      → get_elem? c.pool id ≡ some b
      → get_elem? c.pool c.pending ≡ some kept
      → b.read_pos ≡ 0
      → kept.read_pos ≡ 0
      → length (contents kept) + length (contents b) < 2 ^ 62
      → contents kept ++ contents b ≡ encode_all bodies ++ rest
      → All Fits bodies
      → All HasId bodies
      → IsPartial rest
      → All IsByte rest
      → act_all act bodies (view u ssl W c) ≡ ok v
      → Delivers u ssl W c v rest (deliver u ssl W handle id c)
  unfolding deliver recv_buffer set_recv_buffer
  deliver_next id c v b kept bodies rest waiting apart valid few here there r rk small e fits ids p
        bytes done =
      let vb : IsValid b = All-get_elem? IsValid c.pool id b valid here in
      let vk : IsValid kept = All-get_elem? IsValid c.pool c.pending kept valid there in
      let (joined, c₁, grown, e₁, same₁, pend₁, valid₁, len₁, there₁, vj, held, rj) =
        join_lem u ssl W id c b kept apart valid here there
          (omega (arith, length-contents vb, length-contents vk, r, rk)) in
      let (b', run, v', left, r') =
        process_packet_lem handle act local {b = joined} bodies rest vj (rj ∙ rk) (held ∙ e) fits
          ids p bytes in
      let (c₂, made, same₂, pool₂, pend₂) =
        act_all-IsBlind u ssl W act blind bodies c₁ v (ap (act_all act bodies) same₁ ∙ done) in
      let (c₃, e₃, waits, len₃, same₃) =
        finish_next u ssl W c₂ joined b' rest (subst (All IsValid) (sym pool₂) valid₁)
          (omega (arith, ap length pool₂, len₁)) (ap₂ get_elem? pool₂ (pend₂ ∙ pend₁) ∙ there₁) v'
          left r' in
      (
        c₃,
        rw (waiting, here, there, grown)
            (ap (λ m. m >>= λ c'. process_packet handle joined c' >>= stage_held) e₁
              ∙ ap (λ m. m >>= stage_held)
                  (run c₁ ∙ ap (λ m. m >>= λ c'. ok (is_empty rest, b', c')) made)
              ∙ e₃),
        waits,
        len₃ ∙ ap length pool₂ ∙ len₁,
        same₃ ∙ same₂,
      )

  -- A delivery handles the packets that the new bytes complete, and keeps the unfinished rest.
  pub deliver_lem :
      (id : ℕ) (c v : Conn u ssl W) (b : Buffer) (held : List ℕ) (bodies : List (List ℕ))
      (rest : List ℕ)
      → Waits u ssl W c held
      → get_elem? c.pool id ≡ some b
      → id ≢ c.pending
      → b.read_pos ≡ 0
      → length held + length (contents b) < 2 ^ 62
      → held ++ contents b ≡ encode_all bodies ++ rest
      → All Fits bodies
      → All HasId bodies
      → IsPartial rest
      → All IsByte rest
      → act_all act bodies (view u ssl W c) ≡ ok v
      → Delivers u ssl W c v rest (deliver u ssl W handle id c)
  deliver_lem id c v b held bodies rest waits here apart r small e fits ids p bytes done =
      by_held waits.held_bytes
    where
      below : c.pending < length c.pool → (c.pending == minus_one) ≡ false
      below h = ground (arith, waits.few)

      by_held : Held u ssl W c held → Delivers u ssl W c v rest (deliver u ssl W handle id c)
      by_held (inl (none_waits, nothing)) =
          deliver_first id c v b bodies rest none_waits waits.valid waits.few here r
            (ap (λ xs. xs ++ contents b) (sym nothing) ∙ e) fits ids p bytes done
      by_held (inr (kept, there, rk, same)) =
          deliver_next id c v b kept bodies rest (below (get_elem?_lt c.pool c.pending kept there))
            apart waits.valid waits.few here there r rk (omega (arith, ap length same))
            (ap (λ xs. xs ++ contents b) same ∙ e) fits ids p bytes done
