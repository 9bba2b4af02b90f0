-- ===== src/Session/Delivery/Streams.antt =====
-- The text of a connection arrives in receive buffers, cut anywhere; what the session does with it
-- depends on the stream alone.
use yuwibo_server.Prelude.{
  some, ℕ, ◌+◌, ◌^◌, ◌≤◌, ◌<◌, ◌≡◌, ◌≢◌, refl, sym, ap, subst, ◌∙◌, List, [], ◌∷◌, ◌++◌, arith,
  length, set, get_elem?, All, All-set, All-append, All-split, get_elem?-set_same, get_elem?_inside,
  get_elem?-set_other, length-set, length-append, append_assoc, append-nil, Outcome, ok, ◌>>=◌,
  ok-injective, >>=-ok, >>=-regroup, inl, inr,
}
use yuwibo_server.Buffer.{Buffer, contents}
use yuwibo_server.Buffer.Laws.{IsValid}
use yuwibo_server.Tls.{Ssl}
use yuwibo_server.Framing.Stream.{encode_all, Fits, IsByte, IsPartial, splits_unique, cut}
use yuwibo_server.Framing.Process.{act_all, HasId, IsLocal}
use yuwibo_server.Session.{Uring, Conn, set_recv_buffer, deliver}
use yuwibo_server.Session.View.{view, IsBlind}
use yuwibo_server.Session.Delivery.{Held, Waits}
use yuwibo_server.Session.Delivery.Steps.{deliver_lem}

-- A receive buffer with text of which nothing was read.
pub record IsChunk (b : Buffer) : Type 0 where
  pub valid : IsValid b
  pub unread : b.read_pos ≡ 0

abbrev pub stream : List Buffer → List ℕ
stream [] = []
stream (b ∷ bs) = contents b ++ stream bs

act_all-append :
    {S : Type 0} (act : List ℕ → S → Outcome S) (xs ys : List (List ℕ)) (s : S)
    → act_all act (xs ++ ys) s ≡ (act_all act xs s >>= act_all act ys)
act_all-append act [] ys s = refl
act_all-append act (x ∷ xs) ys s =
    >>=-regroup (act x s) (act_all act (xs ++ ys)) (act_all act xs) (act_all act ys)
      (act_all-append act xs ys)

module _ (u : Uring) (ssl : Ssl) (W : Type 0) where
  -- The kernel's choice of a buffer: one that the session does not hold, if there are two.
  abbrev pub IsOffer : (Conn u ssl W → ℕ) → Type 0
  IsOffer pick =
      (c : Conn u ssl W) → 2 ≤ length c.pool → (pick c ≢ c.pending) × (pick c < length c.pool)

  module _ (handle : List ℕ → ℕ → Conn u ssl W → Outcome (Conn u ssl W))
      (pick : Conn u ssl W → ℕ) where
    -- The text of each buffer stands in the one that the kernel picked, and is delivered.
    abbrev pub receive_all : List Buffer → Conn u ssl W → Outcome (Conn u ssl W)
    receive_all [] c = ok c
    receive_all (b ∷ bs) c =
        deliver u ssl W handle (pick c) (set_recv_buffer u ssl W (pick c) b c) >>= receive_all bs

    pub placed :
        (id : ℕ) (b : Buffer) (c : Conn u ssl W) (held : List ℕ)
        → IsValid b
        → id ≢ c.pending
        → Waits u ssl W c held
        → Waits u ssl W (set_recv_buffer u ssl W id b c) held
    unfolding set_recv_buffer
    placed id b c held v apart waits = record {
      valid = All-set IsValid c.pool id b waits.valid v;
      few = omega (arith, length-set c.pool id b, waits.few);
      held_bytes = by_held waits.held_bytes;
    }
      where
        by_held : Held u ssl W c held → Held u ssl W (record c { pool = set c.pool id b }) held
        by_held (inl nothing) = inl nothing
        by_held (inr (kept, there, r, same)) =
            inr (kept, get_elem?-set_other c.pool id c.pending b apart ∙ there, r, same)

    at_pick :
        (c : Conn u ssl W) (b old : Buffer)
        → get_elem? c.pool (pick c) ≡ some old
        → get_elem? (set_recv_buffer u ssl W (pick c) b c).pool (pick c) ≡ some b
    unfolding set_recv_buffer
    at_pick c b old e = get_elem?-set_same c.pool (pick c) old b e

    pool_size :
        (c : Conn u ssl W) (b : Buffer)
        → length (set_recv_buffer u ssl W (pick c) b c).pool ≡ length c.pool
    unfolding set_recv_buffer
    pool_size c b = length-set c.pool (pick c) b

    apart_still :
        (c : Conn u ssl W) (b : Buffer)
        → pick c ≢ c.pending
        → pick c ≢ (set_recv_buffer u ssl W (pick c) b c).pending
    unfolding set_recv_buffer
    apart_still c b h = h

    blind_to_pool :
        (act : List ℕ → Conn u ssl W → Outcome (Conn u ssl W)) (bodies : List (List ℕ))
        (v c : Conn u ssl W) (b : Buffer)
        → act_all act bodies (view u ssl W c) ≡ ok v
        → act_all act bodies (view u ssl W (set_recv_buffer u ssl W (pick c) b c)) ≡ ok v
    unfolding set_recv_buffer
    blind_to_pool act bodies v c b e = e

    -- All of a stream is received.
    abbrev pub Receives : List Buffer → Conn u ssl W → Conn u ssl W → List ℕ → Type 0
    Receives chunks c v rest =
        (c' : Conn u ssl W) × (receive_all chunks c ≡ ok c')
        × Waits u ssl W c' rest
        × (view u ssl W c' ≡ v)

    module _ (act : List ℕ → Conn u ssl W → Outcome (Conn u ssl W)) (local : IsLocal handle act)
        (blind : IsBlind u ssl W act) (offers : IsOffer pick) where
      -- Text that arrives cut anywhere into valid receive buffers, each put where the kernel
      -- offers a buffer that the session does not hold, of two at least, is received without a
      -- fault: if the bytes that waited, an unfinished packet, and those that came are whole
      -- packets (each with an identifier, fewer than 2 ^ 62 bytes in all) and an unfinished one,
      -- and the packets' calls, which depend on and change nothing of the receive buffers, succeed
      -- one behind the other, then the session is, but for the receive buffers, as those calls
      -- leave it, and exactly the unfinished packet waits.
      pub receive_all_lem :
          (chunks : List Buffer) (c v : Conn u ssl W) (held : List ℕ) (bodies : List (List ℕ))
          (rest : List ℕ)
          → Waits u ssl W c held
          → IsPartial held
          → 2 ≤ length c.pool
          → All IsChunk chunks
          → length (held ++ stream chunks) < 2 ^ 62
          → All IsByte (held ++ stream chunks)
          → held ++ stream chunks ≡ encode_all bodies ++ rest
          → All Fits bodies
          → All HasId bodies
          → IsPartial rest
          → act_all act bodies (view u ssl W c) ≡ ok v
          → Receives chunks c v rest
      receive_all_lem [] c v held bodies rest waits ph two fresh small bytes e fits ids p done =
          let (none_left, same) =
            splits_unique [] bodies held rest tt fits ph p (sym (append-nil held) ∙ e) in
          (
            c,
            refl,
            subst (Waits u ssl W c) same waits,
            ok-injective (ap (λ bs. act_all act bs (view u ssl W c)) none_left ∙ done),
          )
      receive_all_lem (b ∷ bs) c v held bodies rest waits ph two fresh small bytes e fits ids p
            done =
          let whole : (held ++ contents b) ++ stream bs ≡ held ++ (contents b ++ stream bs) =
            append_assoc held (contents b) (stream bs) in
          let k =
            cut (held ++ contents b) (stream bs) bodies rest (whole ∙ e)
              (subst (All IsByte) (sym whole) bytes) fits p in
          let size : length (held ++ stream (b ∷ bs))
              ≡ length (encode_all k.first) + length (k.open_part ++ stream bs) =
            ap length (
              sym whole
              ∙ ap (λ zs. zs ++ stream bs) k.before
              ∙ append_assoc (encode_all k.first) k.open_part (stream bs))
            ∙ length-append (encode_all k.first) (k.open_part ++ stream bs) in
          let (ids₁, ids₂) = All-split HasId k.first k.later (subst (All HasId) (sym k.all) ids) in
          let (v₁, now, then_) =
            >>=-ok (act_all act k.first (view u ssl W c)) (act_all act k.later) v (
              sym (act_all-append act k.first k.later (view u ssl W c))
              ∙ ap (λ bs. act_all act bs (view u ssl W c)) k.all
              ∙ done) in
          let (apart, inside) = offers c two in
          let (old, there) = get_elem?_inside c.pool (pick c) inside in
          let (c₁, delivers, waits₁, len₁, same₁) =
            deliver_lem u ssl W handle act local blind (pick c)
              (set_recv_buffer u ssl W (pick c) b c) v₁ b held k.first k.open_part
              (placed (pick c) b c held fresh.0.valid apart waits) (at_pick c b old there)
              (apart_still c b apart) fresh.0.unread
              (omega (
                arith,
                length-append held (contents b ++ stream bs),
                length-append (contents b) (stream bs),
              ))
              k.before k.first_fits ids₁ k.is_partial k.open_bytes
              (blind_to_pool act k.first v₁ c b now) in
          let (c₂, receives, waits₂, same₂) =
            receive_all_lem bs c₁ v k.open_part k.later rest waits₁ k.is_partial
              (omega (arith, len₁, pool_size c b)) fresh.1 (omega (arith, size))
              (All-append IsByte k.open_part (stream bs) k.open_bytes
                (All-split IsByte (held ++ contents b) (stream bs)
                  (subst (All IsByte) (sym whole) bytes)).1)
              k.behind k.later_fits ids₂ p (ap (act_all act k.later) same₁ ∙ then_) in
          (c₂, ap (λ m. m >>= receive_all bs) delivers ∙ receives, waits₂, same₂)
