-- ===== src/Session/Feeding.antt =====
-- The loop of Session::OnRecv that hands the received bytes to OpenSSL.
use mathlib.Core.Path.{ap₂}
use yuwibo_server.Prelude.{
  ℕ, zero, suc, ◌-◌, ◌≤◌, ◌<◌, ◌≡◌, ◌≢◌, refl, sym, ap, ◌∙◌, Bool, true, false, List, [], ◌∷◌, ◌++◌,
  some, arith, length, take, drop, set, get_elem?, get_elem?-set_same, take-append-drop,
  append_assoc, append-nil, length-drop, ◌==◌, ==_iff, Bool-cases, inl, inr, Outcome, add_size, leb,
  if◌then◌else◌, bind-Always, ok, Always, ok-Always, if-Always,
}
use yuwibo_server.Buffer.{Buffer, contents, on_read, read_at}
use yuwibo_server.Buffer.Laws.{IsValid, length-contents, read_at-slice}
use yuwibo_server.Buffer.Consuming.{on_read-Drops, get_stored_size_lem, get_read_buffer_lem}
use yuwibo_server.Tls.{Ssl}
use yuwibo_server.Session.{Uring, Conn, recv_buffer, set_recv_buffer, feed_tls}

-- Of a memory BIO that is written to: it takes some of the bytes that it is given, the first ones, and
-- keeps their order.
pub record IsSink {S : Type 0} (write : List ℕ → S → ℕ × S) : Type 0 where
  pub fed : S → List ℕ
  pub some_taken : (bytes : List ℕ) (st : S) → bytes ≢ [] → 1 ≤ (write bytes st).0
  pub bounded : (bytes : List ℕ) (st : S) → (write bytes st).0 ≤ length bytes
  pub takes :
      (bytes : List ℕ) (st : S) → fed (write bytes st).1 ≡ fed st ++ take (write bytes st).0 bytes

pub set-set : (xs : List Buffer) (i : ℕ) (a b : Buffer) → set (set xs i a) i b ≡ set xs i b
set-set [] i a b = refl
set-set (x ∷ xs) zero a b = refl
set-set (x ∷ xs) (suc i) a b = ap (λ ys. x ∷ ys) (set-set xs i a b)

on_read-keeps : (b : Buffer) (n : ℕ) → IsValid b → Always (λ b'. b'.bytes ≡ b.bytes) (on_read b n)
unfolding on_read
on_read-keeps b n v = rw v.free (
    bind-Always (if leb b.write_pos (add_size b.read_pos n) then _ else _)
      (if-Always (leb b.write_pos (add_size b.read_pos n)) (λ e. ok-Always refl)
        (λ e. ok-Always refl))
      (λ b' e. ok-Always e))

module _ (u : Uring) (ssl : Ssl) (W : Type 0) (k : IsSink ssl.bio_write) where
  -- All bytes of the receive buffer `id` went to OpenSSL, and nothing else changed.
  abbrev pub Feeds : ℕ → List ℕ → ℕ → Conn u ssl W → Outcome (Bool × Conn u ssl W) → Type 0
  Feeds id bytes size c out =
      (b' : Buffer) × (st : ssl.State) × (pool : List Buffer) × (out
        ≡ ok (true, record c { tls = st; pool = pool }))
      × (get_elem? pool id ≡ some b')
      × IsValid b'
      × (length b'.bytes ≡ size)
      × ((b : Buffer) → set pool id b ≡ set c.pool id b)
      × (k.fed st ≡ k.fed c.tls ++ bytes)
      × ((seen : ssl.State → ℕ)
          → ((bs : List ℕ) (t : ssl.State) → seen (ssl.bio_write bs t).1 ≡ seen t)
          → seen st ≡ seen c.tls)

  pub feed_tls_lem :
      (fuel id : ℕ) (c : Conn u ssl W) (b : Buffer)
      → get_elem? c.pool id ≡ some b
      → IsValid b
      → length (contents b) < fuel
      → Feeds id (contents b) (length b.bytes) c (feed_tls u ssl W fuel id c)
  unfolding feed_tls recv_buffer set_recv_buffer
  feed_tls_lem zero id c b here v h = absurd (omega arith)
  feed_tls_lem (suc fuel) id c b here v h = elim (Bool-cases (b.write_pos - b.read_pos == 0)) [
    | inl all ↦ (
      b,
      c.tls,
      c.pool,
      rw (here, get_stored_size_lem v, get_read_buffer_lem v, all) refl,
      here,
      v,
      refl,
      λ b'. refl,
      sym (append-nil (k.fed c.tls))
          ∙ ap (λ xs. k.fed c.tls ++ xs)
              (sym (no_bytes (contents b) (omega (arith, length-contents v, (==_iff _ 0).0 all)))),
      λ seen unseen. refl,
    )
    | inr more ↦
        let n : ℕ = (ssl.bio_write (contents b) c.tls).0 in
        let st : ssl.State = (ssl.bio_write (contents b) c.tls).1 in
        let taken : 1 ≤ n =
          k.some_taken (contents b) c.tls
            (λ e. some_left more (omega (arith, length-contents v, ap length e))) in
        let few : n ≤ length (contents b) = k.bounded (contents b) c.tls in
        let (b₂, dropped, v₂, left, low) =
          on_read-Drops {b = b} n v (omega (arith, few, length-contents v)) in
        let size : length b₂.bytes ≡ length b.bytes =
          ap length ((on_read-keeps b n v).of_result b₂ dropped) in
        let (b₃, st₃, pool, goes, there, v₃, size₃, same, fed, kept) =
          feed_tls_lem fuel id (record c { tls = st; pool = set c.pool id b₂ }) b₂
            (get_elem?-set_same c.pool id b b₂ here) v₂
            (omega (arith, ap length left, length-drop n (contents b), taken, few, h)) in
        (
          b₃,
          st₃,
          pool,
          rw
              (
                here,
                get_stored_size_lem v,
                get_read_buffer_lem v,
                more,
                all_read,
                not_zero taken,
                dropped,
              )
              goes,
          there,
          v₃,
          size₃ ∙ size,
          λ b'. same b' ∙ set-set c.pool id b₂ b',
          fed
              ∙ ap₂ (λ xs ys. xs ++ ys) (k.takes (contents b) c.tls) left
              ∙ append_assoc (k.fed c.tls) (take n (contents b)) (drop n (contents b))
              ∙ ap (λ xs. k.fed c.tls ++ xs) (take-append-drop n (contents b)),
          λ seen unseen. kept seen unseen ∙ unseen (contents b) c.tls,
        )
  ]
    where
      no_bytes : (xs : List ℕ) → length xs ≡ 0 → xs ≡ []
      no_bytes [] h = refl
      no_bytes (x ∷ xs) h = absurd (omega arith)

      some_left : {n : ℕ} → (n == 0) ≡ false → n ≡ 0 → ⊥
      some_left h e = ground arith

      not_zero : {n : ℕ} → 1 ≤ n → (n == 0) ≡ false
      not_zero h = ground arith

      all_read : read_at b.bytes b.read_pos (b.write_pos - b.read_pos) ≡ some (contents b)
      all_read = read_at-slice b.bytes b.read_pos (b.write_pos - b.read_pos) (omega arith)
