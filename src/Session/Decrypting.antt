-- ===== src/Session/Decrypting.antt =====
-- The part of Session::OnRecv behind the handshake: the decrypted text goes into the receive buffer
-- that brought its bytes, and is delivered.
use yuwibo_server.Prelude.{
  ℕ, zero, suc, ◌-◌, ◌≤◌, ◌<◌, ◌^◌, ◌≡◌, ◌≢◌, refl, sym, ap, ◌∙◌, Bool, true, false, List, [], ◌∷◌,
  ◌++◌, some, arith, length, take, drop, get_elem?, length-take, length-replicate, ◌==◌, le→ltb,
  Outcome, ok, ◌>>=◌, or_fault, Always, ok-Always, spins-Always, then-Always, if-Always,
}
use yuwibo_server.Buffer.{
  Buffer, new, default_size, contents, get_stored_size, get_buffer_size, reset, resize, read_at,
  write_at, on_write, get_remaining_size, get_write_buffer,
}
use yuwibo_server.Buffer
use yuwibo_server.Buffer.Laws.{IsValid, length-contents, write-Stores}
use yuwibo_server.Buffer.Whole.{read_all}
use yuwibo_server.Buffer.Consuming.{get_stored_size_lem, reset-Holds}
use yuwibo_server.Framing.Build.{new-IsValid}
use yuwibo_server.Tls.{
  Ssl, SslError, error_none, error_want_read, error_want_write, error_other, drain, get_recv_text,
}
use yuwibo_server.Tls.Drain.{IsQueue, drain-Moves}
use yuwibo_server.Session.{Uring, Conn, recv_buffer, set_recv_buffer, deliver, receive_text}
use yuwibo_server.Session.Delivery.Streams.{IsChunk}

-- Neither a failure nor a wish to write.
abbrev pub is_quiet : SslError → Bool
is_quiet error_none = true
is_quiet error_want_read = true
is_quiet e = false

module _ {S : Type 0} (reader : ℕ → S → List ℕ × SslError × S)
    (quiet : (n : ℕ) (st : S) → is_quiet (reader n st).1 ≡ true) where
  drain-quiet :
      (fuel : ℕ) (b : Buffer) (err : SslError) (st : S)
      → is_quiet err ≡ true
      → Always (λ r. is_quiet r.0 ≡ true) (drain reader fuel b err st)
  unfolding drain
  drain-quiet zero b err st h = spins-Always
  drain-quiet (suc fuel) b err st h = then-Always (get_remaining_size b) (λ remaining.
      then-Always (get_write_buffer b) (λ pos.
        if-Always (remaining == 0) (λ e. ok-Always h)
          (λ e.
            by_bytes remaining pos (reader remaining st).0
              (λ b'. drain-quiet fuel b' err (reader remaining st).2 h))))
    where
      by_bytes :
          (remaining pos : ℕ) (bytes : List ℕ)
          → ((b' : Buffer)
              → Always {A = SslError × Buffer × S}
                  (λ r. is_quiet r.0 ≡ true)
                  (drain reader fuel b' err (reader remaining st).2))
          → Always {A = SslError × Buffer × S}
              (λ r. is_quiet r.0 ≡ true)
              (elim bytes [
                | [] ↦ ok ((reader remaining st).1, b, (reader remaining st).2)
                | x ∷ xs ↦ do
                  stored ← or_fault (write_at b.bytes pos (x ∷ xs))
                  b ← on_write (record b { bytes = stored }) (suc (length xs))
                  drain reader fuel b err (reader remaining st).2
              ])
      by_bytes remaining pos [] later = ok-Always (quiet remaining st)
      by_bytes remaining pos (x ∷ xs) later =
          then-Always (or_fault (write_at b.bytes pos (x ∷ xs)))
            (λ stored. then-Always (on_write (record b { bytes = stored }) (suc (length xs))) later)

pub some_taken : (xs : List ℕ) → xs ≢ [] → (length (take default_size xs) == 0) ≡ false
some_taken [] h = absurd (h refl)
some_taken (x ∷ xs) h = not_zero (omega (arith, length-take default_size (x ∷ xs)))
  where
    not_zero : {n : ℕ} → 1 ≤ n → (n == 0) ≡ false
    not_zero h = ground arith

module _ (ssl : Ssl) where
  get_recv_text_lem :
      (q : IsQueue ssl.read) (size : ℕ) (st : ssl.State)
      → ((n : ℕ) (st : ssl.State) → is_quiet (ssl.read n st).1 ≡ true)
      → size < 2 ^ 31
      → (n : ℕ) × (e : SslError) × (b : Buffer) × (st' : ssl.State) × (get_recv_text ssl
            (new size)
            st
          ≡ ok (n, e, b, st'))
        × (is_quiet e ≡ true)
        × IsValid b
        × (b.read_pos ≡ 0)
        × (contents b ≡ take size (q.pending st))
        × (n ≡ length (take size (q.pending st)))
        × (q.pending st' ≡ drop size (q.pending st))
  unfolding get_recv_text new
  get_recv_text_lem q size st quiet h =
      let (e, b, st', eq, v, r, c, p) =
        drain-Moves ssl.read q (suc (length (new size).bytes)) (new size) error_none st
          (new-IsValid size (omega arith)) refl (omega (arith, length-replicate {A = ℕ} size 0))
          (omega arith) in
      let held : contents b ≡ take size (q.pending st) = c ∙ ap (λ k. take k (q.pending st)) room in
      (
        length (contents b),
        e,
        b,
        st',
        rw (eq, get_stored_size_lem v, length-contents v) refl,
        (drain-quiet ssl.read quiet (suc (length (new size).bytes)) (new size) error_none st
              refl).of_result
            (e, b, st') eq,
        v,
        r,
        held,
        ap length held,
        p ∙ ap (λ k. drop k (q.pending st)) room,
      )
    where
      room : length (new size).bytes - (new size).write_pos ≡ size
      room = omega (arith, length-replicate {A = ℕ} size 0)

module _ (u : Uring) (ssl : Ssl) (W : Type 0)
    (handle : List ℕ → ℕ → Conn u ssl W → Outcome (Conn u ssl W)) where
  -- The text of a reception is delivered in the receive buffer `id`.
  abbrev pub Decrypts : (q : IsQueue ssl.read) → ℕ → Conn u ssl W → Outcome (Conn u ssl W) → Type 0
  Decrypts q id c out =
      (b : Buffer) × (st : ssl.State) × (out
        ≡ deliver u ssl W handle id (set_recv_buffer u ssl W id b (record c { tls = st })))
      × IsChunk b
      × (contents b ≡ take default_size (q.pending c.tls))
      × (q.pending st ≡ drop default_size (q.pending c.tls))

  get_buffer_size_lem : (b : Buffer) → IsValid b → get_buffer_size b ≡ ok (length b.bytes)
  unfolding get_buffer_size
  get_buffer_size_lem b v = rw v.free refl

  -- With the text at hand: it replaces what the receive buffer held.
  text_lem :
      (id n : ℕ) (e : SslError) (c : Conn u ssl W) (old reset_one filled text : Buffer)
      (st : ssl.State)
      → get_recv_text ssl (new default_size) c.tls ≡ ok (n, e, text, st)
      → is_quiet e ≡ true
      → (n == 0) ≡ false
      → get_elem? c.pool id ≡ some old
      → IsValid old
      → n ≤ length old.bytes
      → reset old ≡ ok reset_one
      → read_at text.bytes 0 n ≡ some (contents text)
      → Buffer.write reset_one (contents text) ≡ ok filled
      → receive_text u ssl W handle id c
        ≡ deliver u ssl W handle id (set_recv_buffer u ssl W id filled (record c { tls = st }))
  unfolding receive_text recv_buffer
  text_lem id n error_none c old reset_one filled text st got calm some_text here v fits emptied
        taken written =
      rw
        (
          got,
          some_text,
          here,
          get_buffer_size_lem old v,
          le→ltb (length old.bytes) n fits,
          emptied,
          taken,
          written,
        )
        refl
  text_lem id n error_want_read c old reset_one filled text st got calm some_text here v fits
        emptied taken written =
      rw
        (
          got,
          some_text,
          here,
          get_buffer_size_lem old v,
          le→ltb (length old.bytes) n fits,
          emptied,
          taken,
          written,
        )
        refl
  text_lem id n error_want_write c old reset_one filled text st got calm some_text here v fits
        emptied taken written =
      cc
  text_lem id n error_other c old reset_one filled text st got calm some_text here v fits emptied
        taken written =
      cc

  -- If SSL_read hands out the decrypted text in order and reports neither a failure nor a wish to
  -- write, and there is text, then OnRecv, behind the handshake, takes the oldest 4096 bytes of
  -- it, or all, and delivers exactly them, alone and unread, in the receive buffer that brought
  -- the bytes, if that is a valid buffer of at least 4096 bytes; the rest of the text stays with
  -- OpenSSL.
  pub receive_text-Decrypts :
      (q : IsQueue ssl.read) (id : ℕ) (c : Conn u ssl W) (old : Buffer)
      → ((n : ℕ) (st : ssl.State) → is_quiet (ssl.read n st).1 ≡ true)
      → get_elem? c.pool id ≡ some old
      → IsValid old
      → default_size ≤ length old.bytes
      → q.pending c.tls ≢ []
      → Decrypts q id c (receive_text u ssl W handle id c)
  receive_text-Decrypts q id c old quiet here v large some_text =
      let (n, e, text, st, got, calm, vt, rt, held, counted, left) =
        get_recv_text_lem ssl q default_size c.tls quiet (omega arith) in
      let (empty, emptied, v₁, nothing, r₁) = reset-Holds {b = old} v in
      let few : n ≤ default_size =
        omega (arith, counted, length-take default_size (q.pending c.tls)) in
      let (filled, written, v₂, stored, r₂, longer, size) =
        write-Stores {b = empty} (contents text) v₁
          (omega (arith, length-contents v₁, ap length nothing, ap length held, counted, few)) in
      (
        filled,
        st,
        text_lem id n e c old empty filled text st got calm
            (ap (λ k. k == 0) counted ∙ some_taken (q.pending c.tls) some_text) here v
            (omega (arith, few)) emptied (read_all text n vt rt (counted ∙ ap length (sym held)))
            written,
        record { valid = v₂; unread = r₂ ∙ r₁ },
        stored ∙ ap (λ xs. xs ++ contents text) nothing ∙ held,
        left,
      )
