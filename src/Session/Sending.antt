-- ===== src/Session/Sending.antt =====
-- The send queue as a stream of bytes, and what is sent next.
use yuwibo_server.Prelude.{
  ℕ, ◌+◌, ◌-◌, ◌%◌, ◌≡◌, refl, sym, some, List, [], ◌∷◌, ◌++◌, append_assoc, append-nil, arith,
  if◌then◌else◌, Bool-cases, inl, inr, ok, u16_mod,
}
use yuwibo_server.Buffer.{Buffer, contents, read_at}
use yuwibo_server.Buffer.Laws.{IsValid, read_at-slice}
use yuwibo_server.Buffer.Consuming.{get_stored_size_lem, get_read_buffer_lem}
use yuwibo_server.Tls.{Ssl}
use yuwibo_server.Session.{Uring, send_data, submitted, Conn, send_internal}

-- All bytes that wait to be sent, in order.
abbrev pub queued : List Buffer → List ℕ
queued [] = []
queued (b ∷ bs) = contents b ++ queued bs

module _ (u : Uring) (ssl : Ssl) (W : Type 0) where
  -- With a valid buffer at the front, SendInternal asks for a send of exactly that buffer's bytes,
  -- or, if there is no free entry, for nothing; the queue and the sending flag stay as they are.
  pub send_internal_lem :
      (c : Conn u ssl W) (front : Buffer) (rest : List Buffer)
      → c.send_queue ≡ front ∷ rest
      → IsValid front
      → (c' : Conn u ssl W) × (send_internal u ssl W c ≡ ok c')
        × (c'.send_queue ≡ c.send_queue)
        × (c'.is_sending ≡ c.is_sending)
        × (c'.requests
            ≡ c.requests
              ++ (if (u.get_sqe c.ring).0
                  then send_data c.fd (contents front) ∷ submitted ∷ []
                  else []))
  unfolding send_internal
  send_internal_lem c front rest e v = elim (Bool-cases (u.get_sqe c.ring).0) [
    | inl free ↦ (
      record c {
        ring = u.submit (u.get_sqe c.ring).1;
        requests = (c.requests ++ (send_data c.fd (contents front) ∷ [])) ++ (submitted ∷ []);
        send_count = (c.send_count + 1) % u16_mod;
      },
      rw (e, get_stored_size_lem v, free, get_read_buffer_lem v, taken) refl,
      refl,
      refl,
      rw free (append_assoc c.requests (send_data c.fd (contents front) ∷ []) (submitted ∷ [])),
    )
    | inr full ↦ (
      record c { ring = (u.get_sqe c.ring).1 },
      rw (e, get_stored_size_lem v, full) refl,
      refl,
      refl,
      rw full (sym (append-nil c.requests)),
    )
  ]
    where
      taken :
          read_at front.bytes front.read_pos (front.write_pos - front.read_pos)
          ≡ some (contents front)
      taken =
          read_at-slice front.bytes front.read_pos (front.write_pos - front.read_pos) (omega arith)
