-- ===== src/Session/Invariant/Queue.antt =====
-- What sends, and what completes a send, keeps the session's invariant.
use yuwibo_server.Prelude.{
  ℕ, ◌≡◌, refl, sym, ap, ◌∙◌, true, false, List, [], ◌∷◌, ◌++◌, Option, none, some, ◌==◌, inl, inr,
  ok, or_fault, Always, bind-Always, then-Always, if-Always, ok-Always, ◌⊎◌,
}
use yuwibo_server.Buffer.{
  Buffer, new, default_size, get_stored_size, get_read_buffer, on_read, read_at,
}
use yuwibo_server.Tls.{
  Ssl, SslError, error_none, error_want_read, error_want_write, error_other, get_secret_text,
}
use yuwibo_server.Framing.{build_packet}
use yuwibo_server.Session.{
  Uring, send_data, Conn, close, send_internal, flush_tls_write_buffer, send_message,
  complete_front, on_send,
}
use yuwibo_server.Session.Invariant.{
  IsSound, is_queued, close-IsSound, request-IsSound, submit-IsSound,
}

queue-cases {ℓ} :
    {A : Type ℓ} (xs : List A) → (xs ≡ []) ⊎ ((x : A) × (rest : List A) × (xs ≡ x ∷ rest))
queue-cases [] = inl refl
queue-cases (x ∷ rest) = inr (x, rest, refl)

module _ (u : Uring) (ssl : Ssl) (W : Type 0) where
  abbrev Good : Conn u ssl W → Type 0
  Good = IsSound

  send_internal-IsSound : (c : Conn u ssl W) → IsSound c → Always Good (send_internal u ssl W c)
  unfolding send_internal
  send_internal-IsSound c i = elim (queue-cases c.send_queue) [
    | inl e ↦ rw e (ok-Always (record { sending = i.sending ∙ ap is_queued e; closed = i.closed }))
    | inr (front, rest, e) ↦ rw e (
        then-Always (get_stored_size front) (λ len.
          if-Always (u.get_sqe c.ring).0
            (λ e'. then-Always (get_read_buffer front) (λ pos.
              then-Always (or_fault (read_at front.bytes pos len)) (λ bytes.
                let j = submit-IsSound u ssl W _ (
                  request-IsSound u ssl W (send_data c.fd bytes)
                    (record c { ring = (u.get_sqe c.ring).1 }) refl
                    (record { sending = i.sending; closed = i.closed })) in
                ok-Always (record { sending = j.sending ∙ ap is_queued e; closed = j.closed }))))
            (λ e'. ok-Always (record { sending = i.sending ∙ ap is_queued e; closed = i.closed }))))
  ]

  pub flush-IsSound :
      (c : Conn u ssl W) → IsSound c → Always Good (flush_tls_write_buffer u ssl W c)
  unfolding flush_tls_write_buffer
  flush-IsSound c i = then-Always (get_secret_text ssl (new default_size) c.tls) (λ r.
      if-Always (r.0 == 0) (λ e. ok-Always (record { sending = i.sending; closed = i.closed }))
        (λ e.
          if-Always c.is_sending
            (λ sending.
              ok-Always (record { sending = sending ∙ sym (queued r.1); closed = i.closed }))
            (λ idle.
              send_internal-IsSound _ (record { sending = sym (queued r.1); closed = i.closed }))))
    where
      behind : (xs : List Buffer) (b : Buffer) → is_queued (xs ++ (b ∷ [])) ≡ true
      behind [] b = refl
      behind (x ∷ xs) b = refl

      queued : (b : Buffer) → is_queued (c.send_queue ++ (b ∷ [])) ≡ true
      queued b = behind c.send_queue b

  pub send_message-IsSound :
      (id : ℕ) (serialized : List ℕ) (c : Conn u ssl W)
      → IsSound c
      → Always Good (send_message u ssl W id serialized c)
  unfolding send_message
  send_message-IsSound id serialized c i = then-Always (build_packet id serialized) (λ b.
      then-Always (get_stored_size b) (λ len.
        then-Always (or_fault (read_at b.bytes 0 len)) (λ bytes.
          let r = ssl.write bytes c.tls in
          let c' : Conn u ssl W = record c { tls = r.2 } in
          let j : Good c' = record { sending = i.sending; closed = i.closed } in
          if-Always r.0 (λ e. flush-IsSound c' j) (λ e. on_error r.1 c' j))))
    where
      on_error :
          (err : SslError) (c' : Conn u ssl W)
          → IsSound c'
          → Always Good (elim err [
            | error_want_write ↦ flush_tls_write_buffer u ssl W c'
            | error_want_read ↦ flush_tls_write_buffer u ssl W c'
            | _ ↦ close u ssl W false c'
          ])
      on_error error_none c' j = close-IsSound u ssl W false c' j
      on_error error_want_read c' j = flush-IsSound c' j
      on_error error_want_write c' j = flush-IsSound c' j
      on_error error_other c' j = close-IsSound u ssl W false c' j

  complete_front-IsSound :
      (bytes : ℕ) (c : Conn u ssl W) → IsSound c → Always Good (complete_front u ssl W bytes c)
  unfolding complete_front
  complete_front-IsSound bytes c i = elim (queue-cases c.send_queue) [
    | inl e ↦ rw e (ok-Always (record { sending = i.sending ∙ ap is_queued e; closed = i.closed }))
    | inr (front, rest, e) ↦ rw e (
        then-Always (on_read front bytes) (λ front'. then-Always (get_stored_size front') (λ left.
          if-Always (left == 0) (λ e'. popped rest (i.sending ∙ ap is_queued e))
            (λ e'.
              ok-Always (record { sending = i.sending ∙ ap is_queued e; closed = i.closed })))))
  ]
    where
      popped :
          (rest : List Buffer)
          → c.is_sending ≡ true
          → Always Good (elim rest [
            | [] ↦ ok (record c { send_queue = []; is_sending = false })
            | next ∷ more ↦ ok (record c { send_queue = next ∷ more })
          ])
      popped [] sending = ok-Always (record { sending = refl; closed = i.closed })
      popped (next ∷ more) sending = ok-Always (record { sending = sending; closed = i.closed })

  pub on_send-IsSound :
      (result : Option ℕ) (c : Conn u ssl W) → IsSound c → Always Good (on_send u ssl W result c)
  unfolding on_send
  on_send-IsSound none c i =
      close-IsSound u ssl W false _ (record { sending = i.sending; closed = i.closed })
  on_send-IsSound (some bytes) c i =
      bind-Always _
        (complete_front-IsSound bytes _ (record { sending = i.sending; closed = i.closed }))
        (λ c₁ i₁.
          bind-Always _ (send_internal-IsSound c₁ i₁) (λ c₂ i₂. close-IsSound u ssl W true c₂ i₂))
