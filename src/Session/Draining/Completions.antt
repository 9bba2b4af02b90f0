-- ===== src/Session/Draining/Completions.antt =====
-- Session::OnSend at one completed send.
use yuwibo_server.Prelude.{
  ℕ, ◌+◌, ◌-◌, ◌%◌, ◌≤◌, ◌≡◌, refl, sym, ap, ◌∙◌, subst, Bool, true, false, List, [], ◌∷◌, ◌++◌,
  some, arith, length, drop, length-drop, All, append_assoc, append-nil, ◌==◌, ==_iff, Bool-cases,
  inl, inr, Outcome, ok, u16_mod,
}
use yuwibo_server.Buffer.{Buffer, contents, on_read, get_stored_size}
use yuwibo_server.Buffer.Laws.{IsValid, length-contents}
use yuwibo_server.Buffer.Whole.{read_stored}
use yuwibo_server.Buffer.Consuming.{on_read-Drops, get_stored_size_lem, get_read_buffer_lem}
use yuwibo_server.Tls.{Ssl}
use yuwibo_server.Session.{
  Uring, send_data, submitted, Conn, close, send_internal, complete_front, on_send,
}
use yuwibo_server.Session.Invariant.{is_queued}
use yuwibo_server.Session.Draining.Acks.{after_ack, next_send, HasBytes, texts}

module _ (u : Uring) (ssl : Ssl) (W : Type 0) (free : (q : u.Ring) → (u.get_sqe q).0 ≡ true) where
  -- A send of the first buffer was asked for.
  abbrev asked : Conn u ssl W → Buffer → Conn u ssl W
  asked c b = record c {
    ring = u.submit (u.get_sqe c.ring).1;
    requests = (c.requests ++ (send_data c.fd (contents b) ∷ [])) ++ (submitted ∷ []);
    send_count = (c.send_count + 1) % u16_mod;
  }

  send_internal-asked :
      (c : Conn u ssl W) (b : Buffer) (rest : List Buffer)
      → c.send_queue ≡ b ∷ rest
      → IsValid b
      → send_internal u ssl W c ≡ ok (asked c b)
  unfolding send_internal
  send_internal-asked c b rest e v =
      rw (e, get_stored_size_lem v, free c.ring, get_read_buffer_lem v, read_stored v) refl

  close-stays : (c : Conn u ssl W) → c.canceling ≡ false → close u ssl W true c ≡ ok c
  unfolding close
  close-stays c going = rw going refl

  -- A session that is not being stopped, and is sending exactly while something is queued, in valid
  -- buffers that are not empty.
  pub record IsSending (c : Conn u ssl W) : Type 0 where
    pub going : c.canceling ≡ false
    pub sending : c.is_sending ≡ is_queued c.send_queue
    pub valid : All IsValid c.send_queue
    pub some_left : All HasBytes c.send_queue

  abbrev pub GoesOn : ℕ → Conn u ssl W → Outcome (Conn u ssl W) → Type 0
  GoesOn n c out =
      (c' : Conn u ssl W) × (out ≡ ok c')
      × IsSending c'
      × (c'.fd ≡ c.fd)
      × (texts c'.send_queue ≡ after_ack n (texts c.send_queue))
      × (c'.requests ≡ c.requests ++ next_send c.fd (texts c'.send_queue))

  send_internal-nothing : (c : Conn u ssl W) → c.send_queue ≡ [] → send_internal u ssl W c ≡ ok c
  unfolding send_internal
  send_internal-nothing c e = rw e refl

  abbrev uncounted : Conn u ssl W → Conn u ssl W
  uncounted c = record c { send_count = (c.send_count + (u16_mod - 1)) % u16_mod }

  -- What follows when the front buffer was dealt with and the buffers `q` are left.
  left-GoesOn :
      (n : ℕ) (c : Conn u ssl W) (q : List Buffer) (s : Bool)
      → c.canceling ≡ false
      → All IsValid q
      → All HasBytes q
      → complete_front u ssl W n (uncounted c)
        ≡ ok (record (uncounted c) { send_queue = q; is_sending = s })
      → s ≡ is_queued q
      → texts q ≡ after_ack n (texts c.send_queue)
      → GoesOn n c (on_send u ssl W (some n) c)
  unfolding on_send
  left-GoesOn n c [] s going valid bytes e sending left =
      let c₁ : Conn u ssl W = record (uncounted c) { send_queue = []; is_sending = s } in
      (
        c₁,
        rw (e, send_internal-nothing c₁ refl, close-stays c₁ going) refl,
        record { going = going; sending = sending; valid = tt; some_left = tt },
        refl,
        left,
        sym (append-nil c.requests),
      )
  left-GoesOn n c (b ∷ bs) s going valid bytes e sending left =
      let c₁ : Conn u ssl W = record (uncounted c) { send_queue = b ∷ bs; is_sending = s } in
      (
        asked c₁ b,
        rw (e, send_internal-asked c₁ b bs refl valid.0, close-stays (asked c₁ b) going) refl,
        record { going = going; sending = sending; valid = valid; some_left = bytes },
        refl,
        left,
        append_assoc c.requests (send_data c.fd (contents b) ∷ []) (submitted ∷ []),
      )

  -- The front buffer was sent as a whole.
  popped :
      (n : ℕ) (c : Conn u ssl W) (front front' : Buffer) (rest : List Buffer)
      → c.is_sending ≡ true
      → c.send_queue ≡ front ∷ rest
      → on_read front n ≡ ok front'
      → get_stored_size front' ≡ ok 0
      → complete_front u ssl W n (uncounted c)
        ≡ ok (record (uncounted c) { send_queue = rest; is_sending = is_queued rest })
  unfolding complete_front
  popped n c front front' [] sending e o l = rw (e, o, l) refl
  popped n c front front' (next ∷ more) sending e o l =
      rw (e, o, l)
        (ap (λ s. ok (record (uncounted c) { send_queue = next ∷ more; is_sending = s })) sending)

  -- A part of it was sent.
  shortened :
      (n k : ℕ) (c : Conn u ssl W) (front front' : Buffer) (rest : List Buffer)
      → c.is_sending ≡ true
      → c.send_queue ≡ front ∷ rest
      → on_read front n ≡ ok front'
      → get_stored_size front' ≡ ok k
      → (k == 0) ≡ false
      → complete_front u ssl W n (uncounted c)
        ≡ ok (record (uncounted c) { send_queue = front' ∷ rest; is_sending = true })
  unfolding complete_front
  shortened n k c front front' rest sending e o l more =
      rw (e, o, l, more)
        (ap (λ s. ok (record (uncounted c) { send_queue = front' ∷ rest; is_sending = s })) sending)

  pub on_send-GoesOn :
      (n : ℕ) (c : Conn u ssl W) (front : Buffer) (rest : List Buffer)
      → IsSending c
      → c.send_queue ≡ front ∷ rest
      → 1 ≤ n
      → n ≤ length (contents front)
      → GoesOn n c (on_send u ssl W (some n) c)
  on_send-GoesOn n c front rest i e some_sent h =
      let valid : All IsValid (front ∷ rest) = subst (All IsValid) e i.valid in
      let bytes : All HasBytes (front ∷ rest) = subst (All HasBytes) e i.some_left in
      let sending : c.is_sending ≡ true = i.sending ∙ ap is_queued e in
      let (front', o, v', left, low) =
        on_read-Drops {b = front} n valid.0 (omega (arith, h, length-contents valid.0)) in
      let size : length (contents front') ≡ length (contents front) - n =
        ap length left ∙ length-drop n (contents front) in
      elim (Bool-cases (n == length (contents front))) [
        | inl whole ↦
            left-GoesOn n c rest (is_queued rest) i.going valid.1 bytes.1
              (popped n c front front' rest sending e o (
                get_stored_size_lem v'
                ∙ ap ok (
                    omega (
                      arith,
                      length-contents v',
                      size,
                      (==_iff n (length (contents front))).0 whole,
                    ))))
              refl (sym (ap (λ q. after_ack n (texts q)) e ∙ first whole))
        | inr part ↦
            left-GoesOn n c (front' ∷ rest) true i.going (v', valid.1)
              ((λ none_left. never part size h (ap length none_left)), bytes.1)
              (shortened n (front'.write_pos - front'.read_pos) c front front' rest sending e o
                (get_stored_size_lem v') (still part size (length-contents v') h))
              refl
              (ap (λ xs. xs ∷ texts rest) left
                ∙ sym (ap (λ q. after_ack n (texts q)) e ∙ second part))
      ]
    where
      first :
          (n == length (contents front)) ≡ true → after_ack n (texts (front ∷ rest)) ≡ texts rest
      first h = rw h refl

      second :
          (n == length (contents front)) ≡ false
          → after_ack n (texts (front ∷ rest)) ≡ drop n (contents front) ∷ texts rest
      second h = rw h refl

      still : {a b k : ℕ} → (n == b) ≡ false → a ≡ b - n → a ≡ k → n ≤ b → (k == 0) ≡ false
      still p q r h = ground arith

      never : {a b : ℕ} → (n == b) ≡ false → a ≡ b - n → n ≤ b → a ≡ 0 → ⊥
      never p q h z = ground arith
