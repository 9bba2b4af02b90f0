-- ===== src/Session/Draining.antt =====
-- Session::OnSend over a whole run of completions: the queued bytes leave in order, and the queue ends
-- empty.
pub mod Acks
pub mod Completions
use mathlib.Core.Path.{ap₂}
use yuwibo_server.Prelude.{
  ℕ, ◌+◌, ◌-◌, ◌^◌, ◌%◌, ◌≤◌, ◌<◌, ◌≡◌, ◌≢◌, refl, sym, ap, ◌∙◌, subst, Bool, true, false, List, [],
  ◌∷◌, ◌++◌, some, arith, length, take, drop, length-drop, All, append_assoc, append-nil, ◌==◌,
  ==_iff, concat, drop-append_ge, take_all, take-append-drop, if◌then◌else◌, Bool-cases, inl, inr,
  Outcome, ok, ◌>>=◌, u16_mod, map,
}
use yuwibo_server.Buffer.{Buffer, contents, on_read, get_stored_size}
use yuwibo_server.Buffer.Laws.{IsValid, length-contents}
use yuwibo_server.Buffer.Whole.{read_stored}
use yuwibo_server.Buffer.Consuming.{on_read-Drops, get_stored_size_lem, get_read_buffer_lem}
use yuwibo_server.Tls.{Ssl}
use yuwibo_server.Session.{
  Uring, Request, send_data, submitted, Conn, close, send_internal, complete_front, on_send,
}
use yuwibo_server.Session.Invariant.{is_queued}
use yuwibo_server.Session.Draining.Acks.{
  after_ack, AcksFit, next_send, HasBytes, texts, sent, due_sends, no_texts, first_of, one_more,
  all_later,
}
use yuwibo_server.Session.Draining.Completions.{IsSending, on_send-GoesOn}

module _ (u : Uring) (ssl : Ssl) (W : Type 0) (free : (q : u.Ring) → (u.get_sqe q).0 ≡ true) where
  -- OnSend for each of these results.
  abbrev pub on_sends : List ℕ → Conn u ssl W → Outcome (Conn u ssl W)
  on_sends [] c = ok c
  on_sends (n ∷ ns) c = on_send u ssl W (some n) c >>= on_sends ns

  -- The run returns; the bytes that were sent and those still queued are the queued ones, in order;
  -- each send asked for is the one that is due; and if all bytes were sent, the queue is empty and
  -- the session is not sending.
  abbrev pub Drains : List ℕ → Conn u ssl W → Outcome (Conn u ssl W) → Type 0
  Drains ns c out =
      (c' : Conn u ssl W) × (out ≡ ok c')
      × (sent ns (texts c.send_queue) ++ concat (texts c'.send_queue) ≡ concat (texts c.send_queue))
      × (c'.requests ≡ c.requests ++ due_sends c.fd ns (texts c.send_queue))
      × IsSending u ssl W free c'
      × (sent ns (texts c.send_queue) ≡ concat (texts c.send_queue)
          → (c'.send_queue ≡ []) × (c'.is_sending ≡ false))

  -- For a session that is not being stopped, whose ring always has a free entry, that is sending
  -- exactly while something is queued, in valid buffers that are not empty, let sends complete one
  -- after the other, each of one byte at least and of no more than the buffer at the front holds.
  -- OnSend returns for each of them. The bytes sent, each time the first ones of the front buffer,
  -- followed by those still queued, are the queued bytes in their order; each completion asks for
  -- a send of all that is left in the front buffer then, and for nothing if the queue is empty;
  -- and if all queued bytes were sent, the queue is empty and the session is not sending.
  pub on_sends-Drains :
      (ns : List ℕ) (c : Conn u ssl W)
      → IsSending u ssl W free c
      → AcksFit ns (texts c.send_queue)
      → Drains ns c (on_sends ns c)
  on_sends-Drains [] c i fits = (
    c,
    refl,
    refl,
    sym (append-nil c.requests),
    i,
    λ all.
        let empty : c.send_queue ≡ [] = no_texts c.send_queue i.some_left (sym all) in
        (empty, i.sending ∙ ap is_queued empty),
  )
  on_sends-Drains (n ∷ ns) c i (some_sent, x, more, waiting, h, fits) =
      let (front, rest, queue, is_x) = first_of c.send_queue x more waiting in
      let (c₁, sends, i₁, same_fd, left, asks) =
        on_send-GoesOn u ssl W free n c front rest i queue some_sent
          (omega (arith, ap length is_x, h)) in
      let (c₂, runs, split, asks₂, i₂, ends) =
        on_sends-Drains ns c₁ i₁ (subst (AcksFit ns) (sym left) fits) in
      (
        c₂,
        rw sends runs,
        one_more n ns x more (texts c₂.send_queue) waiting h left split,
        asks₂
            ∙ ap₂ (λ rs qs. rs ++ qs) (asks ∙ ap (λ t. c.requests ++ next_send c.fd t) left)
                (ap₂ (λ k t. due_sends k ns t) same_fd left)
            ∙ append_assoc c.requests (next_send c.fd (after_ack n (texts c.send_queue)))
                (due_sends c.fd ns (after_ack n (texts c.send_queue))),
        i₂,
        λ all. ends (all_later n ns x more waiting h left all),
      )
