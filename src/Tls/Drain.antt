-- ===== src/Tls/Drain.antt =====
-- `TLS::GetSecretText` over a memory BIO: it moves the oldest pending bytes, as many as fit.
pub mod Steps
use yuwibo_server.Prelude.{
  ℕ, zero, suc, ◌+◌, ◌-◌, ◌≤◌, ◌<◌, ◌^◌, ◌≡◌, refl, sym, ap, ◌∙◌, false, List, [], ◌∷◌, ◌++◌,
  take-append_ge, drop-append_ge, append_assoc, append-nil, arith, length, take, drop, some,
  take-append-drop, length-replicate, ◌==◌, if◌then◌else◌, Bool-cases, inl, inr, Outcome, ok, ◌>>=◌,
  or_fault, sub_size, to_int, ==_iff, le→leb,
}
use yuwibo_server.Buffer.{
  Buffer, new, contents, write_at, get_write_buffer, get_remaining_size, on_write,
}
use yuwibo_server.Buffer.Laws.{IsValid, length-contents, length-write_at, slice-write_at}
use yuwibo_server.Buffer.Consuming.{get_stored_size_lem}
use yuwibo_server.Framing.Build.{new-IsValid}
use yuwibo_server.Tls.Drain.Steps.{
  get_remaining_size_lem, get_write_buffer_lem, put_behind, drop_nothing, moved_contents,
  moved_pending,
}
use yuwibo_server.Tls.{Ssl, drain, get_secret_text}

-- Of a reader whose source is a queue of bytes: a read takes some of the oldest, no more than its
-- size, and none only if there are none that it could take.
pub record IsQueue {S E : Type 0} (reader : ℕ → S → List ℕ × E × S) : Type 0 where
  pub pending : S → List ℕ
  pub parts : (n : ℕ) (st : S) → (reader n st).0 ++ pending (reader n st).2 ≡ pending st
  pub bounded : (n : ℕ) (st : S) → length (reader n st).0 ≤ n
  pub ends : (n : ℕ) (st : S) → (reader n st).0 ≡ [] → take n (pending st) ≡ []

module _ {S E : Type 0} (reader : ℕ → S → List ℕ × E × S) (q : IsQueue reader) where
  open q use {pending}

  abbrev pub Moves : Buffer → S → Outcome (E × Buffer × S) → Type 0
  Moves b st out =
      (e : E) × (b' : Buffer) × (st' : S) × (out ≡ ok (e, b', st'))
      × IsValid b'
      × (b'.read_pos ≡ 0)
      × (contents b' ≡ contents b ++ take (length b.bytes - b.write_pos) (pending st))
      × (pending st' ≡ drop (length b.bytes - b.write_pos) (pending st))

  -- The loop's body, where `room` bytes are free.
  abbrev body : ℕ → Buffer → E → S → ℕ → List ℕ → Outcome (E × Buffer × S)
  body fuel b err st room [] = ok ((reader room st).1, b, (reader room st).2)
  body fuel b err st room (x ∷ xs) = do
    stored ← or_fault (write_at b.bytes b.write_pos (x ∷ xs))
    b' ← on_write (record b { bytes = stored }) (suc (length xs))
    drain reader fuel b' err (reader room st).2

  abbrev turn : ℕ → Buffer → E → S → ℕ → Outcome (E × Buffer × S)
  turn fuel b err st room =
      if room == 0 then ok (err, b, st) else body fuel b err st room (reader room st).0

  drain_step :
      (fuel : ℕ) (b : Buffer) (err : E) (st : S)
      → IsValid b
      → length b.bytes < 2 ^ 31
      → drain reader (suc fuel) b err st ≡ turn fuel b err st (length b.bytes - b.write_pos)
  unfolding drain
  drain_step fuel b err st v small =
      rw (get_remaining_size_lem b v, get_write_buffer_lem b v) refl ∙ ap (turn fuel b err st) room
    where
      room : to_int (sub_size (length b.bytes) b.write_pos) ≡ length b.bytes - b.write_pos
      room = omega arith

  -- A turn that reads `xs`, given the turns behind it.
  body-Moves :
      (fuel : ℕ) (b : Buffer) (err : E) (st : S) (xs : List ℕ)
      → ((b' : Buffer) (st' : S)
          → IsValid b'
          → b'.read_pos ≡ 0
          → length b'.bytes < 2 ^ 31
          → length b'.bytes - b'.write_pos < fuel
          → Moves b' st' (drain reader fuel b' err st'))
      → IsValid b
      → b.read_pos ≡ 0
      → length b.bytes < 2 ^ 31
      → length b.bytes - b.write_pos < suc fuel
      → xs ++ pending (reader (length b.bytes - b.write_pos) st).2 ≡ pending st
      → length xs ≤ length b.bytes - b.write_pos
      → (xs ≡ [] → take (length b.bytes - b.write_pos) (pending st) ≡ [])
      → Moves b st (body fuel b err st (length b.bytes - b.write_pos) xs)
  body-Moves fuel b err st [] later v r small f parts bounded ends =
      let none_left = ends refl in
      (
        (reader (length b.bytes - b.write_pos) st).1,
        b,
        (reader (length b.bytes - b.write_pos) st).2,
        refl,
        v,
        r,
        sym (append-nil (contents b)) ∙ ap (λ ys. contents b ++ ys) (sym none_left),
        parts ∙ sym (drop_nothing (length b.bytes - b.write_pos) (pending st) none_left),
      )
  body-Moves fuel b err st (x ∷ xs) later v r small f parts bounded ends =
      let (stored, b', w, o, v', r', c, l, p) =
        put_behind b (x ∷ xs) v r (omega (arith, bounded)) in
      let (e, b'', st'', eq, v'', r'', c'', p'') =
        later b' (reader (length b.bytes - b.write_pos) st).2 v' r' (omega (arith, l))
          (omega (arith, l, p)) in
      let left : length b'.bytes - b'.write_pos ≡ length b.bytes - b.write_pos - suc (length xs) =
        omega (arith, l, p) in
      (
        e,
        b'',
        st'',
        rw (w, o) eq,
        v'',
        r'',
        moved_contents (length b.bytes - b.write_pos) (contents b) (contents b') (contents b'')
            (x ∷ xs) (pending st) (pending (reader (length b.bytes - b.write_pos) st).2) bounded
            parts c
            (c''
              ∙ ap
                  (λ k.
                    contents b' ++ take k (pending (reader (length b.bytes - b.write_pos) st).2))
                  left),
        moved_pending (length b.bytes - b.write_pos) (x ∷ xs) (pending st)
            (pending (reader (length b.bytes - b.write_pos) st).2) (pending st'') bounded parts
            (p'' ∙ ap (λ k. drop k (pending (reader (length b.bytes - b.write_pos) st).2)) left),
      )

  -- From a valid buffer of which nothing was read, with fuel for one turn more than there are free
  -- bytes, the loop ends; it moved the oldest pending bytes behind the stored ones, as many as there
  -- was room for, and left the others pending.
  pub drain-Moves :
      (fuel : ℕ) (b : Buffer) (err : E) (st : S)
      → IsValid b
      → b.read_pos ≡ 0
      → length b.bytes < 2 ^ 31
      → length b.bytes - b.write_pos < fuel
      → Moves b st (drain reader fuel b err st)
  drain-Moves zero b err st v r small f = absurd (omega arith)
  drain-Moves (suc fuel) b err st v r small f =
      rw (drain_step fuel b err st v small) (elim (Bool-cases (length b.bytes - b.write_pos == 0)) [
        | inl full ↦
            let none_left : length b.bytes - b.write_pos ≡ 0 = (==_iff _ 0).0 full in
            rw none_left (err, b, st, refl, v, r, sym (append-nil (contents b)), refl)
        | inr free ↦ rw free (
            body-Moves fuel b err st _ (λ b' st'. drain-Moves fuel b' err st') v r small f
              (q.parts (length b.bytes - b.write_pos) st)
              (q.bounded (length b.bytes - b.write_pos) st)
              (q.ends (length b.bytes - b.write_pos) st))
      ])

module _ (ssl : Ssl) where
  abbrev pub bio_reader : ℕ → ssl.State → List ℕ × Unit {0} × ssl.State
  bio_reader n st = ((ssl.bio_read n st).0, tt, (ssl.bio_read n st).1)

  -- Over a BIO that hands out its bytes in order, GetSecretText into a new buffer of fewer than 2
  -- ^ 31 bytes returns; the buffer then holds the oldest pending bytes, as many as fit, the result
  -- is their number, and the others are still pending.
  pub get_secret_text_lem :
      (q : IsQueue bio_reader) (size : ℕ) (st : ssl.State)
      → size < 2 ^ 31
      → (n : ℕ) × (b : Buffer) × (st' : ssl.State) × (get_secret_text ssl (new size) st
          ≡ ok (n, b, st'))
        × IsValid b
        × (contents b ≡ take size (q.pending st))
        × (n ≡ length (take size (q.pending st)))
        × (q.pending st' ≡ drop size (q.pending st))
  unfolding get_secret_text new
  get_secret_text_lem q size st h =
      let (e, b, st', eq, v, r, c, p) =
        drain-Moves bio_reader q (suc (length (new size).bytes)) (new size) tt st
          (new-IsValid size (omega arith)) refl (omega (arith, length-replicate {A = ℕ} size 0))
          (omega arith) in
      (
        length (contents b),
        b,
        st',
        rw (eq, get_stored_size_lem v, length-contents v) refl,
        v,
        held b c,
        ap length (held b c),
        p ∙ ap (λ k. drop k (q.pending st)) room,
      )
    where
      room : length (new size).bytes - (new size).write_pos ≡ size
      room = omega (arith, length-replicate {A = ℕ} size 0)

      held :
          (b : Buffer)
          → contents b
            ≡ contents (new size)
              ++ take (length (new size).bytes - (new size).write_pos) (q.pending st)
          → contents b ≡ take size (q.pending st)
      held b c = c ∙ ap (λ k. take k (q.pending st)) room
