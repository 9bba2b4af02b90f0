-- ===== src/Framing/Process.antt =====
-- `Session::ProcessPacket` against the description of the stream: it handles exactly the complete
-- packets, in order, and leaves exactly the unfinished rest in the buffer.
use mathlib.Core.Path.{ap₂}
use yuwibo_server.Prelude.{
  ℕ, zero, suc, ◌+◌, ◌-◌, ◌^◌, ◌≤◌, ◌<◌, ◌≡◌, sym, ap, ◌∙◌, Bool, true, false, List, [], ◌∷◌, ◌++◌,
  arith, some, length, take, drop, All, append_assoc, length-append, length-drop, drop-drop,
  drop-append_ge, take-append-drop, lt→ltb, le→ltb, Outcome, ok, ◌>>=◌, >>=-regroup,
}
use yuwibo_server.Buffer.{Buffer, contents, read_at}
use yuwibo_server.Buffer.Laws.{IsValid, length-contents, read_at-slice}
use yuwibo_server.Buffer.Consuming.{
  get_read_buffer_lem, get_stored_size_lem, reset-Holds, preserve_from-Holds,
}
use yuwibo_server.Framing.{htons_bytes, process_loop, finish, process_packet}
use yuwibo_server.Framing.Stream.{encode, encode_all, Fits, IsByte, IsPartial}

module _ {ℓ} {S : Type ℓ} (handle : List ℕ → ℕ → S → Outcome S) where
  -- One round of the loop at a complete packet.
  round :
      (fuel : ℕ) (memory body more : List ℕ) (total offset : ℕ) (s : S)
      → drop offset memory ≡ encode body ++ more
      → Fits body
      → offset + 2 + length body ≤ total
      → total < 2 ^ 62
      → process_loop handle (suc fuel) memory total offset s ≡ (
          handle (body ++ more) (length body) s
          >>= process_loop handle fuel memory total (offset + 2 + length body))
  unfolding process_loop
  round fuel memory body more total offset s e fits inside small = ground (arith, two, rest)
    where
      room : offset + 2 ≤ length memory
      room = omega (arith, ap length e, length-drop offset memory)

      two : read_at memory offset 2 ≡ some (htons_bytes (length body))
      two = read_at-slice memory offset 2 room ∙ ap (λ xs. some (take 2 xs)) e

      rest : drop (offset + 2) memory ≡ body ++ more
      rest = sym (drop-drop 2 offset memory) ∙ ap (drop 2) e

  -- The loop stops at an unfinished packet.
  halt :
      (fuel : ℕ) (memory rest slack : List ℕ) (total offset : ℕ) (s : S)
      → drop offset memory ≡ rest ++ slack
      → IsPartial rest
      → All IsByte rest
      → total ≡ offset + length rest
      → total < 2 ^ 62
      → process_loop handle (suc fuel) memory total offset s ≡ ok (offset, s)
  unfolding process_loop
  halt fuel memory [] slack total offset s e p b t small = ground arith
  halt fuel memory (x ∷ []) slack total offset s e p b t small = ground arith
  halt fuel memory (hi ∷ lo ∷ r) slack total offset s e p b t small = ground (arith, two)
    where
      room : offset + 2 ≤ length memory
      room = omega (arith, ap length e, length-drop offset memory)

      two : read_at memory offset 2 ≡ some (hi ∷ lo ∷ [])
      two = read_at-slice memory offset 2 room ∙ ap (λ xs. some (take 2 xs)) e

-- What a list of packets does, one behind the other.
abbrev pub act_all {ℓ} : {S : Type ℓ} → (List ℕ → S → Outcome S) → List (List ℕ) → S → Outcome S
act_all act [] s = ok s
act_all act (body ∷ bodies) s = act body s >>= act_all act bodies

-- The body holds a message identifier at least.
abbrev pub HasId : List ℕ → Type 0
HasId body = 2 ≤ length body

-- A handler that sees the packet's own bytes only, if there are two of them at least.
abbrev pub IsLocal {ℓ} :
    {S : Type ℓ} → (List ℕ → ℕ → S → Outcome S) → (List ℕ → S → Outcome S) → Type ℓ
IsLocal {S} handle act =
    (body slack : List ℕ) (s : S) → HasId body → handle (body ++ slack) (length body) s ≡ act body s

module _ {ℓ} {S : Type ℓ} (handle : List ℕ → ℕ → S → Outcome S) (act : List ℕ → S → Outcome S)
    (local : IsLocal handle act) where
  loop_lem :
      (bodies : List (List ℕ)) (fuel : ℕ) (memory rest slack : List ℕ) (total offset : ℕ) (s : S)
      → drop offset memory ≡ encode_all bodies ++ (rest ++ slack)
      → total ≡ offset + length (encode_all bodies) + length rest
      → length (encode_all bodies) < fuel
      → All Fits bodies
      → All HasId bodies
      → IsPartial rest
      → All IsByte rest
      → total < 2 ^ 62
      → process_loop handle fuel memory total offset s
        ≡ (act_all act bodies s >>= λ s'. ok (offset + length (encode_all bodies), s'))
  loop_lem [] zero memory rest slack total offset s e t f fits ids p b small = absurd (omega arith)
  loop_lem [] (suc fuel) memory rest slack total offset s e t f fits ids p b small =
      halt handle fuel memory rest slack total offset s e p b (omega arith) small
      ∙ ap (λ n. ok (n, s)) (omega arith)
  loop_lem (body ∷ bodies) zero memory rest slack total offset s e t f fits ids p b small =
      absurd (omega arith)
  loop_lem (body ∷ bodies) (suc fuel) memory rest slack total offset s e t f fits ids p b small =
      round handle fuel memory body _ total offset s
        (e ∙ append_assoc (encode body) (encode_all bodies) (rest ++ slack)) fits.0
        (omega (arith, size)) small
      ∙ ap (λ m. m >>= process_loop handle fuel memory total (offset + 2 + length body))
          (local body _ s ids.0)
      ∙ >>=-regroup (act body s) _ (act_all act bodies) _ (λ s'.
        loop_lem bodies fuel memory rest slack total (offset + 2 + length body) s' past
          (omega (arith, size)) (omega (arith, size)) fits.1 ids.1 p b small
        ∙ ap (λ n. act_all act bodies s' >>= λ s''. ok (n, s'')) (omega (arith, size)))
    where
      size : length (encode_all (body ∷ bodies)) ≡ 2 + length body + length (encode_all bodies)
      size = omega (arith, length-append body (encode_all bodies))

      past : drop (offset + 2 + length body) memory ≡ encode_all bodies ++ (rest ++ slack)
      past =
          ap (λ n. drop n memory) regroup
          ∙ sym (drop-drop (2 + length body) offset memory)
          ∙ ap (drop (2 + length body))
              (e ∙ append_assoc (encode body) (encode_all bodies) (rest ++ slack))
          ∙ drop-append_ge (2 + length body) 0 (encode body) _ (omega arith)
        where
          regroup : offset + 2 + length body ≡ offset + (2 + length body)
          regroup = omega arith

abbrev pub is_empty {ℓ} : {A : Type ℓ} → List A → Bool
is_empty [] = true
is_empty (x ∷ xs) = false

-- After the loop went through `used`, the buffer is left with the rest.
finish_lem {ℓ} :
    {S : Type ℓ} {b : Buffer} (used rest : List ℕ)
    → IsValid b
    → b.read_pos ≡ 0
    → contents b ≡ used ++ rest
    → (b' : Buffer) × ((s : S) → finish b b.write_pos (length used, s) ≡ ok (is_empty rest, b', s))
      × IsValid b'
      × (contents b' ≡ rest)
      × (b'.read_pos ≡ 0)
unfolding finish
finish_lem {b} used [] v r c =
    let (b', e, v', c', r') = reset-Holds {b = b} v in
    (b', λ s. rw (le→ltb _ _ whole, e), v', c', r')
  where
    whole : b.write_pos ≤ length used
    whole = omega (arith, length-contents v, ap length c, length-append used [])
finish_lem {b} used (x ∷ xs) v r c =
    let (b', e, v', c', r') = preserve_from-Holds {b = b} (length used) v r (omega (arith, part)) in
    (b', λ s. rw (lt→ltb _ _ part, e), v', c' ∙ left, r')
  where
    part : length used < b.write_pos
    part = omega (arith, length-contents v, ap length c, length-append used (x ∷ xs))

    left : drop (length used) (contents b) ≡ x ∷ xs
    left = ap (drop (length used)) c ∙ drop-append_ge (length used) 0 used _ (omega arith)

module _ {ℓ} {S : Type ℓ} (handle : List ℕ → ℕ → S → Outcome S) (act : List ℕ → S → Outcome S)
    (local : IsLocal handle act) where
  -- For a handler that looks only at the packet's own bytes, on a valid buffer with nothing read
  -- that holds complete packets (each with an identifier) followed by an unfinished one,
  -- ProcessPacket makes the packets' calls in order, leaves exactly the unfinished one at the
  -- front of the buffer, and returns whether nothing is left; it faults or blocks only if a call
  -- does, and its loop ends.
  pub process_packet_lem :
      {b : Buffer} (bodies : List (List ℕ)) (rest : List ℕ)
      → IsValid b
      → b.read_pos ≡ 0
      → contents b ≡ encode_all bodies ++ rest
      → All Fits bodies
      → All HasId bodies
      → IsPartial rest
      → All IsByte rest
      → (b' : Buffer) × ((s : S)
          → process_packet handle b s ≡ (act_all act bodies s >>= λ s'. ok (is_empty rest, b', s')))
        × IsValid b'
        × (contents b' ≡ rest)
        × (b'.read_pos ≡ 0)
  unfolding process_packet
  process_packet_lem {b} bodies rest v r c fits ids p bytes =
      let (b', e, v', c', r') = finish_lem {S = S} {b = b} (encode_all bodies) rest v r c in
      (
        b',
        λ s.
            rw (get_read_buffer_lem v, get_stored_size_lem v)
              (ap (λ m. m >>= finish b (b.write_pos - b.read_pos)) (walked s)
                ∙ sym (
                    >>=-regroup (act_all act bodies s) _ _ _ (λ s'.
                      sym (e s') ∙ ap (λ n. finish b n (length (encode_all bodies), s')) whole))),
        v',
        c',
        r',
      )
    where
      whole : b.write_pos ≡ b.write_pos - b.read_pos
      whole = omega arith

      slack : List ℕ
      slack = drop b.write_pos b.bytes

      memory : drop b.read_pos b.bytes ≡ encode_all bodies ++ (rest ++ slack)
      memory =
          sym (take-append-drop (b.write_pos - b.read_pos) (drop b.read_pos b.bytes))
          ∙ ap₂ ◌++◌ c (
              drop-drop (b.write_pos - b.read_pos) b.read_pos b.bytes
              ∙ ap (λ n. drop n b.bytes) (omega arith))
          ∙ append_assoc (encode_all bodies) rest slack

      size : b.write_pos - b.read_pos ≡ length (encode_all bodies) + length rest
      size = omega (arith, length-contents v, ap length c, length-append (encode_all bodies) rest)

      walked :
          (s : S)
          → process_loop handle
              (suc (b.write_pos - b.read_pos))
              (drop b.read_pos b.bytes)
              (b.write_pos - b.read_pos)
              0
              s
            ≡ (act_all act bodies s >>= λ s'. ok (length (encode_all bodies), s'))
      walked s =
          loop_lem handle act local bodies _ (drop b.read_pos b.bytes) rest slack _ 0 s memory
            (omega (arith, size)) (omega (arith, size)) fits ids p bytes (omega arith)
          ∙ ap (λ n. act_all act bodies s >>= λ s'. ok (n, s')) (omega arith)
