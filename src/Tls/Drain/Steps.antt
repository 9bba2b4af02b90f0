-- ===== src/Tls/Drain/Steps.antt =====
-- What one turn of the loops of TLS.cpp does to the buffer and to the bytes that are left.
use yuwibo_server.Prelude.{
  ℕ, ◌+◌, ◌-◌, ◌≤◌, ◌≡◌, refl, sym, ap, ◌∙◌, false, List, [], ◌++◌, take-append_ge, drop-append_ge,
  append_assoc, arith, length, take, drop, some, take-append-drop, ok, sub_size, to_int, le→leb,
}
use yuwibo_server.Buffer.{
  Buffer, contents, write_at, get_write_buffer, get_remaining_size, on_write,
}
use yuwibo_server.Buffer.Laws.{IsValid, length-write_at, slice-write_at}

pub get_remaining_size_lem :
    (b : Buffer)
    → IsValid b
    → get_remaining_size b ≡ ok (to_int (sub_size (length b.bytes) b.write_pos))
unfolding get_remaining_size
get_remaining_size_lem b v = rw v.free refl

pub get_write_buffer_lem : (b : Buffer) → IsValid b → get_write_buffer b ≡ ok b.write_pos
unfolding get_write_buffer
get_write_buffer_lem b v = rw v.free refl

-- Bytes put behind the stored ones of a valid buffer, where they fit.
pub put_behind :
    (b : Buffer) (src : List ℕ)
    → IsValid b
    → b.read_pos ≡ 0
    → b.write_pos + length src ≤ length b.bytes
    → (stored : List ℕ) × (b' : Buffer) × (write_at b.bytes b.write_pos src ≡ some stored)
      × (on_write (record b { bytes = stored }) (length src) ≡ ok b')
      × IsValid b'
      × (b'.read_pos ≡ 0)
      × (contents b' ≡ contents b ++ src)
      × (length b'.bytes ≡ length b.bytes)
      × (b'.write_pos ≡ b.write_pos + length src)
unfolding write_at on_write
put_behind b src v r h = (
  stored,
  record { bytes = stored; write_pos = b.write_pos + length src; read_pos = 0; locked = false },
  rw (le→leb _ _ h) refl,
  ground arith,
  record {
    ordered = omega arith;
    inside = omega (arith, same);
    small = omega (arith, same);
    free = refl;
  },
  refl,
  slice-write_at b.bytes src 0 b.write_pos (omega arith) h ∙ rw r refl,
  same,
  refl,
)
  where
    stored : List ℕ
    stored = take b.write_pos b.bytes ++ (src ++ drop (b.write_pos + length src) b.bytes)

    same : length stored ≡ length b.bytes
    same = length-write_at b.bytes src b.write_pos h

pub drop_nothing : (n : ℕ) (xs : List ℕ) → take n xs ≡ [] → drop n xs ≡ xs
drop_nothing n xs h = sym (ap (λ ys. ys ++ drop n xs) h) ∙ take-append-drop n xs

-- Two reads one behind the other.
pub moved_contents :
    (room : ℕ) (xs xs' xs'' src p p' : List ℕ)
    → length src ≤ room
    → src ++ p' ≡ p
    → xs' ≡ xs ++ src
    → xs'' ≡ xs' ++ take (room - length src) p'
    → xs'' ≡ xs ++ take room p
moved_contents room xs xs' xs'' src p p' h e c c' =
    c'
    ∙ ap (λ ys. ys ++ take (room - length src) p') c
    ∙ append_assoc xs src (take (room - length src) p')
    ∙ ap (λ ys. xs ++ ys)
        (sym (take-append_ge room (room - length src) src p' (omega arith)) ∙ ap (take room) e)

pub moved_pending :
    (room : ℕ) (src p p' p'' : List ℕ)
    → length src ≤ room
    → src ++ p' ≡ p
    → p'' ≡ drop (room - length src) p'
    → p'' ≡ drop room p
moved_pending room src p p' p'' h e e' =
    e' ∙ sym (drop-append_ge room (room - length src) src p' (omega arith)) ∙ ap (drop room) e
