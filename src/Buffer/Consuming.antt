-- ===== src/Buffer/Consuming.antt =====
-- Buffer.cpp, the methods that read, drop or count in bytes, and `Resize`.
use yuwibo_server.Prelude.{
  ℕ, ◌+◌, ◌-◌, ◌≤◌, ◌<◌, ◌^◌, ◌≡◌, refl, sym, ap, ◌∙◌, false, Bool-cases, inl, inr, List, [], arith,
  ltb, leb, leb→le, leb→lt, ltb→lt, ltb→le, take-take, length, take, drop, length-take, length-drop,
  take-append_le, drop-take, drop-drop, take_all, drop_all, Outcome, ok, deadlock,
}
use yuwibo_server.Buffer.{
  Buffer, read, get_stored_size, get_read_buffer, on_write, on_read, preserve_from, reset, resize,
  contents,
}
use yuwibo_server.Buffer.Laws.{
  IsValid, length-contents, length-write_at, put, write_at-put, read_at-slice,
}

-- The buffer is valid and holds `xs`, with nothing read.
abbrev pub Holds : List ℕ → Outcome Buffer → Type 0
Holds xs out = (b' : Buffer) × (out ≡ ok b') × IsValid b' × (contents b' ≡ xs) × (b'.read_pos ≡ 0)

pub reset-Holds : {b : Buffer} → IsValid b → Holds [] (reset b)
unfolding reset
reset-Holds {b} v = (
  record b { read_pos = 0; write_pos = 0; locked = false },
  ground arith,
  record { ordered = omega arith; inside = omega arith; small = v.small; free = refl },
  refl,
  refl,
)

-- On a valid buffer of which nothing is read, PreserveFrom drops the bytes before an offset that
-- is not behind the stored bytes, and moves the rest to the front.
pub preserve_from-Holds :
    {b : Buffer} (offset : ℕ)
    → IsValid b
    → b.read_pos ≡ 0
    → offset ≤ b.write_pos
    → Holds (drop offset (contents b)) (preserve_from b offset)
unfolding preserve_from
preserve_from-Holds {b} offset v r h = (
  record b {
    bytes = put b.bytes 0 kept;
    read_pos = 0;
    write_pos = b.write_pos - offset;
    locked = false;
  },
  ground (
    arith,
    read_at-slice b.bytes offset (b.write_pos - offset) (omega arith),
    write_at-put b.bytes kept 0,
    size,
  ),
  record {
    ordered = omega arith;
    inside = omega (arith, length-write_at b.bytes kept 0 (omega (arith, size)));
    small = omega (arith, length-write_at b.bytes kept 0 (omega (arith, size)));
    free = refl;
  },
  take-append_le (b.write_pos - offset - 0) kept _ (omega (arith, size))
      ∙ take_all (b.write_pos - offset - 0) kept (omega (arith, size))
      ∙ sym remainder,
  refl,
)
  where
    kept : List ℕ
    kept = take (b.write_pos - offset) (drop offset b.bytes)

    size : length kept ≡ b.write_pos - offset
    size = omega (
      arith,
      length-take (b.write_pos - offset) (drop offset b.bytes),
      length-drop offset b.bytes,
    )

    remainder : drop offset (contents b) ≡ kept
    remainder = ground (
      arith,
      drop-take offset (b.write_pos - b.read_pos) (drop b.read_pos b.bytes),
      drop-drop offset b.read_pos b.bytes,
    )

-- Reading moves the stored bytes' front: what is left is the contents without the first `n`.
abbrev pub Drops : Buffer → ℕ → Outcome Buffer → Type 0
Drops b n out =
    (b' : Buffer) × (out ≡ ok b')
    × IsValid b'
    × (contents b' ≡ drop n (contents b))
    × (b'.write_pos ≤ b.write_pos)

advanced-Drops :
    {b : Buffer} (n : ℕ) {out : Outcome Buffer}
    → IsValid b
    → b.read_pos + n < b.write_pos
    → out ≡ ok (record b { read_pos = b.read_pos + n; locked = false })
    → Drops b n out
advanced-Drops {b} n v h e = (
  record b { read_pos = b.read_pos + n; locked = false },
  e,
  record { ordered = omega arith; inside = v.inside; small = v.small; free = refl },
  ground (
    arith,
    drop-take n (b.write_pos - b.read_pos) (drop b.read_pos b.bytes),
    drop-drop n b.read_pos b.bytes,
  ),
  omega arith,
)

emptied-Drops :
    {b : Buffer} (n : ℕ) {out : Outcome Buffer}
    → IsValid b
    → b.write_pos ≤ b.read_pos + n
    → out ≡ ok (record b { read_pos = 0; write_pos = 0; locked = false })
    → Drops b n out
emptied-Drops {b} n v h e = (
  record b { read_pos = 0; write_pos = 0; locked = false },
  e,
  record { ordered = omega arith; inside = omega arith; small = v.small; free = refl },
  sym (drop_all n (contents b) (omega (arith, length-contents v))),
  omega arith,
)

-- `OnRead` drops the bytes consumed, and all of them if told more than there are.
pub on_read-Drops : {b : Buffer} (n : ℕ) → IsValid b → n < 2 ^ 62 → Drops b n (on_read b n)
unfolding on_read
on_read-Drops {b} n v h = elim (Bool-cases (leb b.write_pos (b.read_pos + n))) [
  | inl all ↦ emptied-Drops n v (leb→le _ _ all) (ground arith)
  | inr part ↦ advanced-Drops n v (leb→lt _ _ part) (ground arith)
]

-- `Read` returns the oldest bytes, at most `len` of them, and drops exactly those.
pub read_lem :
    {b : Buffer} (len : ℕ)
    → IsValid b
    → (b' : Buffer) × (read b len ≡ ok (take len (contents b), b'))
      × IsValid b'
      × (contents b' ≡ drop len (contents b))
      × (b'.write_pos ≤ b.write_pos)
unfolding read
read_lem {b} len v = elim (Bool-cases (ltb (b.read_pos + len) b.write_pos)) [
  | inl part ↦
      let d = advanced-Drops len v (ltb→lt _ _ part) refl in
      (
        d.0,
        ground (
          arith,
          d.1,
          read_at-slice b.bytes b.read_pos len,
          take-take len (b.write_pos - b.read_pos) (drop b.read_pos b.bytes),
        ),
        d.2,
        d.3,
        d.4,
      )
  | inr all ↦
      let d = emptied-Drops len v (ltb→le _ _ all) refl in
      (
        d.0,
        ground (
          arith,
          d.1,
          read_at-slice b.bytes b.read_pos (b.write_pos - b.read_pos),
          take_all len (contents b),
          length-contents v,
        ),
        d.2,
        d.3,
        d.4,
      )
]

-- What the kernel or OpenSSL put behind the stored bytes is counted in; reading starts over.
pub on_write-IsValid :
    {b : Buffer} (n : ℕ)
    → IsValid b
    → b.write_pos + n ≤ length b.bytes
    → (b' : Buffer) × (on_write b n ≡ ok b')
      × IsValid b'
      × (contents b' ≡ take (b.write_pos + n) b.bytes)
unfolding on_write
on_write-IsValid {b} n v h = (
  record b { write_pos = b.write_pos + n; read_pos = 0; locked = false },
  ground arith,
  record { ordered = omega arith; inside = omega arith; small = v.small; free = refl },
  ap (λ k. take k b.bytes) (omega arith),
)

-- Resize never returns: it locks the mutex that it holds.
pub resize_deadlocks : (b : Buffer) (size : ℕ) → resize b size ≡ deadlock
unfolding resize
resize_deadlocks b size = ground arith

-- The getters of a buffer that nobody has locked.
pub get_stored_size_lem :
    {b : Buffer} → IsValid b → get_stored_size b ≡ ok (b.write_pos - b.read_pos)
unfolding get_stored_size
get_stored_size_lem v = ground arith

pub get_read_buffer_lem : {b : Buffer} → IsValid b → get_read_buffer b ≡ ok b.read_pos
unfolding get_read_buffer
get_read_buffer_lem v = ground arith
