-- ===== src/Buffer/Laws.antt =====
-- Buffer.cpp, the methods that store bytes: what they do to the contents, and that the buffer stays
-- well formed.
use yuwibo_server.Prelude.{
  ℕ, ◌+◌, ◌-◌, ◌≤◌, ◌<◌, ◌^◌, ◌≡◌, refl, ap, ◌∙◌, false, Bool-cases, inl, inr, List, [], ◌++◌,
  append-nil, arith, some, ltb, tests, le→leb, length, take, drop, replicate, length-append,
  length-take, length-drop, length-replicate, take-append_le, drop-append_le, take-append_ge,
  drop-take, take_all, Outcome, ok,
}
use yuwibo_server.Buffer.{Buffer, write_at, read_at, resize_vector, write, append, contents}

-- The positions are in order and inside the vector, the vector is far from 2 ^ 64 bytes, and
-- nobody holds the mutex.
pub record IsValid (b : Buffer) : Type 0 where
  pub ordered : b.read_pos ≤ b.write_pos
  pub inside : b.write_pos ≤ length b.bytes
  pub small : length b.bytes < 2 ^ 62
  pub free : b.locked ≡ false

pub length-contents : {b : Buffer} → IsValid b → length (contents b) ≡ b.write_pos - b.read_pos
length-contents {b} v = omega (
  arith,
  length-take (b.write_pos - b.read_pos) (drop b.read_pos b.bytes),
  length-drop b.read_pos b.bytes,
)

pub length-write_at :
    (bytes src : List ℕ) (pos : ℕ)
    → pos + length src ≤ length bytes
    → length (take pos bytes ++ (src ++ drop (pos + length src) bytes)) ≡ length bytes
length-write_at bytes src pos h = omega (
  arith,
  length-append (take pos bytes) (src ++ drop (pos + length src) bytes),
  length-append src (drop (pos + length src) bytes),
  length-take pos bytes,
  length-drop (pos + length src) bytes,
)

-- Reading back from `r` what was there before `pos`, and then what was written at `pos`.
pub slice-write_at :
    (bytes src : List ℕ) (r pos : ℕ)
    → r ≤ pos
    → pos + length src ≤ length bytes
    → take
        (pos + length src - r)
        (drop r (take pos bytes ++ (src ++ drop (pos + length src) bytes)))
      ≡ take (pos - r) (drop r bytes) ++ src
slice-write_at bytes src r pos hr h =
    rw (drop-append_le r (take pos bytes) rest (omega (arith, length-take pos bytes)), drop-take)
      (take-append_ge (pos + length src - r) (length src) (take (pos - r) (drop r bytes)) rest
          (omega (arith, length-take (pos - r) (drop r bytes), length-drop r bytes))
        ∙ ap (◌++◌ (take (pos - r) (drop r bytes))) keep)
  where
    rest : List ℕ
    rest = src ++ drop (pos + length src) bytes

    keep : take (length src) rest ≡ src
    keep = take-append_le (length src) src _ (omega arith) ∙ take_all (length src) src (omega arith)

abbrev pub put : List ℕ → ℕ → List ℕ → List ℕ
put bytes pos src = take pos bytes ++ (src ++ drop (pos + length src) bytes)

pub write_at-put :
    (bytes src : List ℕ) (pos : ℕ)
    → pos + length src ≤ length bytes
    → write_at bytes pos src ≡ some (put bytes pos src)
unfolding write_at
write_at-put bytes src pos h = rw (le→leb _ _ h)

pub read_at-slice :
    (bytes : List ℕ) (pos len : ℕ)
    → pos + len ≤ length bytes
    → read_at bytes pos len ≡ some (take len (drop pos bytes))
unfolding read_at
read_at-slice bytes pos len h = rw (le→leb _ _ h)

resize_vector-grow :
    (bytes : List ℕ) (n : ℕ)
    → length bytes ≤ n
    → resize_vector bytes n ≡ bytes ++ replicate (n - length bytes) 0
unfolding resize_vector
resize_vector-grow bytes n h = rw (take_all n bytes h)

-- The buffer after `src` was copied behind the stored bytes, in a vector that may have grown.
abbrev stored : Buffer → List ℕ → List ℕ → Buffer
stored b tail src = record {
  bytes = put (b.bytes ++ tail) b.write_pos src;
  write_pos = b.write_pos + length src;
  read_pos = b.read_pos;
  locked = false;
}

-- The buffer holds `src` behind what it held, and reading goes on where it was.
abbrev pub Stores : Buffer → List ℕ → Outcome Buffer → Type 0
Stores b src out =
    (b' : Buffer) × (out ≡ ok b')
    × IsValid b'
    × (contents b' ≡ contents b ++ src)
    × (b'.read_pos ≡ b.read_pos)
    × (length b.bytes ≤ length b'.bytes)
    × (b'.write_pos ≡ b.write_pos + length src)

stored-Stores :
    {b : Buffer} (tail src : List ℕ) {out : Outcome Buffer}
    → IsValid b
    → b.write_pos + length src ≤ length b.bytes + length tail
    → length b.bytes + length tail < 2 ^ 62
    → out ≡ ok (stored b tail src)
    → Stores b src out
stored-Stores {b} tail src v fits small e = (
  stored b tail src,
  e,
  record {
    ordered = omega arith;
    inside = omega (arith, whole, length-append b.bytes tail);
    small = omega (arith, whole, length-append b.bytes tail);
    free = refl;
  },
  slice-write_at (b.bytes ++ tail) src b.read_pos b.write_pos v.ordered inside
      ∙ ap (λ xs. xs ++ src) before,
  refl,
  omega (arith, whole, length-append b.bytes tail),
  refl,
)
  where
    inside : b.write_pos + length src ≤ length (b.bytes ++ tail)
    inside = omega (arith, length-append b.bytes tail)

    whole : length (put (b.bytes ++ tail) b.write_pos src) ≡ length (b.bytes ++ tail)
    whole = length-write_at (b.bytes ++ tail) src b.write_pos inside

    before :
        take (b.write_pos - b.read_pos) (drop b.read_pos (b.bytes ++ tail))
        ≡ take (b.write_pos - b.read_pos) (drop b.read_pos b.bytes)
    before =
        ap (take (b.write_pos - b.read_pos)) (drop-append_le b.read_pos b.bytes tail (omega arith))
        ∙ take-append_le (b.write_pos - b.read_pos) (drop b.read_pos b.bytes) tail
            (omega (arith, length-drop b.read_pos b.bytes))

pub write-Stores :
    {b : Buffer} (src : List ℕ)
    → IsValid b
    → b.write_pos + length src < 2 ^ 62
    → Stores b src (write b src)
unfolding write
write-Stores {b} src v h = elim (Bool-cases (ltb (length b.bytes) (b.write_pos + length src))) [
  | inl grow ↦
      stored-Stores (replicate missing 0) src v
        (omega (tests, grow, length-replicate {A = ℕ} missing 0))
        (omega (tests, grow, length-replicate {A = ℕ} missing 0))
        (ground (
          arith,
          resize_vector-grow b.bytes (b.write_pos + length src),
          length-append b.bytes (replicate missing 0),
          length-replicate {A = ℕ} missing 0,
          write_at-put (b.bytes ++ replicate missing 0) src b.write_pos,
        ))
  | inr fits ↦
      stored-Stores [] src v (omega (tests, fits)) (omega arith)
        (ground (arith, append-nil b.bytes, write_at-put b.bytes src b.write_pos))
]
  where
    missing : ℕ
    missing = b.write_pos + length src - length b.bytes

-- Append puts the unread bytes of another valid buffer behind this one's, growing the vector where
-- needed, as long as the sizes stay below 2 ^ 62 bytes; the buffer stays valid and keeps its read
-- position.
pub append-Stores :
    {b other : Buffer}
    → IsValid b
    → IsValid other
    → b.write_pos + other.write_pos < 2 ^ 62
    → Stores b (contents other) (append b other)
unfolding append
append-Stores {b} {other} v w h = elim (Bool-cases (ltb (length b.bytes) stop)) [
  | inl grow ↦
      stored-Stores (replicate missing 0) src v
        (omega (tests, grow, size, length-replicate {A = ℕ} missing 0))
        (omega (tests, grow, size, length-replicate {A = ℕ} missing 0))
        (ground (
          arith,
          size,
          taken,
          resize_vector-grow b.bytes stop,
          length-append b.bytes (replicate missing 0),
          length-replicate {A = ℕ} missing 0,
          write_at-put (b.bytes ++ replicate missing 0) src b.write_pos,
        ))
  | inr fits ↦
      stored-Stores [] src v (omega (tests, fits, size)) (omega arith)
        (ground (arith, size, taken, append-nil b.bytes, write_at-put b.bytes src b.write_pos))
]
  where
    src : List ℕ
    src = contents other

    stop : ℕ
    stop = b.write_pos + (other.write_pos - other.read_pos)

    missing : ℕ
    missing = stop - length b.bytes

    size : length src ≡ other.write_pos - other.read_pos
    size = length-contents w

    taken : read_at other.bytes other.read_pos (other.write_pos - other.read_pos) ≡ some src
    taken =
        read_at-slice other.bytes other.read_pos (other.write_pos - other.read_pos) (omega arith)
