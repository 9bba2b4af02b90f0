-- ===== src/Buffer.antt =====
-- Buffer.h, Buffer.cpp, RecvBuffer.h, RecvBuffer.cpp and SendBuffer.h: the byte buffer that all
-- traffic goes through. A method takes the mutex for its whole body; a `memcpy` outside the vector
-- is a fault.
pub mod Laws
pub mod Whole
pub mod Consuming
pub mod Fifo
use yuwibo_server.Prelude.{
  ℕ, ◌+◌, ◌-◌, ◌≤◌, ◌≡◌, Bool, true, false, Option, none, some, List, [], ◌∷◌, ◌++◌, ltb, leb, ◌==◌,
  if◌then◌else◌, length, take, drop, replicate, Outcome, ok, fault, deadlock, ◌>>=◌, ◌>>◌, or_fault,
  add_size, sub_size, to_int,
}

pub record Buffer : Type 0 where
  pub bytes : List ℕ
  pub write_pos : ℕ
  pub read_pos : ℕ
  -- Whether the thread at hand holds `_mutex`.
  pub locked : Bool

abbrev pub default_size : ℕ
default_size = 4096

unfoldable pub new : ℕ → Buffer
new size = record { bytes = replicate size 0; write_pos = 0; read_pos = 0; locked = false }

-- `std::lock_guard<std::mutex> lock(_mutex)` round a method's body. The mutex is not recursive.
unfoldable pub with_lock : Buffer → (Buffer → Outcome Buffer) → Outcome Buffer
with_lock b body =
    if b.locked
    then deadlock
    else (do b' ← body (record b { locked = true }); ok (record b' { locked = false }))

-- The same round a `const` method.
unfoldable pub with_lock_const {ℓ} : {A : Type ℓ} → Buffer → A → Outcome A
with_lock_const b result = if b.locked then deadlock else ok result

-- `memcpy` to and from the vector's storage, from index `pos` on.
unfoldable pub write_at : List ℕ → ℕ → List ℕ → Option (List ℕ)
write_at bytes pos src =
    if leb (pos + length src) (length bytes)
    then some (take pos bytes ++ (src ++ drop (pos + length src) bytes))
    else none

unfoldable pub read_at : List ℕ → ℕ → ℕ → Option (List ℕ)
read_at bytes pos len =
    if leb (pos + len) (length bytes) then some (take len (drop pos bytes)) else none

-- `std::vector::resize`: new elements are zero.
unfoldable pub resize_vector : List ℕ → ℕ → List ℕ
resize_vector bytes size = take size bytes ++ replicate (size - length bytes) 0

unfoldable pub write : Buffer → List ℕ → Outcome Buffer
unfolding with_lock
write b src = with_lock b λ b. do
  let len = length src
  let space = sub_size (length b.bytes) b.write_pos
  let bytes = if ltb space len then resize_vector b.bytes (add_size b.write_pos len) else b.bytes
  bytes' ← or_fault (write_at bytes b.write_pos src)
  ok (record b { bytes = bytes'; write_pos = add_size b.write_pos len })

-- Where `Read` leaves the positions.
advance : Buffer → ℕ → Buffer
advance b pos =
    if pos == b.write_pos
    then record b { read_pos = 0; write_pos = 0 }
    else record b { read_pos = pos }

-- What `Read` copies to `dest` (its length is the result), and the buffer after it.
unfoldable pub read : Buffer → ℕ → Outcome (List ℕ × Buffer)
unfolding advance
read b len = if b.locked then deadlock else (do
  let stored = sub_size b.write_pos b.read_pos
  let to_read = if ltb len stored then len else stored
  out ← or_fault (read_at b.bytes b.read_pos to_read)
  ok (out, advance b (add_size b.read_pos to_read)))

-- Each of the three getters returns a pointer into the vector: the model returns its index.
unfoldable pub get_buffer : Buffer → Outcome ℕ
unfolding with_lock_const
get_buffer b = with_lock_const b 0

unfoldable pub get_write_buffer : Buffer → Outcome ℕ
unfolding with_lock_const
get_write_buffer b = with_lock_const b b.write_pos

unfoldable pub get_read_buffer : Buffer → Outcome ℕ
unfolding with_lock_const
get_read_buffer b = with_lock_const b b.read_pos

unfoldable pub get_buffer_size : Buffer → Outcome ℕ
unfolding with_lock_const
get_buffer_size b = with_lock_const b (length b.bytes)

unfoldable pub get_stored_size : Buffer → Outcome ℕ
unfolding with_lock_const
get_stored_size b = with_lock_const b (sub_size b.write_pos b.read_pos)

unfoldable pub get_remaining_size : Buffer → Outcome ℕ
unfolding with_lock_const
get_remaining_size b = with_lock_const b (to_int (sub_size (length b.bytes) b.write_pos))

unfoldable pub on_write : Buffer → ℕ → Outcome Buffer
unfolding with_lock
on_write b n = with_lock b λ b. ok (record b { write_pos = add_size b.write_pos n; read_pos = 0 })

unfoldable pub on_read : Buffer → ℕ → Outcome Buffer
unfolding with_lock
on_read b n = with_lock b λ b.
    let pos = add_size b.read_pos n in
    if leb b.write_pos pos
    then ok (record b { read_pos = 0; write_pos = 0 })
    else ok (record b { read_pos = pos })

-- `other` is another buffer than `b`; it is read under its own mutex.
unfoldable pub append : Buffer → Buffer → Outcome Buffer
unfolding with_lock get_stored_size get_read_buffer
append b other = with_lock b λ b. do
  size ← get_stored_size other
  from ← get_read_buffer other
  let stop = add_size b.write_pos size
  let bytes = if ltb (length b.bytes) stop then resize_vector b.bytes stop else b.bytes
  src ← or_fault (read_at other.bytes from size)
  bytes' ← or_fault (write_at bytes b.write_pos src)
  ok (record b { bytes = bytes'; write_pos = add_size b.write_pos size })

unfoldable pub preserve_from : Buffer → ℕ → Outcome Buffer
unfolding with_lock
preserve_from b offset = with_lock b λ b. do
  let remaining = sub_size b.write_pos offset
  src ← or_fault (read_at b.bytes offset remaining)
  bytes' ← or_fault (write_at b.bytes 0 src)
  ok (record b { bytes = bytes'; read_pos = 0; write_pos = remaining })

unfoldable pub reset : Buffer → Outcome Buffer
unfolding with_lock
reset b = with_lock b λ b. ok (record b { read_pos = 0; write_pos = 0 })

-- `Reset` is called with the mutex held.
unfoldable pub resize : Buffer → ℕ → Outcome Buffer
unfolding with_lock reset
resize b size = with_lock b λ b. reset (record b { bytes = resize_vector b.bytes size })

-- The bytes written and not yet read, oldest first.
abbrev pub contents : Buffer → List ℕ
contents b = take (b.write_pos - b.read_pos) (drop b.read_pos b.bytes)

-- A pooled receive buffer with the identifiers that it is registered under.
pub record RecvBuffer : Type 0 where
  pub buffer : Buffer
  pub group_id : ℕ
  pub buf_id : ℕ

unfoldable pub new_recv : ℕ → ℕ → ℕ → RecvBuffer
unfolding new
new_recv group id size = record { buffer = new size; group_id = group; buf_id = id }

unfoldable pub set_buffer_id : RecvBuffer → ℕ → ℕ → RecvBuffer
set_buffer_id r group id = record r { group_id = group; buf_id = id }
