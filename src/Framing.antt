-- ===== src/Framing.antt =====
-- Session.cpp: the wire format. `Session::Send` puts a length and a message identifier, both in
-- network order, before the serialized message; `Session::ProcessPacket` cuts the received bytes
-- into packets and keeps an unfinished one for later.
pub mod Stream
pub mod Build
pub mod Process
use yuwibo_server.Prelude.{
  ℕ, zero, suc, ◌+◌, ◌*◌, ◌/◌, ◌%◌, Bool, true, false, List, [], ◌∷◌, length, drop, ltb, leb,
  if◌then◌else◌, Outcome, ok, fault, spins, ◌>>=◌, ◌>>◌, or_fault, add_size, u16_mod,
}
use yuwibo_server.Buffer.{
  Buffer, new, write, get_read_buffer, get_stored_size, preserve_from, reset, read_at,
}

-- The bytes in memory of `htons(n)`, and `ntohs` of two bytes read from memory.
abbrev pub htons_bytes : ℕ → List ℕ
htons_bytes n = (n / 256 % 256) ∷ (n % 256) ∷ []

abbrev pub ntohs_bytes : List ℕ → ℕ
ntohs_bytes [] = 0
ntohs_bytes (x ∷ []) = 0
ntohs_bytes (hi ∷ lo ∷ rest) = hi * 256 + lo

-- The buffer that `Send` hands to `SSL_write`: both numbers are `uint16_t`.
unfoldable pub build_packet : ℕ → List ℕ → Outcome Buffer
build_packet message_id serialized = do
  let packet_len = (2 + length serialized) % u16_mod
  b ← write (new (2 + 2 + length serialized)) (htons_bytes packet_len)
  b ← write b (htons_bytes message_id)
  write b serialized

-- What follows the loop of `ProcessPacket`, given the final `offset`.
unfoldable pub finish {ℓ} : {S : Type ℓ} → Buffer → ℕ → ℕ × S → Outcome (Bool × Buffer × S)
finish b total (offset, s) =
    if ltb offset total
    then (do b' ← preserve_from b offset; ok (false, b', s))
    else (do b' ← reset b; ok (true, b', s))

-- `handle memory len s` is `HandlePacket(data, len)`: `memory` is what stands from `data` to the end
-- of the vector, and `s` is all the state that a handler changes.
module _ {ℓ} {S : Type ℓ} (handle : List ℕ → ℕ → S → Outcome S) where
  -- The `while` loop; `memory` stands from `data` on. The result is the final `offset`.
  unfoldable pub process_loop : ℕ → List ℕ → ℕ → ℕ → S → Outcome (ℕ × S)
  process_loop zero memory total offset s = spins
  process_loop (suc fuel) memory total offset s =
      if leb (add_size offset 2) total
      then (do
        two ← or_fault (read_at memory offset 2)
        let packet_len = ntohs_bytes two
        if ltb total (add_size (add_size offset 2) packet_len) then ok (offset, s) else (do
          s' ← handle (drop (offset + 2) memory) packet_len s
          process_loop fuel memory total (add_size offset (2 + packet_len)) s'))
      else ok (offset, s)

  -- A round takes two bytes at least, so one round more than there are bytes is enough. The result
  -- is what the function returns, whether all bytes were used, with the buffer after it.
  unfoldable pub process_packet : Buffer → S → Outcome (Bool × Buffer × S)
  process_packet b s = do
    pos ← get_read_buffer b
    total ← get_stored_size b
    r ← process_loop (suc total) (drop pos b.bytes) total 0 s
    finish b total r
