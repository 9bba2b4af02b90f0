-- ===== src/Examples/Arrivals.antt =====
-- A packet that arrives in two pieces, for a handler that answers with the packet.
use yuwibo_server.Prelude.{
  ℕ, ◌≡◌, refl, sym, ap, ◌∙◌, true, false, List, [], ◌∷◌, arith, length, take-append_le, take_all,
  ◌==◌, ==_iff, Bool-cases, inl, inr, if◌then◌else◌, Outcome, ok,
}
use yuwibo_server.Buffer.{Buffer, new}
use yuwibo_server.Framing.Process.{IsLocal}
use yuwibo_server.Framing.Build.{new-IsValid}
use yuwibo_server.Session.{Conn, send_message, flush_tls_write_buffer, send_internal}
use yuwibo_server.Session.Blind.{send_message-IsBlind}
use yuwibo_server.Tls.{get_secret_text, drain}
use yuwibo_server.Framing.{build_packet}
use yuwibo_server.Buffer
use yuwibo_server.Buffer.{
  get_stored_size, on_write, get_remaining_size, get_write_buffer, get_read_buffer,
}
use yuwibo_server.Framing.Process.{act_all}
use yuwibo_server.Session.View.{view, IsBlind}
use yuwibo_server.Session.Delivery.{Waits}
use yuwibo_server.Session.Delivery.Streams.{IsChunk, IsOffer, Receives, receive_all_lem}
use yuwibo_server.Examples.Wire.{ring, pipe, conn, echo}

abbrev Client : Type 0
Client = Conn ring pipe (Unit {0})

abbrev client : Client
client = conn [] false

abbrev reply : List ℕ → Client → Outcome Client
reply body c = send_message ring pipe (Unit {0}) 1 body c

reply-IsLocal : IsLocal echo reply
reply-IsLocal body slack c has =
    ap (λ xs. reply xs c)
      (take-append_le (length body) body slack (omega arith)
        ∙ take_all (length body) body (omega arith))

reply-IsBlind : IsBlind ring pipe (Unit {0}) reply
reply-IsBlind = send_message-IsBlind ring pipe (Unit {0}) (λ body. (1, body))

abbrev result_or : Client → Outcome Client → Client
result_or c (ok c') = c'
result_or c other = c

-- The client after its answer to the packet `0 ∷ 11 ∷ []`.
abbrev answered : Client
answered = result_or client (reply (0 ∷ 11 ∷ []) (view ring pipe (Unit {0}) client))

reply_lem : act_all reply ((0 ∷ 11 ∷ []) ∷ []) (view ring pipe (Unit {0}) client) ≡ ok answered
unfolding send_message flush_tls_write_buffer send_internal get_secret_text build_packet drain
    Buffer.write get_stored_size on_write get_remaining_size get_write_buffer get_read_buffer new
    Buffer.write_at Buffer.read_at
reply_lem = refl

abbrev first_free : Client → ℕ
first_free c = if c.pending == 0 then 1 else 0

bool_clash : false ≡ true → ⊥
bool_clash e = cc

first_free-IsOffer : IsOffer ring pipe (Unit {0}) first_free
first_free-IsOffer c two = elim (Bool-cases (c.pending == 0)) [
  | inl zero_waits ↦
      rw zero_waits ((λ e. omega (arith, (==_iff c.pending 0).0 zero_waits)), omega arith)
  | inr other ↦ rw other ((λ e. bool_clash (sym other ∙ ap (λ n. n == 0) (sym e))), omega arith)
]

abbrev piece : ℕ → ℕ → Buffer
piece x y = record { bytes = x ∷ y ∷ []; write_pos = 2; read_pos = 0; locked = false }

piece-IsChunk : (x y : ℕ) → IsChunk (piece x y)
piece-IsChunk x y = record {
  valid = record { ordered = omega arith; inside = omega arith; small = omega arith; free = refl };
  unread = refl;
}

abbrev long_piece : Buffer
long_piece = record { bytes = 0 ∷ 2 ∷ 0 ∷ 11 ∷ []; write_pos = 4; read_pos = 0; locked = false }

long_piece-IsChunk : IsChunk long_piece
long_piece-IsChunk = record {
  valid = record { ordered = omega arith; inside = omega arith; small = omega arith; free = refl };
  unread = refl;
}

client-Waits : Waits ring pipe (Unit {0}) client []
client-Waits = record {
  valid = (new-IsValid 16 (omega arith), (new-IsValid 16 (omega arith), tt));
  few = omega arith;
  held_bytes = inl (refl, refl);
}

receive_all_lem_example :
    Receives ring pipe (Unit {0}) echo first_free (piece 0 2 ∷ piece 0 11 ∷ []) client answered []
receive_all_lem_example =
    receive_all_lem ring pipe (Unit {0}) echo first_free reply reply-IsLocal reply-IsBlind
      first_free-IsOffer (piece 0 2 ∷ piece 0 11 ∷ []) client answered [] ((0 ∷ 11 ∷ []) ∷ []) []
      client-Waits tt (omega arith) (piece-IsChunk 0 2, (piece-IsChunk 0 11, tt)) (omega arith)
      (omega arith, (omega arith, (omega arith, (omega arith, tt)))) refl (omega arith, tt)
      (omega arith, tt) tt reply_lem
