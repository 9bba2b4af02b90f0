-- ===== src/Examples/Receptions.antt =====
-- Over a connection that does not encrypt: a reception of one packet, for a handler that notes the
-- packets, a message that is sent, and a reception during a handshake.
use mathlib.Core.Path.{ap₂}
use yuwibo_server.Tls.{Ssl, error_want_read}
use yuwibo_server.Session.Shaking.{IsShaker, Answers, on_recv-Answers}
use yuwibo_server.Prelude.{
  true, ℕ, false, ◌≡◌, ◌≢◌, ◌≤◌, refl, sym, ap, ◌∙◌, false, List, [], ◌∷◌, ◌++◌, some, replicate,
  arith, length, length-replicate, take, take_all, take-append_le, inl, Outcome, ok, ok-injective,
  minus_one,
}
use yuwibo_server.Buffer.{Buffer}
use yuwibo_server.Buffer.Laws.{IsValid}
use yuwibo_server.Framing.Process.{IsLocal}
use yuwibo_server.Session.{Conn, on_recv}
use yuwibo_server.Session.View.{view, IsBlind}
use yuwibo_server.Session.Delivery.{Waits}
use yuwibo_server.Session.Reception.{IsTunnel}
use yuwibo_server.Session.Handling.{Handles, on_recv-Handles}
use yuwibo_server.Session.Posting.{IsSealer, Posts, send_message-Posts}
use yuwibo_server.Session.{send_message}
use yuwibo_server.Examples.Wire.{pipe_queue, conn, conn-IsSound, ring, pipe, text_queue}

-- The packets so far.
abbrev Noting : Type 0
Noting = Conn ring pipe (List (List ℕ))

-- A receive buffer of the usual size into which the kernel has put four bytes.
abbrev arrived : Buffer
arrived = record {
  bytes = 0 ∷ 2 ∷ 0 ∷ 7 ∷ replicate 4092 0;
  write_pos = 0;
  read_pos = 0;
  locked = false;
}

abbrev receiving : Noting
receiving = record {
  fd = 9;
  tls = ([], []);
  handshaking = false;
  pending = minus_one;
  send_queue = [];
  send_count = 0;
  canceling = false;
  is_sending = false;
  closing = false;
  ring = 8;
  requests = [];
  pool = arrived ∷ [];
  lobby = [];
}

arrived_size : length arrived.bytes ≡ 4096
arrived_size = omega (arith, length-replicate {A = ℕ} 4092 0)

arrived-IsValid : IsValid arrived
arrived-IsValid = record {
  ordered = omega arith;
  inside = omega arith;
  small = omega (arith, arrived_size);
  free = refl;
}

-- A connection that does not encrypt.
abbrev open_tunnel : IsTunnel pipe
open_tunnel = record {
  queue = text_queue;
  sink = record {
    fed = λ st. st.0;
    some_taken = λ bytes st some_bytes. length_pos bytes some_bytes;
    bounded = λ bytes st. omega arith;
    takes = λ bytes st. ap (λ xs. st.0 ++ xs) (sym (take_all (length bytes) bytes (omega arith)));
  };
  quiet = λ n st. refl;
  plain = λ bytes. bytes;
  seen = λ st. 0;
  opens = λ st. refl;
  unseen = λ bytes st. refl;
}
  where
    length_pos : (xs : List ℕ) → xs ≢ [] → 1 ≤ length xs
    length_pos [] h = absurd (h refl)
    length_pos (x ∷ xs) h = omega arith

abbrev note : List ℕ → Noting → Outcome Noting
note body c = ok (record c { lobby = body ∷ c.lobby })

abbrev note_call : List ℕ → ℕ → Noting → Outcome Noting
note_call memory len c = note (take len memory) c

note-IsLocal : IsLocal note_call note
note-IsLocal body slack c has =
    ap (λ xs. note xs c)
      (take-append_le (length body) body slack (omega arith)
        ∙ take_all (length body) body (omega arith))

note-IsBlind : IsBlind ring pipe (List (List ℕ)) note
note-IsBlind body c v e = (record c { lobby = body ∷ c.lobby }, refl, ok-injective e, refl, refl)

receiving-Waits : Waits ring pipe (List (List ℕ)) receiving []
receiving-Waits = record {
  valid = (arrived-IsValid, tt);
  few = omega arith;
  held_bytes = inl (refl, refl);
}

-- What the session is after it.
abbrev noted : List ℕ × List ℕ → Noting
noted st = record (view ring pipe (List (List ℕ)) receiving) { tls = st; lobby = (0 ∷ 7 ∷ []) ∷ [] }

on_recv-Handles_example :
    Handles ring pipe
      (List (List ℕ))
      note_call
      open_tunnel
      (0 ∷ 2 ∷ 0 ∷ 7 ∷ [])
      noted
      []
      (on_recv ring pipe (List (List ℕ)) note_call (some 4) 0 receiving)
on_recv-Handles_example =
    on_recv-Handles ring pipe (List (List ℕ)) note_call open_tunnel note note-IsLocal note-IsBlind 0
      4 receiving noted arrived [] (0 ∷ 2 ∷ 0 ∷ 7 ∷ []) ((0 ∷ 7 ∷ []) ∷ []) [] refl (λ e. cc) refl
      receiving-Waits apart refl refl (omega (arith, arrived_size)) (omega (arith, arrived_size))
      (omega arith) refl (omega arith, tt) (omega arith, tt) tt tt (λ st e. refl)
  where
    apart : 0 ≢ minus_one
    apart e = absurd (omega arith)

abbrev open_sealer : IsSealer pipe
open_sealer = record {
  queue = pipe_queue;
  sealed = λ st bytes. bytes;
  written = λ bytes st some_bytes. refl;
  adds = λ bytes st. refl;
}

send_message-Posts_example :
    Posts ring pipe
      (Unit {0})
      pipe_queue
      (0 ∷ 3 ∷ 0 ∷ 1 ∷ 5 ∷ [])
      (conn [] false)
      (send_message ring pipe (Unit {0}) 1 (5 ∷ []) (conn [] false))
send_message-Posts_example =
    send_message-Posts ring pipe (Unit {0}) open_sealer 1 (5 ∷ []) (conn [] false)
      (0 ∷ 3 ∷ 0 ∷ 1 ∷ 5 ∷ []) conn-IsSound (omega arith) refl (λ e. cc)

-- A handshake that answers every reception with one byte more than came, and wants more.
abbrev asking : Ssl
asking = record pipe { do_handshake = λ st. (false, error_want_read, (st.0, st.1 ++ (22 ∷ st.0))) }

abbrev shaker : IsShaker asking
shaker = record {
  queue = pipe_queue;
  sink = open_tunnel.sink;
  Rest = List ℕ;
  rest = λ st. st.1;
  untouched = λ bytes st. refl;
}

abbrev greeted : Conn ring asking (List (List ℕ))
greeted = record receiving { handshaking = true }

on_recv-Answers_example :
    Answers ring asking
      (List (List ℕ))
      note_call
      pipe_queue
      0
      (length arrived.bytes)
      false
      (22 ∷ 0 ∷ 2 ∷ 0 ∷ 7 ∷ [])
      greeted
      (on_recv ring asking (List (List ℕ)) note_call (some 4) 0 greeted)
on_recv-Answers_example =
    on_recv-Answers ring asking (List (List ℕ)) note_call shaker 0 4 greeted arrived false
      (22 ∷ 0 ∷ 2 ∷ 0 ∷ 7 ∷ []) (record { sending = refl; closed = omega arith }) refl refl
      arrived-IsValid refl (omega (arith, arrived_size))
      (λ st fed same. (refl, (λ e. refl), ap₂ (λ xs ys. xs ++ (22 ∷ ys)) same fed)) (λ e. cc)
