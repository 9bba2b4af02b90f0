-- ===== src/Examples/Wire.antt =====
-- Runs of a session over a TLS layer that passes bytes on unchanged, on a ring with eight entries.
use yuwibo_server.Prelude.{
  take-append-drop, ℕ, ◌-◌, ◌≡◌, refl, Bool, true, false, List, [], ◌∷◌, ◌++◌, none, some, arith,
  length, take, drop, ltb, ap, sym, take_all, length-take, ◌==◌, if◌then◌else◌, Outcome, ok, Always,
  minus_one,
}
use yuwibo_server.Buffer.{Buffer, new, contents, on_read, get_stored_size}
use yuwibo_server.Buffer.Laws.{IsValid}
use yuwibo_server.Tls.{Ssl, error_none, error_want_read, get_secret_text}
use yuwibo_server.Tls.Drain.{IsQueue, bio_reader, get_secret_text_lem}
use yuwibo_server.Session.{
  Uring, Conn, send_data, submitted, recv_multishot, cancel_recv, close_fd, start_recv, start_close,
  close, on_send, send_message, send_internal, complete_front,
}
use yuwibo_server.Session.Invariant.{IsSound}
use yuwibo_server.Session.Invariant.Queue.{send_message-IsSound}
use yuwibo_server.Session.Runs.{
  Call, starts, completes, cancels, closes_now, perform_all, perform_all-IsSound,
}
use yuwibo_server.Session.Sending.{send_internal_lem}
use yuwibo_server.Packets.{PacketHandler}
use yuwibo_server.Packets.Handlers.{Handler}
use yuwibo_server.Packets.Dispatch.{Parser, handle_packet}
use yuwibo_server.Packets.Registry.{init_lem}
use yuwibo_server.Packets.Locality.{ReadsWithin, handle_packet-local}
use yuwibo_server.Examples.Samples.{memory, in_order, world_with}

abbrev pub ring : Uring
ring = record {
  Ring = ℕ;
  get_sqe = λ free. if free == 0 then (false, 0) else (true, free - 1);
  submit = λ free. 8;
}

-- What was received, and what is to be sent.
abbrev pub pipe : Ssl
pipe = record {
  State = List ℕ × List ℕ;
  write = λ bytes st. (true, error_none, (st.0, st.1 ++ bytes));
  do_handshake = λ st. (true, error_none, st);
  read = λ n st. (take n st.0, error_want_read, (drop n st.0, st.1));
  bio_write = λ bytes st. (length bytes, (st.0 ++ bytes, st.1));
  bio_read = λ n st. (take n st.1, (st.0, drop n st.1));
}

abbrev pub pipe_queue : IsQueue (bio_reader pipe)
pipe_queue = record {
  pending = λ st. st.1;
  parts = λ n st. take-append-drop n st.1;
  bounded = λ n st. omega (arith, length-take n st.1);
  ends = λ n st e. e;
}

abbrev pub text_queue : IsQueue pipe.read
text_queue = record {
  pending = λ st. st.0;
  parts = λ n st. take-append-drop n st.0;
  bounded = λ n st. omega (arith, length-take n st.0);
  ends = λ n st e. e;
}

abbrev front : Buffer
front = record { bytes = 5 ∷ 6 ∷ 7 ∷ 0 ∷ []; write_pos = 3; read_pos = 0; locked = false }

front-IsValid : IsValid front
front-IsValid = record {
  ordered = omega arith;
  inside = omega arith;
  small = omega arith;
  free = refl;
}

abbrev pub conn : List Buffer → Bool → Conn ring pipe (Unit {0})
conn queue sending = record {
  fd = 9;
  tls = ([], []);
  handshaking = false;
  pending = minus_one;
  send_queue = queue;
  send_count = 0;
  canceling = false;
  is_sending = sending;
  closing = false;
  ring = 8;
  requests = [];
  pool = new 16 ∷ new 16 ∷ [];
  lobby = tt;
}

-- A handler that answers with the packet's bytes.
abbrev pub echo : List ℕ → ℕ → Conn ring pipe (Unit {0}) → Outcome (Conn ring pipe (Unit {0}))
echo bytes len c = send_message ring pipe (Unit {0}) 1 (take len bytes) c

echo-IsSound :
    (bytes : List ℕ) (len : ℕ) (c : Conn ring pipe (Unit {0}))
    → IsSound c
    → Always {A = Conn ring pipe (Unit {0})} IsSound (echo bytes len c)
echo-IsSound bytes len c i = send_message-IsSound ring pipe (Unit {0}) 1 (take len bytes) c i

pub conn-IsSound : IsSound (conn [] false)
conn-IsSound = record { sending = refl; closed = omega arith }

abbrev calls : List Call
calls = starts ∷ cancels true ∷ completes (some 3) ∷ closes_now false ∷ closes_now false ∷ []

abbrev after_calls : Conn ring pipe (Unit {0})
after_calls = record (conn [] false) {
  send_count = 0;
  canceling = true;
  closing = true;
  ring = 8;
  requests = recv_multishot 9 ∷ submitted ∷ cancel_recv 9 ∷ submitted ∷ close_fd 9 ∷ submitted ∷ [];
}

-- A send of three bytes is in flight when the session is stopped.
calls-after :
    perform_all ring pipe (Unit {0}) echo calls (record (conn (front ∷ []) true) { send_count = 1 })
    ≡ ok after_calls
unfolding start_recv start_close close on_send complete_front on_read get_stored_size send_internal
calls-after = refl

perform_all-IsSound_example : IsSound after_calls
perform_all-IsSound_example =
    perform_all-IsSound ring pipe (Unit {0}) echo echo-IsSound calls
      (record (conn (front ∷ []) true) { send_count = 1 }) after_calls
      (record { sending = refl; closed = omega arith }) calls-after

send_internal_lem_example :
    (c' : Conn ring pipe (Unit {0})) × (send_internal ring pipe (Unit {0}) (conn (front ∷ []) true)
      ≡ ok c')
    × (c'.send_queue ≡ front ∷ [])
    × (c'.is_sending ≡ true)
    × (c'.requests ≡ send_data 9 (5 ∷ 6 ∷ 7 ∷ []) ∷ submitted ∷ [])
send_internal_lem_example =
    send_internal_lem ring pipe (Unit {0}) (conn (front ∷ []) true) front [] refl front-IsValid

get_secret_text_lem_example :
    (n : ℕ) × (b : Buffer) × (st' : List ℕ × List ℕ) × (get_secret_text pipe
        (new 4)
        ([], 1 ∷ 2 ∷ 3 ∷ 4 ∷ 5 ∷ [])
      ≡ ok (n, b, st'))
    × IsValid b
    × (contents b ≡ 1 ∷ 2 ∷ 3 ∷ 4 ∷ [])
    × (n ≡ 4)
    × (st'.1 ≡ 5 ∷ [])
get_secret_text_lem_example =
    get_secret_text_lem pipe pipe_queue 4 ([], 1 ∷ 2 ∷ 3 ∷ 4 ∷ 5 ∷ []) (omega arith)

-- Every message that is long enough parses to itself.
abbrev parse : Parser
parse m bytes n = if ltb (length (take n bytes)) n then none else some m

parse-ReadsWithin : ReadsWithin parse
parse-ReadsWithin m bytes n =
    ap (λ xs. if ltb (length xs) n then none else some m)
      (sym (take_all n (take n bytes) (omega (arith, length-take n bytes))))

abbrev handlers : PacketHandler (Handler memory in_order)
handlers = (init_lem memory in_order).0

handle_packet-local_example :
    handle_packet memory in_order parse handlers 1 (0 ∷ 0 ∷ 0 ∷ 3 ∷ 9 ∷ []) 2 (world_with [])
    ≡ handle_packet memory in_order parse handlers 1 (0 ∷ 0 ∷ []) 2 (world_with [])
handle_packet-local_example =
    handle_packet-local memory in_order parse parse-ReadsWithin handlers 1 (0 ∷ 0 ∷ [])
      (0 ∷ 3 ∷ 9 ∷ []) (world_with []) (omega arith)
