-- ===== src/Examples/Bytes.antt =====
-- Runs of Buffer.cpp and of the packet format on a few bytes.
use yuwibo_server.Prelude.{
  ℕ, ◌+◌, ◌<◌, ◌≡◌, refl, ap, ◌∙◌, false, List, [], ◌∷◌, arith, length, take, replicate,
  length-replicate, take-append_le, take_all, Outcome, ok, ◌>>=◌,
}
use yuwibo_server.Buffer.{Buffer, append, preserve_from, contents}
use yuwibo_server.Buffer.Laws.{IsValid, Stores, append-Stores}
use yuwibo_server.Buffer.Consuming.{Holds, preserve_from-Holds}
use yuwibo_server.Buffer.Fifo.{
  Op, writes, reads, consumes, resets, run, run_queue, Refines, run-Refines,
}
use yuwibo_server.Framing.{ntohs_bytes, build_packet, process_packet}
use yuwibo_server.Framing.Stream.{encode}
use yuwibo_server.Framing.Build.{build_packet-encode, build_packet-too_long}
use yuwibo_server.Framing.Process.{act_all, IsLocal, is_empty, process_packet_lem}

-- Five bytes, of which one is read, in a vector of six.
abbrev held : Buffer
held = record { bytes = 9 ∷ 0 ∷ 1 ∷ 7 ∷ 8 ∷ 0 ∷ []; write_pos = 5; read_pos = 1; locked = false }

held-IsValid : IsValid held
held-IsValid = record {
  ordered = omega arith;
  inside = omega arith;
  small = omega arith;
  free = refl;
}

abbrev ops : List Op
ops = writes (4 ∷ 5 ∷ 6 ∷ []) ∷ reads 5 ∷ consumes 1 ∷ writes (2 ∷ []) ∷ reads 9 ∷ resets ∷ []

run-Refines_example : Refines (run held ops) (run_queue (contents held) ops)
run-Refines_example = run-Refines ops held-IsValid (omega arith)

append-Stores_example : Stores held (0 ∷ 1 ∷ 7 ∷ 8 ∷ []) (append held held)
append-Stores_example = append-Stores held-IsValid held-IsValid (omega arith)

-- Two packets and the beginning of a third.
abbrev received : Buffer
received = record {
  bytes = 0 ∷ 3 ∷ 0 ∷ 5 ∷ 1 ∷ 0 ∷ 2 ∷ 0 ∷ 7 ∷ 0 ∷ 4 ∷ 9 ∷ 0 ∷ 0 ∷ [];
  write_pos = 12;
  read_pos = 0;
  locked = false;
}

received-IsValid : IsValid received
received-IsValid = record {
  ordered = omega arith;
  inside = omega arith;
  small = omega arith;
  free = refl;
}

preserve_from-Holds_example : Holds (0 ∷ 4 ∷ 9 ∷ []) (preserve_from received 9)
preserve_from-Holds_example = preserve_from-Holds 9 received-IsValid refl (omega arith)

abbrev bodies : List (List ℕ)
bodies = (0 ∷ 5 ∷ 1 ∷ []) ∷ (0 ∷ 7 ∷ []) ∷ []

abbrev unfinished : List ℕ
unfinished = 0 ∷ 4 ∷ 9 ∷ []

-- A handler that collects the packets.
abbrev collect : List ℕ → ℕ → List (List ℕ) → Outcome (List (List ℕ))
collect memory len seen = ok (take len memory ∷ seen)

abbrev collected : List ℕ → List (List ℕ) → Outcome (List (List ℕ))
collected body seen = ok (body ∷ seen)

collect-IsLocal : IsLocal collect collected
collect-IsLocal body slack seen h =
    ap (λ b. ok (b ∷ seen))
      (take-append_le (length body) body slack (omega arith)
        ∙ take_all (length body) body (omega arith))

process_packet_lem_example :
    (b' : Buffer) × ((s : List (List ℕ))
      → process_packet collect received s
        ≡ (act_all collected bodies s >>= λ s'. ok (is_empty unfinished, b', s')))
    × IsValid b'
    × (contents b' ≡ unfinished)
    × (b'.read_pos ≡ 0)
process_packet_lem_example =
    process_packet_lem collect collected collect-IsLocal bodies unfinished received-IsValid refl
      refl (omega arith, (omega arith, tt)) (omega arith, (omega arith, tt)) (omega arith)
      (omega arith, (omega arith, (omega arith, tt)))

build_packet-encode_example :
    Holds (encode (0 ∷ 2 ∷ 1 ∷ 2 ∷ 3 ∷ [])) (build_packet 2 (1 ∷ 2 ∷ 3 ∷ []))
build_packet-encode_example = build_packet-encode 2 (1 ∷ 2 ∷ 3 ∷ []) (omega arith)

build_packet-too_long_example :
    (b : Buffer) × (build_packet 2 (replicate 65534 0) ≡ ok b)
    × (ntohs_bytes (contents b) + 2 < length (contents b))
build_packet-too_long_example =
    build_packet-too_long 2 (replicate 65534 0) (omega (arith, length-replicate {A = ℕ} 65534 0))
      (omega (arith, length-replicate {A = ℕ} 65534 0))
