-- ===== src/Packets/Locality.antt =====
-- `Session::HandlePacket` looks at its own packet only.
use yuwibo_server.Prelude.{
  ℕ, ◌≤◌, ◌≡◌, refl, sym, ap, ◌∙◌, List, ◌++◌, arith, Option, none, some, length, take, drop,
  drop-append_le, take-append_le, length-drop, length-append, Outcome, ok, fault, deadlock, spins,
  ◌>>=◌, sub_size, to_int,
}
use yuwibo_server.Buffer.{read_at}
use yuwibo_server.Buffer.Laws.{read_at-slice}
use yuwibo_server.Framing.{ntohs_bytes}
use yuwibo_server.Framing.Process.{HasId}
use yuwibo_server.Messages.{Message}
use yuwibo_server.Database.{Driver}
use yuwibo_server.Rooms.{World, Iteration}
use yuwibo_server.Packets.{PacketHandler, create_message_by_id}
use yuwibo_server.Packets.Handlers.{Handler}
use yuwibo_server.Packets.Dispatch.{Parser, handle_packet, call_handler}

-- A parser reads no more than the size that it is given.
abbrev pub ReadsWithin : Parser → Type 0
ReadsWithin parse =
    (m : Message) (memory : List ℕ) (n : ℕ) → parse m memory n ≡ parse m (take n memory) n

module _ (d : Driver) (it : Iteration) (parse : Parser) (within : ReadsWithin parse) where
  parse_same :
      (m : Message) (body slack : List ℕ) (n : ℕ)
      → n ≤ length body
      → parse m (body ++ slack) n ≡ parse m body n
  parse_same m body slack n h =
      within m (body ++ slack) n
      ∙ ap (λ xs. parse m xs n) (take-append_le n body slack h)
      ∙ sym (within m body n)

  -- What `HandlePacket` does with the message made for the identifier, and a way to fill it.
  abbrev react :
      PacketHandler (Handler d it)
      → ℕ
      → ℕ
      → (Message → Option Message)
      → World d.State
      → Option Message
      → Outcome (World d.State)
  react p session id fill w none = ok w
  react p session id fill w (some empty) = elim (fill empty) [
    | none ↦ ok w
    | some filled ↦ call_handler d it p session id filled w
  ]

  react_same :
      (p : PacketHandler (Handler d it)) (session id : ℕ) (f g : Message → Option Message)
      (w : World d.State) (made : Outcome (Option Message))
      → ((m : Message) → f m ≡ g m)
      → (made >>= react p session id f w) ≡ (made >>= react p session id g w)
  react_same p session id f g w (ok none) h = refl
  react_same p session id f g w (ok (some empty)) h = rw (react, h empty) refl
  react_same p session id f g w fault h = refl
  react_same p session id f g w deadlock h = refl
  react_same p session id f g w spins h = refl

  -- With a parser that reads within its bounds, what stands in memory behind a packet that has an
  -- identifier does not matter to what HandlePacket does with it.
  pub handle_packet-local :
      (p : PacketHandler (Handler d it)) (session : ℕ) (body slack : List ℕ) (w : World d.State)
      → HasId body
      → handle_packet d it parse p session (body ++ slack) (length body) w
        ≡ handle_packet d it parse p session body (length body) w
  unfolding handle_packet
  handle_packet-local p session body slack w h =
      rw (one, two)
        (react_same p session (ntohs_bytes (take 2 body))
          (λ m. parse m (drop 2 (body ++ slack)) (to_int (sub_size (length body) 2)))
          (λ m. parse m (drop 2 body) (to_int (sub_size (length body) 2))) w
          (create_message_by_id (ntohs_bytes (take 2 body)) p)
          (λ m. rw tail (parse_same m (drop 2 body) slack _ (omega (arith, length-drop 2 body)))))
    where
      one : read_at (body ++ slack) 0 2 ≡ some (take 2 body)
      one =
          read_at-slice (body ++ slack) 0 2 (omega (arith, length-append body slack))
          ∙ ap some (take-append_le 2 body slack h)

      two : read_at body 0 2 ≡ some (take 2 body)
      two = read_at-slice body 0 2 h

      tail : drop 2 (body ++ slack) ≡ drop 2 body ++ slack
      tail = drop-append_le 2 body slack h
