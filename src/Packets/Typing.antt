-- ===== src/Packets/Typing.antt =====
-- Which handler `Session::HandlePacket` calls: the casts of PacketHandler.h always meet a message of
-- their type.
use yuwibo_server.Prelude.{
  ◌≤◌, ◌<◌, ℕ, ◌≡◌, refl, ap, ◌∙◌, List, Option, none, some, Bool-cases, inl, inr, leb, leb→le,
  leb→lt, length, drop, take, Outcome, ok, ◌>>=◌, sub_size, to_int, ◌⊎◌,
}
use yuwibo_server.Buffer.Laws.{read_at-slice}
use yuwibo_server.Framing.{ntohs_bytes}
use yuwibo_server.Framing.Process.{HasId}
use yuwibo_server.Messages.{Message}
use yuwibo_server.Database.{Driver}
use yuwibo_server.Rooms.{World, Iteration}
use yuwibo_server.Packets.{PacketHandler, create_message_by_id}
use yuwibo_server.Packets.Handlers.{Handler}
use yuwibo_server.Packets.Dispatch.{Parser, init, call_handler, handle_packet}
use yuwibo_server.Packets.Registry.{wire_id, init-IsUnknown}
use yuwibo_server.Packets.Entries.{handler_for}
use yuwibo_server.Packets.Total.{KeepsType, Known, init-Known, registered_same}

module _ (d : Driver) (it : Iteration) where
  -- What the parser makes of the packet's bytes, filling `empty`.
  abbrev pub parsed_body : Parser → Message → List ℕ → Option Message
  parsed_body parse empty body = parse empty (drop 2 body) (to_int (sub_size (length body) 2))

  -- A packet of an unknown identifier is ignored. Else a message of the identifier's type is filled:
  -- if that fails, the packet is ignored, and if not, the handler for its type handles it.
  abbrev pub IsTyped : Parser → List ℕ → ℕ → ℕ → World d.State → Outcome (World d.State) → Type 0
  IsTyped parse body session id w out =
      ((19 ≤ id) × (out ≡ ok w))
      ⊎ ((empty : Message) × (id < 19)
          × (wire_id empty ≡ id)
          × (((parsed_body parse empty body ≡ none) × (out ≡ ok w))
              ⊎ ((m : Message) × (parsed_body parse empty body ≡ some m)
                  × (wire_id m ≡ id)
                  × (out ≡ handler_for d it m session m w))))

  call_handler-typed :
      (p : PacketHandler (Handler d it)) (session id : ℕ) (m : Message) (w : World d.State)
      → Known d it p id
      → wire_id m ≡ id
      → call_handler d it p session id m w ≡ handler_for d it m session m w
  unfolding call_handler Known
  call_handler-typed p session id m w (creator, h, e, own, (made, handled)) same =
      rw handled (ap (λ k. k session m w) (registered_same d it id creator h m e same))

  filled-IsTyped :
      (p : PacketHandler (Handler d it)) (session id : ℕ) (parsed : Option Message)
      (w : World d.State)
      → Known d it p id
      → ((m : Message) → parsed ≡ some m → wire_id m ≡ id)
      → let out : Outcome (World d.State) = elim parsed [
        | none ↦ ok w
        | some filled ↦ call_handler d it p session id filled w
      ] in
        ((parsed ≡ none) × (out ≡ ok w))
        ⊎ ((m : Message) × (parsed ≡ some m)
            × (wire_id m ≡ id)
            × (out ≡ handler_for d it m session m w))
  filled-IsTyped p session id none w known same = inl (refl, refl)
  filled-IsTyped p session id (some m) w known same =
      inr (m, refl, same m refl, call_handler-typed p session id m w known (same m refl))

  -- After Init, with a parser that keeps the type of the message that it fills: a packet of an
  -- unknown identifier is ignored; for any other the parser is called on the bytes behind the
  -- identifier, with a message of the identifier's type; if it fails, the packet is ignored, and
  -- if not, the message that it made is of that type and is handled as the handler for its type
  -- handles it.
  pub handle_packet-IsTyped :
      (parse : Parser) (p : PacketHandler (Handler d it)) (session : ℕ) (body : List ℕ)
      (w : World d.State)
      → KeepsType parse
      → init d it ≡ ok p
      → HasId body
      → IsTyped parse body session
          (ntohs_bytes (take 2 body))
          w
          (handle_packet d it parse p session body (length body) w)
  unfolding handle_packet Known
  handle_packet-IsTyped parse p session body w keeps e h =
      rw (read_at-slice body 0 2 h) (by_id (ntohs_bytes (take 2 body)))
    where
      by_id :
          (id : ℕ)
          → IsTyped parse body session id w (
              create_message_by_id id p >>= λ message. elim message [
                | none ↦ ok w
                | some empty ↦
                    elim (parse empty (drop 2 body) (to_int (sub_size (length body) 2))) [
                      | none ↦ ok w
                      | some filled ↦ call_handler d it p session id filled w
                    ]
              ])
      by_id id = elim (Bool-cases (leb 19 id)) [
        | inl out ↦ rw (init-IsUnknown d it id p (leb→le _ _ out) e).0 (inl (leb→le _ _ out, refl))
        | inr inside ↦
            let known = init-Known d it p id e (leb→lt _ _ inside) in
            let (creator, handler, at, own, (made, handled)) = known in
            rw made (
              inr (
                creator,
                leb→lt _ _ inside,
                own,
                filled-IsTyped p session id (parsed_body parse creator body) w known
                    (λ m q. keeps creator m (drop 2 body) _ q ∙ own),
              ))
      ]
