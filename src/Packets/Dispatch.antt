-- ===== src/Packets/Dispatch.antt =====
-- `PacketHandler::Init`, `PacketHandler::HandlePacket` and `Session::HandlePacket`: from the bytes of
-- a packet to its handler.
use yuwibo_server.Prelude.{
  ℕ, List, [], Option, none, some, replicate, drop, Outcome, ok, ◌>>=◌, or_fault, sub_size, to_int,
}
use yuwibo_server.Buffer.{read_at}
use yuwibo_server.Framing.{ntohs_bytes}
use yuwibo_server.Messages.{Message}
use yuwibo_server.Database.{Driver}
use yuwibo_server.Rooms.{World, Iteration}
use yuwibo_server.Packets.{PacketHandler, register_all, create_message_by_id, handler_of}
use yuwibo_server.Packets.Handlers.{Handler, registrations}

-- `ParseFromArray` of the protobuf library: the message that it is called on, what stands in memory
-- from the pointer on, and the size, an `int`. `none` is a failure.
abbrev pub Parser : Type 0
Parser = Message → List ℕ → ℕ → Option Message

module _ (d : Driver) (it : Iteration) where
  unfoldable pub init : Outcome (PacketHandler (Handler d it))
  init =
      register_all (registrations d it)
        (record { packet_table = replicate 19 none; name_to_id = [] })

  -- PacketHandler::HandlePacket
  unfoldable pub call_handler :
      PacketHandler (Handler d it) → ℕ → ℕ → Message → World d.State → Outcome (World d.State)
  call_handler p session packet_id message w = do
    handler ← handler_of packet_id p
    elim handler [ none ↦ ok w | some h ↦ h session message w ]

  -- Session::HandlePacket. `len - sizeof(msgId)` is a `size_t` that is passed as an `int`.
  unfoldable pub handle_packet :
      Parser
      → PacketHandler (Handler d it)
      → ℕ
      → List ℕ
      → ℕ
      → World d.State
      → Outcome (World d.State)
  handle_packet parse p session memory len w = do
    two ← or_fault (read_at memory 0 2)
    let msg_id = ntohs_bytes two
    message ← create_message_by_id msg_id p
    elim message [
      | none ↦ ok w
      | some empty ↦ elim (parse empty (drop 2 memory) (to_int (sub_size len 2))) [
        | none ↦ ok w
        | some filled ↦ call_handler p session msg_id filled w
      ]
    ]
