-- ===== src/Packets/Registry.antt =====
-- What `PacketHandler::Init` leaves: identifiers, constructors, handlers and type names agree.
use Prim.Native.String.{String}
use yuwibo_server.Prelude.{
  ℕ, ◌≤◌, ◌≡◌, refl, sym, ◌∙◌, subst, ok-injective, List, [], ◌∷◌, Option, none, some, All, le→leb,
  ok,
}
use yuwibo_server.Messages.{
  Message, ping, pong, signin_request, signin_response, signup_request, signup_response,
  register_request, register_response, create_room_request, find_room_request, find_room_response,
  join_room_request, join_room_response, leave_room_request, update_room_info, broadcast_request,
  broadcast_response, game_request, game_response, type_name,
}
use yuwibo_server.Database.{Driver}
use yuwibo_server.Rooms.{Iteration}
use yuwibo_server.Packets.{
  PacketEntry, PacketHandler, put_name, find_name, register, register_all, create_message_by_id,
  get_message_id_by_name, handler_of,
}
use yuwibo_server.Packets.Handlers.{Handler, registrations}
use yuwibo_server.Packets.Dispatch.{init}

-- The identifier of a message on the wire, by its type.
abbrev pub wire_id : Message → ℕ
wire_id ping = 0
wire_id (pong t) = 1
wire_id (signin_request u p) = 2
wire_id (signin_response s e) = 3
wire_id (signup_request u p) = 4
wire_id (signup_response s e) = 5
wire_id (register_request n) = 6
wire_id register_response = 7
wire_id (create_room_request n m) = 8
wire_id (find_room_request n) = 9
wire_id (find_room_response rs) = 10
wire_id (join_room_request i) = 11
wire_id (join_room_response r) = 12
wire_id (leave_room_request n) = 13
wire_id (update_room_info u) = 14
wire_id (broadcast_request m) = 15
wire_id (broadcast_response u m) = 16
wire_id (game_request u) = 17
wire_id (game_response u) = 18

module _ (d : Driver) (it : Iteration) where
  -- A registration is found again: its constructor and its handler by its identifier.
  abbrev pub IsRegistered : PacketHandler (Handler d it) → ℕ × Message × Handler d it → Type 0
  IsRegistered p (id, creator, handler) =
      (create_message_by_id id p ≡ ok (some creator)) × (handler_of id p ≡ ok (some handler))

  -- An identifier outside the table gives no message and no handler.
  abbrev pub IsUnknown : PacketHandler (Handler d it) → ℕ → Type 0
  IsUnknown p id = (create_message_by_id id p ≡ ok none) × (handler_of id p ≡ ok none)

  -- One entry and one name for each registration, in order.
  entries : List (ℕ × Message × Handler d it) → List (Option (PacketEntry (Handler d it)))
  entries [] = []
  entries ((id, creator, handler) ∷ rest) =
      some (record { creator = some creator; handler = some handler }) ∷ entries rest

  names : List (ℕ × Message × Handler d it) → List (String × ℕ)
  names [] = []
  names ((id, creator, handler) ∷ rest) = (type_name creator, id) ∷ names rest

  filled : PacketHandler (Handler d it)
  unfolding entries names registrations
  filled = record {
    packet_table = entries (registrations d it);
    name_to_id = names (registrations d it);
  }

  init-filled : init d it ≡ ok filled
  unfolding init register_all register put_name registrations type_name filled
  init-filled = refl

  filled-IsRegistered : All (IsRegistered filled) (registrations d it)
  unfolding filled create_message_by_id handler_of registrations
  filled-IsRegistered = (
    (refl, refl),
    (
      (refl, refl),
      (
        (refl, refl),
        (
          (refl, refl),
          (
            (refl, refl),
            (
              (refl, refl),
              (
                (refl, refl),
                (
                  (refl, refl),
                  (
                    (refl, refl),
                    (
                      (refl, refl),
                      (
                        (refl, refl),
                        (
                          (refl, refl),
                          (
                            (refl, refl),
                            (
                              (refl, refl),
                              (
                                (refl, refl),
                                ((refl, refl), ((refl, refl), ((refl, refl), ((refl, refl), tt)))),
                              ),
                            ),
                          ),
                        ),
                      ),
                    ),
                  ),
                ),
              ),
            ),
          ),
        ),
      ),
    ),
  )

  wire_id-filled : (m : Message) → get_message_id_by_name (type_name m) filled ≡ wire_id m
  unfolding filled find_name get_message_id_by_name type_name
  wire_id-filled ping = refl
  wire_id-filled (pong t) = refl
  wire_id-filled (signin_request u p) = refl
  wire_id-filled (signin_response s e) = refl
  wire_id-filled (signup_request u p) = refl
  wire_id-filled (signup_response s e) = refl
  wire_id-filled (register_request n) = refl
  wire_id-filled register_response = refl
  wire_id-filled (create_room_request n m) = refl
  wire_id-filled (find_room_request n) = refl
  wire_id-filled (find_room_response rs) = refl
  wire_id-filled (join_room_request i) = refl
  wire_id-filled (join_room_response r) = refl
  wire_id-filled (leave_room_request n) = refl
  wire_id-filled (update_room_info u) = refl
  wire_id-filled (broadcast_request m) = refl
  wire_id-filled (broadcast_response u m) = refl
  wire_id-filled (game_request u) = refl
  wire_id-filled (game_response u) = refl

  filled-IsUnknown : (id : ℕ) → 19 ≤ id → IsUnknown filled id
  unfolding filled create_message_by_id handler_of
  filled-IsUnknown id h = (rw (le→leb _ _ h) refl, rw (le→leb _ _ h) refl)

  -- Init does not fault; afterwards every registration is found by its identifier, and the
  -- identifier that Send looks up for a message, whatever its fields, is the one under which its
  -- type was registered.
  pub init_lem :
      (p : PacketHandler (Handler d it)) × (init d it ≡ ok p)
      × All (IsRegistered p) (registrations d it)
      × ((m : Message) → get_message_id_by_name (type_name m) p ≡ wire_id m)
  init_lem = (filled, init-filled, filled-IsRegistered, wire_id-filled)

  -- After Init, an identifier from 19 on has neither constructor nor handler, so its packet is
  -- ignored.
  pub init-IsUnknown :
      (id : ℕ) (p : PacketHandler (Handler d it)) → 19 ≤ id → init d it ≡ ok p → IsUnknown p id
  init-IsUnknown id p h e =
      subst (λ q. IsUnknown q id) (ok-injective (sym init-filled ∙ e)) (filled-IsUnknown id h)
