-- ===== src/Packets/Handlers.antt =====
-- PacketHandler.cpp: what each registered handler does with a message of its type. A `static_cast`
-- to another type than the message's is a fault. The messages of the server have empty handlers.
use yuwibo_server.Prelude.{
  ℕ, true, false, List, [], ◌∷◌, none, some, ◌==◌, if◌then◌else◌, Outcome, ok, fault, ◌>>=◌,
}
use yuwibo_server.Messages.{
  no_error, unknown, user_already_exists, JoinRoomResponse, new_join_room_response, no_room,
  Message, ping, pong, signin_request, signin_response, signup_request, signup_response,
  register_request, register_response, create_room_request, find_room_request, find_room_response,
  join_room_request, join_room_response, leave_room_request, update_room_info, broadcast_request,
  broadcast_response, game_request, game_response,
}
use yuwibo_server.Database.{Driver, login, join_membership, user_name_register}
use yuwibo_server.Rooms.{
  World, Iteration, get_user_id, get_room_id, set_user_id, send, get_room, enter, leave, broadcast,
  start_game, create_room, get_rooms,
}

module _ (d : Driver) (it : Iteration) where
  -- A handler, for one session and one message.
  abbrev pub Handler : Type 0
  Handler = ℕ → Message → World d.State → Outcome (World d.State)

  unfoldable pub on_ping : Handler
  on_ping s m w = send s (pong w.clock) w

  -- The handler of a message that only the server sends.
  unfoldable pub on_nothing : Handler
  on_nothing s m w = ok w

  unfoldable pub on_signin_request : Handler
  on_signin_request s (signin_request user_id password) w = do
    (success, err, st) ← login d user_id password w.database
    let w : World d.State = record w { database = st }
    w ← (if success then set_user_id s user_id w else ok w)
    elim err [ none ↦ fault | some e ↦ send s (signin_response success e) w ]
  on_signin_request s m w = fault

  -- The response to the result of JoinMembership.
  signup_reply : ℕ → Message
  signup_reply result =
      if result == 0
      then signup_response true no_error
      else (if result == 1062
          then signup_response false user_already_exists
          else signup_response false unknown)

  unfoldable pub on_signup_request : Handler
  unfolding signup_reply
  on_signup_request s (signup_request user_id password) w =
      let (result, st) = join_membership d user_id password w.database in
      send s (signup_reply result) (record w { database = st })
  on_signup_request s m w = fault

  unfoldable pub on_register_request : Handler
  on_register_request s (register_request user_name) w = do
    uid ← get_user_id s w
    let (done, st) = user_name_register d user_name uid w.database
    send s register_response (record w { database = st })
  on_register_request s m w = fault

  unfoldable pub on_create_room_request : Handler
  on_create_room_request s (create_room_request room_name max_player_count) w = do
    (response, w) ← create_room d it new_join_room_response room_name max_player_count s w
    send s (join_room_response response) w
  on_create_room_request s m w = fault

  unfoldable pub on_find_room_request : Handler
  on_find_room_request s (find_room_request name) w =
      send s (find_room_response (get_rooms d it name w)) w
  on_find_room_request s m w = fault

  abbrev refused : JoinRoomResponse → JoinRoomResponse
  refused response = record response { success = false }

  unfoldable pub on_join_room_request : Handler
  on_join_room_request s (join_room_request id) w = elim (get_room id w) [
    | none ↦ send s (join_room_response (refused new_join_room_response)) w
    | some key ↦ do
      (entered, response, w) ← enter d it key new_join_room_response s w
      if entered
          then send s (join_room_response (record response { success = true })) w
          else send s (join_room_response (refused response)) w
  ]
  on_join_room_request s m w = fault

  unfoldable pub on_leave_room_request : Handler
  on_leave_room_request s (leave_room_request name) w = do
    id ← get_room_id s w
    w ← elim (get_room id w) [ none ↦ ok w | some key ↦ leave d it key s w ]
    send s (find_room_response (get_rooms d it name w)) w
  on_leave_room_request s m w = fault

  unfoldable pub on_broadcast_request : Handler
  on_broadcast_request s (broadcast_request message) w = do
    id ← get_room_id s w
    elim (get_room id w) [ none ↦ ok w | some key ↦ broadcast d it key s message w ]
  on_broadcast_request s m w = fault

  unfoldable pub on_game_request : Handler
  on_game_request s (game_request url) w = do
    id ← get_room_id s w
    elim (get_room id w) [ none ↦ ok w | some key ↦ start_game d it key url s w ]
  on_game_request s m w = fault

  -- The calls of `Register` in `Init`, in order: identifier, a new message, and the handler.
  unfoldable pub registrations : List (ℕ × Message × Handler)
  registrations =
      (0, ping, on_ping)
      ∷ (1, pong 0, on_nothing)
      ∷ (2, signin_request [] [], on_signin_request)
      ∷ (3, signin_response false no_error, on_nothing)
      ∷ (4, signup_request [] [], on_signup_request)
      ∷ (5, signup_response false no_error, on_nothing)
      ∷ (6, register_request [], on_register_request)
      ∷ (7, register_response, on_nothing)
      ∷ (8, create_room_request [] 0, on_create_room_request)
      ∷ (9, find_room_request [], on_find_room_request)
      ∷ (10, find_room_response [], on_nothing)
      ∷ (11, join_room_request 0, on_join_room_request)
      ∷ (12, join_room_response new_join_room_response, on_nothing)
      ∷ (13, leave_room_request [], on_leave_room_request)
      ∷ (14, update_room_info (record { room = no_room; users = []; my_id = [] }), on_nothing)
      ∷ (15, broadcast_request [], on_broadcast_request)
      ∷ (16, broadcast_response (record { user_id = []; user_name = [] }) [], on_nothing)
      ∷ (17, game_request [], on_game_request)
      ∷ (18, game_response [], on_nothing)
      ∷ []
