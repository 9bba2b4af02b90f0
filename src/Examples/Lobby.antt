-- ===== src/Examples/Lobby.antt =====
-- Runs of the rooms: the sessions 1 and 2 of the users `a` and `b`, and some more.
use yuwibo_server.Prelude.{
  ℕ, suc, ◌≡◌, refl, ◌≢◌, true, List, [], ◌∷◌, ◌++◌, none, some, arith, length, ok,
}
use yuwibo_server.Text.{Text, text_eq}
use yuwibo_server.Messages.{
  JoinRoomResponse, new_join_room_response, broadcast_response, game_response,
}
use yuwibo_server.Rooms.{
  World, Room, insert, find_room, mem, erase, enter, leave, broadcast, start_game, create_room,
  find_free_key, update_room_broadcast,
}
use yuwibo_server.Rooms.Map.{Sets}
use yuwibo_server.Rooms.Keys.{IsLeastFree, Taken, find_free_key_lem}
use yuwibo_server.Rooms.Frame.{Alive, Answered, Appends, to_all, to_others, updates}
use yuwibo_server.Rooms.Enter.{
  Asked, told, joined, room_summary, Entered, enter-Entered, update_room_broadcast_lem,
}
use yuwibo_server.Rooms.Leave.{Left, HasHost, StillHosted, leave-Left, leave-StillHosted}
use yuwibo_server.Rooms.Create.{fresh, create_room_lem}
use yuwibo_server.Rooms.Broadcasts.{broadcast-Appends, start_game-Appends}
use yuwibo_server.Database.{get_user_info, user_info_row, UserRow}
use yuwibo_server.Examples.Samples.{
  Table, memory, in_order, users, user_a, user_b, id_of, lobby_name, room_of, world_with,
}

abbrev one : Room
one = room_of 3 (1 ∷ [])

abbrev two : Room
two = room_of 3 (1 ∷ 2 ∷ [])

abbrev lobby : Room → World memory.State
lobby room = world_with ((0, room) ∷ (4, room) ∷ [])

found : (room : Room) → find_room 4 (lobby room).rooms ≡ some room
unfolding find_room
found room = refl

-- The rows of `a` and `b`, and the table after `b` was asked for.
abbrev row_a : UserRow
row_a = record { success = true; user_name = user_a }

abbrev row_b : UserRow
row_b = record { success = true; user_name = user_b }

abbrev after : Text → Table
after uid = (users.0, uid ∷ [])

asked_a :
    (params : List Text) → get_user_info memory user_a (users.0, params) ≡ ok (row_a, after user_a)
unfolding get_user_info user_info_row text_eq
asked_a params = refl

asked_b :
    (params : List Text) → get_user_info memory user_b (users.0, params) ≡ ok (row_b, after user_b)
unfolding get_user_info user_info_row text_eq
asked_b params = refl

both-Answered :
    (params : List Text)
    → Answered memory (user_a ∷ user_b ∷ []) (users.0, params) (row_a ∷ row_b ∷ []) (after user_b)
both-Answered params = (after user_a, asked_a params, (after user_b, asked_b (user_a ∷ []), refl))

joined-Asked :
    (params : List Text)
    → Asked memory in_order
        (insert 2 (1 ∷ []))
        (lobby one)
        (users.0, params)
        (row_b ∷ row_a ∷ [])
        (after user_a)
unfolding insert mem
joined-Asked params = (after user_b, asked_b params, (after user_a, asked_a (user_b ∷ []), refl))

enter-Entered_example :
    Entered memory in_order 4 one 2
      (told memory in_order (insert 2 (1 ∷ [])) (lobby one) (row_b ∷ row_a ∷ []))
      (told memory in_order (insert 2 (1 ∷ [])) (lobby one) (row_b ∷ row_a ∷ []))
      new_join_room_response
      (lobby one)
      (enter memory in_order 4 new_join_room_response 2 (lobby one))
enter-Entered_example =
    enter-Entered memory in_order 4 new_join_room_response 2 one (lobby one) (row_b ∷ row_a ∷ [])
      (row_b ∷ row_a ∷ []) (after user_a) (after user_a) (found one) (omega arith) refl (refl, tt)
      (joined-Asked []) (joined-Asked (user_a ∷ []))

update_room_broadcast_lem_example :
    Appends
      (updates id_of
        (some 1)
        (record {
          room = room_summary two;
          users =
              record { user_id = user_a; user_name = user_a }
              ∷ record { user_id = user_b; user_name = user_b }
              ∷ [];
          my_id = [];
        })
        (1 ∷ 2 ∷ []))
      (lobby two)
      (update_room_broadcast memory in_order 4 (some 1) (lobby two))
update_room_broadcast_lem_example =
    update_room_broadcast_lem memory in_order 4 (some 1) two (lobby two) (row_a ∷ row_b ∷ [])
      (after user_b) (found two) (refl, (refl, tt)) (both-Answered [])

-- Who stays when session 1 leaves.
stays : erase 1 (1 ∷ 2 ∷ []) ≢ []
unfolding erase
stays e = cc

stayed-Asked :
    Asked memory in_order (erase 1 (1 ∷ 2 ∷ [])) (lobby two) users (row_b ∷ []) (after user_b)
unfolding erase
stayed-Asked = (after user_b, asked_b [], refl)

stayed_alive : Alive (lobby two).alive (erase 1 (1 ∷ 2 ∷ []))
unfolding erase
stayed_alive = (refl, tt)

leave-Left_example :
    Left memory in_order 4 1 two
      (told memory in_order (erase 1 (1 ∷ 2 ∷ [])) (lobby two) (row_b ∷ []))
      (lobby two)
      (leave memory in_order 4 1 (lobby two))
leave-Left_example =
    leave-Left memory in_order 4 1 two (lobby two) (row_b ∷ []) (after user_b) (found two) stays
      refl stayed_alive stayed-Asked

two-HasHost : HasHost memory in_order id_of two
unfolding mem
two-HasHost = (1, refl, refl)

leave-StillHosted_example : StillHosted memory in_order 4 (leave memory in_order 4 1 (lobby two))
leave-StillHosted_example =
    leave-StillHosted memory in_order 4 1 two (lobby two) (row_b ∷ []) (after user_b) (found two)
      stays refl stayed_alive stayed-Asked two-HasHost

find_free_key_lem_example :
    IsLeastFree
      (lobby one).rooms
      (find_free_key (suc (length (lobby one).rooms)) 0 (lobby one).rooms)
find_free_key_lem_example = find_free_key_lem (lobby one).rooms (omega arith)

created-Asked :
    (params : List Text)
    → Asked memory in_order (insert 2 []) (lobby one) (users.0, params) (row_b ∷ []) (after user_b)
unfolding insert mem
created-Asked params = (after user_b, asked_b params, refl)

create_room_lem_example :
    (key : ℕ) × (response' : JoinRoomResponse) × (w' : World memory.State) × (create_room memory
        in_order new_join_room_response lobby_name 3 2
        (lobby one)
      ≡ ok (response', w'))
    × (find_room key (lobby one).rooms ≡ none)
    × Taken key (lobby one).rooms
    × Sets key (some (joined 2 (fresh key lobby_name 3 user_b))) (lobby one) w'
    × (w'.room_id 2 ≡ key)
    × (response'.success ≡ true)
    × (response'.users
        ≡ new_join_room_response.users
          ++ told memory in_order (insert 2 []) (lobby one) (row_b ∷ []))
create_room_lem_example =
    create_room_lem memory in_order new_join_room_response lobby_name 3 2 (lobby one) (row_b ∷ [])
      (row_b ∷ []) (after user_b) (after user_b) (omega arith) (omega arith) refl (created-Asked [])
      (created-Asked (user_b ∷ []))

broadcast-Appends_example :
    Appends
      (to_all
        (broadcast_response (record { user_id = []; user_name = user_a }) (104 ∷ []))
        (1 ∷ 2 ∷ []))
      (lobby two)
      (broadcast memory in_order 4 1 (104 ∷ []) (lobby two))
broadcast-Appends_example =
    broadcast-Appends memory in_order 4 1 (104 ∷ []) two (lobby two) row_a (after user_a)
      (found two) refl (refl, (refl, tt)) (asked_a [])

start_game-Appends_example :
    Appends
      (to_others 1 (game_response (104 ∷ [])) (1 ∷ 2 ∷ []))
      (lobby two)
      (start_game memory in_order 4 (104 ∷ []) 1 (lobby two))
start_game-Appends_example =
    start_game-Appends memory in_order 4 1 (104 ∷ []) two (lobby two) (found two) (refl, (refl, tt))
