-- ===== src/Rooms/Create.antt =====
-- `RoomManager::CreateRoom`: the new room's key, and whether its creator is in it.
use yuwibo_server.Prelude.{
  ℕ, suc, ◌-◌, ◌<◌, ◌≡◌, refl, Bool, true, false, List, [], ◌++◌, none, some, arith, ==_refl,
  length, ok, u32_mod,
}
use yuwibo_server.Text.{Text}
use yuwibo_server.Messages.{JoinRoomResponse}
use yuwibo_server.Database.{Driver, UserRow}
use yuwibo_server.Rooms.{
  World, Room, Iteration, find_room, put_room, set_room, insert, get_user_id, enter, find_free_key,
  create_room,
}
use yuwibo_server.Rooms.Map.{find-put, Sets, put-Sets, Sets-trans}
use yuwibo_server.Rooms.Keys.{find_free_key_lem, Taken}
use yuwibo_server.Rooms.Enter.{Asked, told, joined, enter-Entered, enter_full}

-- The room before anybody is in it.
abbrev pub fresh : ℕ → Text → ℕ → Text → Room
fresh key room_name max_player_count host = record {
  sessions = [];
  info = record {
    id = key;
    room_name = room_name;
    max_player_count = max_player_count;
    host_id = host;
  };
}

module _ (d : Driver) (it : Iteration) where
  create_steps :
      (response response' : JoinRoomResponse) (room_name : Text) (max session key : ℕ)
      (entered : Bool) (w w' : World d.State)
      → find_free_key (suc (length w.rooms)) 0 w.rooms ≡ ok key
      → w.alive session ≡ true
      → enter d it key response session
          (record w { rooms = put_room key (fresh key room_name max (w.user_id session)) w.rooms })
        ≡ ok (entered, response', w')
      → create_room d it response room_name max session w ≡ ok (response', w')
  unfolding create_room set_room get_user_id
  create_steps response response' room_name max session key entered w w' k alive e =
      rw (k, alive, e) refl

  -- If there are fewer than 2 ^ 32 - 1 rooms, a room is created for at least one player by a
  -- session that is alive, and GetUserInfo returns for its user, twice, then the room gets the
  -- least free key, its creator is its only member and its host, and the response reports success
  -- and the creator, if the first query found a name.
  pub create_room_lem :
      (response : JoinRoomResponse) (room_name : Text) (max session : ℕ) (w : World d.State)
      (rows rows' : List UserRow) (st st' : d.State)
      → length w.rooms < u32_mod - 1
      → 0 < max
      → w.alive session ≡ true
      → Asked d it (insert session []) w w.database rows st
      → Asked d it (insert session []) w st rows' st'
      → (key : ℕ) × (response' : JoinRoomResponse) × (w' : World d.State) × (create_room d it
            response room_name max session w
          ≡ ok (response', w'))
        × (find_room key w.rooms ≡ none)
        × Taken key w.rooms
        × Sets key (some (joined session (fresh key room_name max (w.user_id session)))) w w'
        × (w'.room_id session ≡ key)
        × (response'.success ≡ true)
        × (response'.users ≡ response.users ++ told d it (insert session []) w rows)
  create_room_lem response room_name max session w rows rows' st st' small pos alive answers
        answers' =
      let (key, k, free, taken, le) = find_free_key_lem w.rooms small in
      let room : Room = fresh key room_name max (w.user_id session) in
      let (response', w', e, there, moved, good, mine, info, users, ev) =
        enter-Entered d it key response session room
          (record w { rooms = put_room key room w.rooms }) rows rows' st st'
          (rw (find-put key key room w.rooms, ==_refl key) refl) (omega arith) alive tt answers
          answers' in
      (
        key,
        response',
        w',
        create_steps response response' room_name max session key true w w' k alive e,
        free,
        taken,
        Sets-trans key (some room) _ w (record w { rooms = put_room key room w.rooms }) w'
            (put-Sets key room w (record w { rooms = put_room key room w.rooms }) refl refl) there,
        moved,
        good,
        users,
      )

  -- With fewer than 2 ^ 32 - 1 rooms, a room created for no player by a session that is alive is
  -- refused to its creator but stays in the map, empty.
  pub create_room_empty :
      (response : JoinRoomResponse) (room_name : Text) (session : ℕ) (w : World d.State)
      → length w.rooms < u32_mod - 1
      → w.alive session ≡ true
      → (key : ℕ) × (w' : World d.State) × (create_room d it response room_name 0 session w
          ≡ ok (record response { success = false }, w'))
        × (find_room key w.rooms ≡ none)
        × Sets key (some (fresh key room_name 0 (w.user_id session))) w w'
  create_room_empty response room_name session w small alive =
      let (key, k, free, taken, le) = find_free_key_lem w.rooms small in
      let room : Room = fresh key room_name 0 (w.user_id session) in
      let w' : World d.State = record w { rooms = put_room key room w.rooms } in
      let there : find_room key w'.rooms ≡ some room =
        rw (find-put key key room w.rooms, ==_refl key) refl in
      (
        key,
        w',
        create_steps response (record response { success = false }) room_name 0 session key false w
            w' k alive (enter_full d it key response session room w' there (omega arith)),
        free,
        put-Sets key room w w' refl refl,
      )
