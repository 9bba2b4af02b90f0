-- ===== src/Rooms.antt =====
-- Room.h, Room.cpp, RoomManager.h and RoomManager.cpp: the rooms, who is in them, and what each
-- client is told. A `Session*` is a number, and a `Room*` is its key in the manager's map. What the
-- code reads or writes of another component stands in `World`.
pub mod Map
pub mod Members
pub mod Keys
pub mod Frame
pub mod Enter
pub mod Leave
pub mod Create
pub mod Broadcasts
pub mod Lobby
pub mod Locks
mod State
unfoldable pub use State.*
use yuwibo_server.Prelude.{
  ℕ, zero, suc, ◌+◌, ◌%◌, ◌≡◌, Bool, true, false, not, ◌&&◌, ◌||◌, List, [], ◌∷◌, ◌++◌, Option,
  none, some, ltb, ◌==◌, if◌then◌else◌, length, Outcome, ok, fault, spins, ◌>>=◌, ◌>>◌, or_fault,
  u32_mod, minus_one,
}
use mathlib.Core.List.{Perm}
use yuwibo_server.Text.{Text, text_eq, contains}
use yuwibo_server.Messages.{
  RoomInfo, UserInfo, JoinRoomResponse, UpdateRoomInfo, Message, update_room_info,
  broadcast_response, game_response, join_room_response, no_error, no_room,
}
use yuwibo_server.Database.{Driver, get_user_info}

module _ (d : Driver) where
  -- The loops over `_sessions` that add to `users`.
  unfoldable pub add_users : List ℕ → World d.State → Outcome (List UserInfo × World d.State)
  add_users [] w = ok ([], w)
  add_users (s ∷ ss) w = do
    uid ← get_user_id s w
    (res, st) ← get_user_info d uid w.database
    (users, w') ← add_users ss (record w { database = st })
    ok (
      if res.success then record { user_id = uid; user_name = res.user_name } ∷ users else users,
      w',
    )

module _ (d : Driver) (it : Iteration) where
  -- Room::UpdateRoomBroadcast. `host_id` is not set.
  unfoldable pub update_room_broadcast : ℕ → Option ℕ → World d.State → Outcome (World d.State)
  update_room_broadcast key ignored w = do
    room ← room_at key w
    let members = it.sessions room.sessions
    (users, w) ← add_users d members w
    let info = record no_room {
      id = room.info.id;
      room_name = room.info.room_name;
      current_player_count = length room.sessions % u32_mod;
      max_player_count = room.info.max_player_count;
    }
    send_update ignored (record { room = info; users = users; my_id = [] }) members w

  -- Room::Enter, with the response that it fills.
  unfoldable pub enter :
      ℕ → JoinRoomResponse → ℕ → World d.State → Outcome (Bool × JoinRoomResponse × World d.State)
  enter key response session w = do
    room ← room_at key w
    if ltb room.info.max_player_count (length room.sessions + 1)
        then ok (false, record response { success = false }, w)
        else (do
          let members = insert session room.sessions
          w ← set_room_id session room.info.id (set_room key (record room { sessions = members }) w)
          uid ← get_user_id session w
          let info : RoomInfo = record {
            id = room.info.id;
            room_name = room.info.room_name;
            current_player_count = length members % u32_mod;
            max_player_count = room.info.max_player_count;
            host_id = room.info.host_id;
          }
          (users, w) ← add_users d (it.sessions members) w
          w ← (if ltb 1 (length members) then update_room_broadcast key (some session) w else ok w)
          ok (
            true,
            record {
              success = true;
              error_code = no_error;
              room = info;
              users = response.users ++ users;
              my_id = uid;
            },
            w,
          ))

  -- Room::Leave. The `lock_guard` unlocks the room's mutex at the end; RemoveRoom destroys the room.
  unfoldable pub leave : ℕ → ℕ → World d.State → Outcome (World d.State)
  unfolding first_user_id
  leave key session w = do
    room ← room_at key w
    let members = erase session room.sessions
    w ← set_room_id session minus_one (set_room key (record room { sessions = members }) w)
    if length members == 0 then ok (unlock_room key (remove_room room.info.id w)) else (do
      uid ← get_user_id session w
      host ←
          (if text_eq uid room.info.host_id
            then first_user_id (it.sessions members) w
            else ok room.info.host_id)
      let info = record room.info { host_id = host }
      w ←
          update_room_broadcast key none
            (set_room key (record { sessions = members; info = info }) w)
      ok (unlock_room key w))

  -- Room::Broadcast. The user's identifier is not set.
  unfoldable pub broadcast : ℕ → ℕ → Text → World d.State → Outcome (World d.State)
  broadcast key session content w = do
    room ← room_at key w
    uid ← get_user_id session w
    (res, st) ← get_user_info d uid w.database
    if res.success
        then send_all
            (broadcast_response (record { user_id = []; user_name = res.user_name }) content)
            (it.sessions room.sessions) (record w { database = st })
        else ok (record w { database = st })

  -- Room::StartGame
  unfoldable pub start_game : ℕ → Text → ℕ → World d.State → Outcome (World d.State)
  start_game key url ignored w = do
    room ← room_at key w
    send_game ignored url (it.sessions room.sessions) w

  -- RoomManager::CreateRoom. One round more than there are rooms is enough.
  unfoldable pub create_room :
      JoinRoomResponse → Text → ℕ → ℕ → World d.State → Outcome (JoinRoomResponse × World d.State)
  create_room response room_name max_player_count session w = do
    key ← find_free_key (suc (length w.rooms)) 0 w.rooms
    uid ← get_user_id session w
    let info : Info = record {
      id = key;
      room_name = room_name;
      max_player_count = max_player_count;
      host_id = uid;
    }
    (entered, response, w) ←
        enter key response session (set_room key (record { sessions = []; info = info }) w)
    ok (response, w)

  -- RoomManager::GetRoom(FindRoomResponse&, std::string). The host is not set.
  unfoldable pub get_rooms : Text → World d.State → List RoomInfo
  unfolding matching_rooms
  get_rooms name w = matching_rooms name (it.rooms w.rooms)
