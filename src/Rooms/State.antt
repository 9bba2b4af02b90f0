-- ===== src/Rooms/State.antt =====
-- Room.h, and the members that the rooms' code reads and writes elsewhere: the rooms and sessions as
-- data, the operations of their containers, and what is sent to one session after another.
use yuwibo_server.Prelude.{
  ℕ, zero, suc, ◌+◌, ◌%◌, Bool, false, ◌||◌, List, [], ◌∷◌, ◌++◌, Option, none, some, ◌==◌,
  if◌then◌else◌, length, Outcome, ok, fault, spins, ◌>>=◌, or_fault, u32_mod,
}
use mathlib.Core.List.{Perm}
use yuwibo_server.Text.{Text, contains}
use yuwibo_server.Messages.{RoomInfo, UpdateRoomInfo, Message, update_room_info, game_response}

-- struct RoomInfo of Room.h.
pub record Info : Type 0 where
  pub id : ℕ
  pub room_name : Text
  pub max_player_count : ℕ
  pub host_id : Text

pub record Room : Type 0 where
  pub sessions : List ℕ
  pub info : Info

pub data Event : Type 0 where
  -- `session->Send(message)`
  sent : ℕ → Message → Event
  -- A mutex is unlocked after the room that holds it was destroyed.
  unlock_freed : ℕ → Event

-- The state that the handlers share. `alive` is which sessions are not yet deleted; `user_id` and
-- `room_id` are the members of each session.
pub record World (D : Type 0) : Type 0 where
  pub alive : ℕ → Bool
  pub user_id : ℕ → Text
  pub room_id : ℕ → ℕ
  pub rooms : List (ℕ × Room)
  pub events : List Event
  pub database : D
  -- What `system_clock` shows, in seconds.
  pub clock : ℕ

-- The order in which an `unordered_set` of sessions and an `unordered_map` of rooms are gone
-- through, which the standard leaves open.
pub record Iteration : Type 0 where
  pub sessions : List ℕ → List ℕ
  pub sessions-perm : (xs : List ℕ) → Perm (sessions xs) xs
  pub rooms : List (ℕ × Room) → List (ℕ × Room)
  pub rooms-perm : (xs : List (ℕ × Room)) → Perm (rooms xs) xs

-- `find`, `operator[]` and `erase` of `unordered_map<uint, unique_ptr<Room>>`.
unfoldable pub find_room : ℕ → List (ℕ × Room) → Option Room
find_room key [] = none
find_room key ((k, r) ∷ rooms) = if k == key then some r else find_room key rooms

unfoldable pub put_room : ℕ → Room → List (ℕ × Room) → List (ℕ × Room)
put_room key room [] = (key, room) ∷ []
put_room key room ((k, r) ∷ rooms) =
    if k == key then (key, room) ∷ rooms else (k, r) ∷ put_room key room rooms

unfoldable pub erase_room : ℕ → List (ℕ × Room) → List (ℕ × Room)
erase_room key [] = []
erase_room key ((k, r) ∷ rooms) =
    if k == key then erase_room key rooms else (k, r) ∷ erase_room key rooms

-- `unordered_set<Session*>`: membership, `insert` and `erase`.
unfoldable pub mem : ℕ → List ℕ → Bool
mem s [] = false
mem s (x ∷ xs) = x == s || mem s xs

unfoldable pub insert : ℕ → List ℕ → List ℕ
insert s xs = if mem s xs then xs else s ∷ xs

unfoldable pub erase : ℕ → List ℕ → List ℕ
erase s [] = []
erase s (x ∷ xs) = if x == s then erase s xs else x ∷ erase s xs

-- `ignoredSession == session`, where no session is the null pointer.
abbrev pub is_ignored : Option ℕ → ℕ → Bool
is_ignored none s = false
is_ignored (some i) s = i == s

-- Room::CompareRoomName
unfoldable pub compare_room_name : Room → Text → Bool
compare_room_name room name = contains name room.info.room_name

unfoldable pub get_current_player_count : Room → ℕ
get_current_player_count room = length room.sessions

-- The `while (true)` of CreateRoom; the key is an `unsigned int`.
unfoldable pub find_free_key : ℕ → ℕ → List (ℕ × Room) → Outcome ℕ
find_free_key zero key rooms = spins
find_free_key (suc fuel) key rooms = elim (find_room key rooms) [
  | none ↦ ok key
  | some r ↦ find_free_key fuel ((key + 1) % u32_mod) rooms
]

unfoldable pub matching_rooms : Text → List (ℕ × Room) → List RoomInfo
matching_rooms name [] = []
matching_rooms name ((id, room) ∷ rooms) =
    if compare_room_name room name
    then record {
      id = id;
      room_name = room.info.room_name;
      current_player_count = get_current_player_count room % u32_mod;
      max_player_count = room.info.max_player_count;
      host_id = [];
    }
      ∷ matching_rooms name rooms
    else matching_rooms name rooms

module _ {D : Type 0} where
  -- A use of a session after it was deleted is a fault.
  unfoldable pub get_user_id : ℕ → World D → Outcome Text
  get_user_id s w = if w.alive s then ok (w.user_id s) else fault

  unfoldable pub get_room_id : ℕ → World D → Outcome ℕ
  get_room_id s w = if w.alive s then ok (w.room_id s) else fault

  unfoldable pub set_room_id : ℕ → ℕ → World D → Outcome (World D)
  set_room_id s id w =
      if w.alive s
      then ok (record w { room_id = λ t. if t == s then id else w.room_id t })
      else fault

  unfoldable pub set_user_id : ℕ → Text → World D → Outcome (World D)
  set_user_id s id w =
      if w.alive s
      then ok (record w { user_id = λ t. if t == s then id else w.user_id t })
      else fault

  unfoldable pub send : ℕ → Message → World D → Outcome (World D)
  send s m w = if w.alive s then ok (record w { events = w.events ++ (sent s m ∷ []) }) else fault

  -- A method of a room that is no longer in the map is called on a deleted object.
  unfoldable pub room_at : ℕ → World D → Outcome Room
  room_at key w = or_fault (find_room key w.rooms)

  unfoldable pub set_room : ℕ → Room → World D → World D
  set_room key room w = record w { rooms = put_room key room w.rooms }

  unfoldable pub remove_room : ℕ → World D → World D
  remove_room id w = record w { rooms = erase_room id w.rooms }

  -- The `lock_guard` of a room's method goes out of scope: it unlocks the mutex in the room, which
  -- was destroyed if the room is no longer in the map.
  unfoldable pub unlock_room : ℕ → World D → World D
  unlock_room key w = elim (find_room key w.rooms) [
    | none ↦ record w { events = w.events ++ (unlock_freed key ∷ []) }
    | some r ↦ w
  ]

  -- RoomManager::GetRoom(int): whether the result is not null.
  unfoldable pub get_room : ℕ → World D → Option ℕ
  get_room id w = elim (find_room id w.rooms) [ none ↦ none | some r ↦ some id ]

  -- `(*_sessions.begin())->GetUserId()`, at a set that is not empty.
  unfoldable pub first_user_id : List ℕ → World D → Outcome Text
  first_user_id [] w = fault
  first_user_id (s ∷ ss) w = get_user_id s w

  unfoldable pub send_update : Option ℕ → UpdateRoomInfo → List ℕ → World D → Outcome (World D)
  send_update ignored message [] w = ok w
  send_update ignored message (s ∷ ss) w =
      if is_ignored ignored s then send_update ignored message ss w else (do
        uid ← get_user_id s w
        w ← send s (update_room_info (record message { my_id = uid })) w
        send_update ignored (record message { my_id = uid }) ss w)

  unfoldable pub send_all : Message → List ℕ → World D → Outcome (World D)
  send_all message [] w = ok w
  send_all message (s ∷ ss) w = do w ← send s message w; send_all message ss w

  unfoldable pub send_game : ℕ → Text → List ℕ → World D → Outcome (World D)
  send_game ignored url [] w = ok w
  send_game ignored url (s ∷ ss) w =
      if ignored == s
      then send_game ignored url ss w
      else (do w ← send s (game_response url) w; send_game ignored url ss w)
