-- ===== src/Rooms/Enter.antt =====
-- `Room::Enter`, `RoomManager::CreateRoom` and the broadcasts to a room.
use yuwibo_server.Prelude.{
  ℕ, ◌+◌, ◌%◌, ◌≤◌, ◌<◌, ◌≡◌, refl, sym, Bool, true, false, List, [], ◌++◌, append-nil, Option,
  some, arith, ltb, ◌==◌, ==_refl, le→ltb, lt→ltb, if◌then◌else◌, length, map, Bool-cases, inl, inr,
  Outcome, ok, u32_mod,
}
use yuwibo_server.Messages.{RoomInfo, UserInfo, JoinRoomResponse, no_room, no_error}
use yuwibo_server.Database.{Driver, UserRow}
use yuwibo_server.Rooms.{
  Event, World, Room, Iteration, find_room, put_room, room_at, set_room, set_room_id, insert,
  get_user_id, update_room_broadcast, add_users, enter,
}
use yuwibo_server.Rooms.Map.{find-put, Sets, put-Sets}
use yuwibo_server.Rooms.Members.{All-perm, insert-All}
use yuwibo_server.Rooms.Frame.{
  Same-trans, Alive, Answered, found_users, Appends, updates, send_update-Appends, add_users_lem,
}

-- What every client is told of a room: never its host.
abbrev pub room_summary : Room → RoomInfo
room_summary room = record no_room {
  id = room.info.id;
  room_name = room.info.room_name;
  current_player_count = length room.sessions % u32_mod;
  max_player_count = room.info.max_player_count;
}

-- The room after a session came in.
abbrev pub joined : ℕ → Room → Room
joined session room = record room { sessions = insert session room.sessions }

module _ (d : Driver) (it : Iteration) where
  -- GetUserInfo for each of these sessions' users, in the order in which the set is gone through.
  abbrev pub Asked : List ℕ → World d.State → d.State → List UserRow → d.State → Type 0
  Asked members w = Answered d (map w.user_id (it.sessions members))

  -- What the answers tell of the users of these sessions.
  abbrev pub told : List ℕ → World d.State → List UserRow → List UserInfo
  told members w = found_users (map w.user_id (it.sessions members))

  -- If all members of a room in the map are alive and GetUserInfo returns for their users, one
  -- behind the other, UpdateRoomBroadcast sends each member but the ignored one an update with the
  -- room and those users whose query found a name, under that name, with the member's own
  -- identifier and without the host; the sessions and the rooms stay as they are.
  pub update_room_broadcast_lem :
      (key : ℕ) (ignored : Option ℕ) (room : Room) (w : World d.State) (rows : List UserRow)
      (st : d.State)
      → find_room key w.rooms ≡ some room
      → Alive w.alive room.sessions
      → Asked room.sessions w w.database rows st
      → Appends
          (updates w.user_id ignored
            (record { room = room_summary room; users = told room.sessions w rows; my_id = [] })
            (it.sessions room.sessions))
          w
          (update_room_broadcast d it key ignored w)
  unfolding update_room_broadcast room_at
  update_room_broadcast_lem key ignored room w rows st found alive answers =
      let asked : World d.State = record w { database = st } in
      let (w₂, e₂, same₂, ev₂) =
        send_update-Appends ignored
          (record { room = room_summary room; users = told room.sessions w rows; my_id = [] })
          (it.sessions room.sessions) asked all in
      (
        w₂,
        rw (found, add_users_lem d (it.sessions room.sessions) w rows st all answers) e₂,
        Same-trans (record { alive = refl; user_id = refl; room_id = refl; rooms = refl }) same₂,
        ev₂,
      )
    where
      all : Alive w.alive (it.sessions room.sessions)
      all = All-perm (λ s. w.alive s ≡ true) (it.sessions-perm room.sessions) alive

  -- What the other members of the room are sent.
  abbrev pub announced : ℕ → Room → List UserInfo → World d.State → List Event
  announced session room users w =
      if ltb 1 (length room.sessions)
      then updates w.user_id (some session)
          (record { room = room_summary room; users = users; my_id = [] })
          (it.sessions room.sessions)
      else []

  -- The outcome of a successful call, given the users that the response gains and those that the
  -- others are told.
  abbrev pub Entered :
      ℕ
      → Room
      → ℕ
      → List UserInfo
      → List UserInfo
      → JoinRoomResponse
      → World d.State
      → Outcome (Bool × JoinRoomResponse × World d.State)
      → Type 0
  Entered key room session users others before w out =
      (response : JoinRoomResponse) × (w' : World d.State) × (out ≡ ok (true, response, w'))
      × Sets key (some (joined session room)) w w'
      × (w'.room_id session ≡ room.info.id)
      × (response.success ≡ true)
      × (response.my_id ≡ w.user_id session)
      × (response.room
          ≡ record (room_summary (joined session room)) { host_id = room.info.host_id })
      × (response.users ≡ before.users ++ users)
      × (w'.events ≡ w.events ++ announced session (joined session room) others w)

  -- The world when the session stands in the room and nothing is sent yet.
  abbrev placed : ℕ → ℕ → Room → World d.State → World d.State
  placed key session room w = record w {
    rooms = put_room key (joined session room) w.rooms;
    room_id = λ t. if t == session then room.info.id else w.room_id t;
  }

  -- The response to the session itself.
  abbrev welcome : ℕ → Room → List UserInfo → JoinRoomResponse → World d.State → JoinRoomResponse
  welcome session room users response w = record {
    success = true;
    error_code = no_error;
    room = record (room_summary (joined session room)) { host_id = room.info.host_id };
    users = response.users ++ users;
    my_id = w.user_id session;
  }

  -- `Enter` step by step, given what its two loops do.
  enter_steps :
      (key : ℕ) (response : JoinRoomResponse) (session : ℕ) (room : Room) (w w₁ w₂ : World d.State)
      (users : List UserInfo)
      → find_room key w.rooms ≡ some room
      → ltb room.info.max_player_count (length room.sessions + 1) ≡ false
      → w.alive session ≡ true
      → add_users d (it.sessions (insert session room.sessions)) (placed key session room w)
        ≡ ok (users, w₁)
      → (if ltb 1 (length (insert session room.sessions))
          then update_room_broadcast d it key (some session) w₁
          else ok w₁)
        ≡ ok w₂
      → enter d it key response session w ≡ ok (true, welcome session room users response w, w₂)
  unfolding enter room_at set_room set_room_id get_user_id
  enter_steps key response session room w w₁ w₂ users found room_left alive e₁ e₂ =
      rw (found, room_left, alive, e₁, e₂, alive) refl

  -- If a room in the map has a free place, the session and all members are alive, and GetUserInfo
  -- returns for the users of all members, the new one included, one behind the other and then once
  -- more, Enter takes the session in: the room's set gains it, its room number is set; the
  -- response tells it the room, the host, its own identifier, and each member whose query found a
  -- name, under that name; each other member, and nobody else, is sent one update with the users
  -- that the second queries found; no other room changes.
  pub enter-Entered :
      (key : ℕ) (response : JoinRoomResponse) (session : ℕ) (room : Room) (w : World d.State)
      (rows rows' : List UserRow) (st st' : d.State)
      → find_room key w.rooms ≡ some room
      → length room.sessions < room.info.max_player_count
      → w.alive session ≡ true
      → Alive w.alive room.sessions
      → Asked (insert session room.sessions) w w.database rows st
      → Asked (insert session room.sessions) w st rows' st'
      → Entered key room session
          (told (insert session room.sessions) w rows)
          (told (insert session room.sessions) w rows')
          response
          w
          (enter d it key response session w)
  enter-Entered key response session room w rows rows' st st' found free alive others_alive answers
        answers' =
      let members : List ℕ = insert session room.sessions in
      let room_left : ltb room.info.max_player_count (length room.sessions + 1) ≡ false =
        le→ltb _ _ (omega arith) in
      let users : List UserInfo = told members w rows in
      let w₁ : World d.State = record (placed key session room w) { database = st } in
      let e₁ =
        add_users_lem d (it.sessions members) (placed key session room w) rows st all answers in
      let there : find_room key w₁.rooms ≡ some (joined session room) =
        rw (find-put key key (joined session room) w.rooms, ==_refl key) refl in
      let moved : w₁.room_id session ≡ room.info.id = rw (==_refl session) refl in
      elim (Bool-cases (ltb 1 (length members))) [
        | inl others ↦
            let (w₂, e₂, same₂, ev₂) =
              update_room_broadcast_lem key (some session) (joined session room) w₁ rows' st' there
                members_alive answers' in
            (
              welcome session room users response w,
              w₂,
              enter_steps key response session room w w₁ w₂ users found room_left alive e₁
                  (rw others e₂),
              put-Sets key (joined session room) w w₂ same₂.rooms same₂.alive,
              rw same₂.room_id moved,
              refl,
              refl,
              refl,
              refl,
              rw others ev₂,
            )
        | inr alone ↦ (
          welcome session room users response w,
          w₁,
          enter_steps key response session room w w₁ w₁ users found room_left alive e₁
              (rw alone refl),
          put-Sets key (joined session room) w w₁ refl refl,
          moved,
          refl,
          refl,
          refl,
          refl,
          rw alone (sym (append-nil w.events)),
        )
      ]
    where
      members_alive : Alive w.alive (insert session room.sessions)
      members_alive = insert-All (λ s. w.alive s ≡ true) session room.sessions alive others_alive

      all : Alive w.alive (it.sessions (insert session room.sessions))
      all = All-perm (λ s. w.alive s ≡ true) (it.sessions-perm _) members_alive

module _ (d : Driver) (it : Iteration) where
  -- A room that is in the map and full turns every session away with the response's success
  -- cleared; the room and everything else stay as they are, and the error code keeps its default.
  pub enter_full :
      (key : ℕ) (response : JoinRoomResponse) (session : ℕ) (room : Room) (w : World d.State)
      → find_room key w.rooms ≡ some room
      → room.info.max_player_count ≤ length room.sessions
      → enter d it key response session w ≡ ok (false, record response { success = false }, w)
  unfolding enter room_at
  enter_full key response session room w found full = rw (found, lt→ltb _ _ over) refl
    where
      over : room.info.max_player_count < length room.sessions + 1
      over = omega arith
