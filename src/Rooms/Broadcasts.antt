-- ===== src/Rooms/Broadcasts.antt =====
-- `Room::Broadcast` and `Room::StartGame`: who is sent what.
use yuwibo_server.Prelude.{
  ℕ, ◌≡◌, refl, true, if◌then◌else◌, Bool-cases, inl, inr, [], some, ok, sym, append-nil,
}
use yuwibo_server.Text.{Text}
use yuwibo_server.Messages.{broadcast_response, game_response}
use yuwibo_server.Database.{Driver, UserRow, get_user_info}
use yuwibo_server.Rooms.{World, Room, Iteration, find_room, room_at, broadcast, start_game}
use yuwibo_server.Rooms.Members.{All-perm}
use yuwibo_server.Rooms.Frame.{
  Same, Alive, Appends, to_all, to_others, get_user_id_alive, send_all-Appends, send_game-Appends,
}

module _ (d : Driver) (it : Iteration) where
  -- In a room in the map, whose members and the speaker are alive, a chat message goes once to
  -- every member, the speaker included, under the speaker's name and without an identifier, if the
  -- query for the speaker finds one; if it finds none, nobody is sent anything; the sessions and
  -- the rooms stay as they are.
  pub broadcast-Appends :
      (key session : ℕ) (content : Text) (room : Room) (w : World d.State) (row : UserRow)
      (st : d.State)
      → find_room key w.rooms ≡ some room
      → w.alive session ≡ true
      → Alive w.alive room.sessions
      → get_user_info d (w.user_id session) w.database ≡ ok (row, st)
      → Appends
          (if row.success
            then to_all
                (broadcast_response (record { user_id = []; user_name = row.user_name }) content)
                (it.sessions room.sessions)
            else [])
          w
          (broadcast d it key session content w)
  unfolding broadcast room_at
  broadcast-Appends key session content room w row st found alive all answer =
      elim (Bool-cases row.success) [
        | inl known ↦
            let (w', e, same, ev) =
              send_all-Appends
                (broadcast_response (record { user_id = []; user_name = row.user_name }) content)
                (it.sessions room.sessions) (record w { database = st })
                (All-perm (λ s. w.alive s ≡ true) (it.sessions-perm room.sessions) all) in
            (
              w',
              rw (found, get_user_id_alive session w alive, answer, known) e,
              as_asked w' same,
              rw known ev,
            )
        | inr unknown ↦ (
          record w { database = st },
          rw (found, get_user_id_alive session w alive, answer, unknown) refl,
          record { alive = refl; user_id = refl; room_id = refl; rooms = refl },
          rw unknown (sym (append-nil w.events)),
        )
      ]
    where
      as_asked : (w' : World d.State) → Same (record w { database = st }) w' → Same w w'
      as_asked w' same = record {
        alive = same.alive;
        user_id = same.user_id;
        room_id = same.room_id;
        rooms = same.rooms;
      }

  -- If all members of a room in the map are alive, StartGame sends the address once to every
  -- member but the one that asked; the sessions and the rooms stay as they are.
  pub start_game-Appends :
      (key session : ℕ) (url : Text) (room : Room) (w : World d.State)
      → find_room key w.rooms ≡ some room
      → Alive w.alive room.sessions
      → Appends
          (to_others session (game_response url) (it.sessions room.sessions))
          w
          (start_game d it key url session w)
  unfolding start_game room_at
  start_game-Appends key session url room w found all =
      let (w', e, same, ev) =
        send_game-Appends session url (it.sessions room.sessions) w
          (All-perm (λ s. w.alive s ≡ true) (it.sessions-perm room.sessions) all) in
      (w', rw found e, same, ev)
