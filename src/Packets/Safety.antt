-- ===== src/Packets/Safety.antt =====
-- Every handler of PacketHandler.cpp returns, on a message of its type, and keeps the rooms
-- consistent.
use yuwibo_server.Prelude.{
  All, ℕ, ◌-◌, ◌<◌, ◌≡◌, refl, ◌∙◌, Bool, true, false, [], ◌∷◌, ◌++◌, none, some, Option-cases, inl,
  inr, ◌==◌, if◌then◌else◌, length, ◌⊎◌, Outcome, ok, ◌>>=◌, u32_mod,
}
use yuwibo_server.Text.{Text}
use yuwibo_server.Messages.{
  ErrorCode, JoinRoomResponse, new_join_room_response, join_room_response, find_room_response,
  signin_response, register_response, pong, Message, signin_request, signup_request,
  register_request, create_room_request, find_room_request, join_room_request, leave_room_request,
  broadcast_request, game_request,
}
use yuwibo_server.Database.{Driver, join_membership, user_name_register}
use yuwibo_server.Rooms.{
  World, Room, sent, Iteration, find_room, get_room, get_room_id, set_user_id, send, leave,
  broadcast, start_game, get_rooms,
}
use yuwibo_server.Rooms.Frame.{get_user_id_alive}
use yuwibo_server.Rooms.Lobby.{IsConsistent, Settles}
use yuwibo_server.Rooms.Lobby.Operations.{
  enter-Settles, leave-Settles, broadcast-Settles, start_game-Settles, create_room-Settles,
}
use yuwibo_server.Packets.Handlers.{
  on_ping, on_nothing, on_signin_request, on_signup_request, on_register_request,
  on_create_room_request, on_find_room_request, on_join_room_request, on_leave_room_request,
  on_broadcast_request, on_game_request,
}
use yuwibo_server.Packets.Rows.{HasRows, rows_serve, login-Assigns}

module _ {D : Type 0} where
  get_room_missing : (id : ℕ) (w : World D) → find_room id w.rooms ≡ none → get_room id w ≡ none
  unfolding get_room
  get_room_missing id w e = rw (get_room, e) refl

  get_room_there :
      (id : ℕ) (room : Room) (w : World D)
      → find_room id w.rooms ≡ some room
      → get_room id w ≡ some id
  unfolding get_room
  get_room_there id room w e = rw (get_room, e) refl

  bind-Settles :
      (w : World D) (out : Outcome (World D)) {k : World D → Outcome (World D)}
      → Settles w out
      → ((w' : World D) → IsConsistent w' → w'.alive ≡ w.alive → Settles w' (k w'))
      → Settles w (out >>= k)
  bind-Settles w out (w', e, c, alive) next =
      let (w'', e', c', alive') = next w' c alive in (w'', rw e e', c', alive' ∙ alive)

  send-Settles :
      (s : ℕ) (m : Message) (w : World D)
      → IsConsistent w
      → w.alive s ≡ true
      → Settles w (send s m w)
  unfolding send
  send-Settles s m w c alive = (
    record w { events = w.events ++ (sent s m ∷ []) },
    rw alive refl,
    record { fine = c.fine },
    refl,
  )

module _ (d : Driver) (it : Iteration) (rows : HasRows d) where
  -- The user of the session, and those of the sessions in the rooms, are named.
  abbrev pub Ready : ℕ → World d.State → Type 0
  Ready s w =
      rows.named (w.user_id s) w.database
      × ((key : ℕ) (room : Room)
          → find_room key w.rooms ≡ some room
          → All (λ t. rows.named (w.user_id t) w.database) room.sessions)

  -- A handler returns and keeps the rooms consistent; `asking` is whether it needs names.
  abbrev pub IsSafe : Bool → (World d.State → Outcome (World d.State)) → ℕ → Type 0
  IsSafe asking h s =
      (w : World d.State)
      → IsConsistent w
      → w.alive s ≡ true
      → length w.rooms < u32_mod - 1
      → (asking ≡ true → Ready s w)
      → Settles w (h w)

  pub on_ping-IsSafe : (s : ℕ) (m : Message) → IsSafe false (on_ping d it s m) s
  unfolding on_ping
  on_ping-IsSafe s m w c alive small ready = send-Settles s (pong w.clock) w c alive

  pub on_nothing-IsSafe : (s : ℕ) (m : Message) → IsSafe false (on_nothing d it s m) s
  unfolding on_nothing
  on_nothing-IsSafe s m w c alive small ready = (w, refl, c, refl)

  pub on_signin_request-IsSafe :
      (s : ℕ) (uid password : Text)
      → IsSafe false (on_signin_request d it s (signin_request uid password)) s
  unfolding on_signin_request set_user_id
  on_signin_request-IsSafe s uid password w c alive small ready =
      let (success, err, st, e) = login-Assigns d rows uid password w.database in
      rw e (answer success err st)
    where
      answer :
          (success : Bool) (err : ErrorCode) (st : d.State)
          → Settles w (
              (if success
                then set_user_id s uid (record w { database = st })
                else ok (record w { database = st }))
              >>= λ w'. send s (signin_response success err) w')
      answer true err st = rw alive (
          let (w', e, c', a) =
            send-Settles s (signin_response true err)
              (record w { database = st; user_id = λ t. if t == s then uid else w.user_id t })
              (record { fine = c.fine }) alive in
          (w', e, c', a))
      answer false err st =
          let (w', e, c', a) =
            send-Settles s (signin_response false err) (record w { database = st })
              (record { fine = c.fine }) alive in
          (w', e, c', a)

  pub on_signup_request-IsSafe :
      (s : ℕ) (uid password : Text)
      → IsSafe false (on_signup_request d it s (signup_request uid password)) s
  unfolding on_signup_request
  on_signup_request-IsSafe s uid password w c alive small ready =
      send-Settles s _ (record w { database = (join_membership d uid password w.database).1 })
        (record { fine = c.fine }) alive

  pub on_register_request-IsSafe :
      (s : ℕ) (name : Text) → IsSafe false (on_register_request d it s (register_request name)) s
  unfolding on_register_request
  on_register_request-IsSafe s name w c alive small ready = rw (get_user_id_alive s w alive) (
      send-Settles s register_response
        (record w { database = (user_name_register d name (w.user_id s) w.database).1 })
        (record { fine = c.fine }) alive)

  pub on_create_room_request-IsSafe :
      (s : ℕ) (name : Text) (max : ℕ)
      → IsSafe true (on_create_room_request d it s (create_room_request name max)) s
  unfolding on_create_room_request
  on_create_room_request-IsSafe s name max w c alive small ready =
      let (response, w', e, c', a) =
        create_room-Settles d it (rows_serve d rows) new_join_room_response name max s w small c
          alive (ready refl).0 in
      let (w'', e', c'', a') = send-Settles s (join_room_response response) w' c' (rw a alive) in
      (w'', rw e e', c'', a' ∙ a)

  pub on_find_room_request-IsSafe :
      (s : ℕ) (name : Text) → IsSafe false (on_find_room_request d it s (find_room_request name)) s
  unfolding on_find_room_request
  on_find_room_request-IsSafe s name w c alive small ready =
      send-Settles s (find_room_response (get_rooms d it name w)) w c alive

  pub on_join_room_request-IsSafe :
      (s id : ℕ) → IsSafe true (on_join_room_request d it s (join_room_request id)) s
  unfolding on_join_room_request
  on_join_room_request-IsSafe s id w c alive small ready =
      elim (Option-cases (find_room id w.rooms)) [
        | inl missing ↦
            rw (on_join_room_request, get_room_missing id w missing) (send-Settles s _ w c alive)
        | inr (room, found) ↦
            let (entered, response, w', e, c', a) =
              enter-Settles d it (rows_serve d rows) id new_join_room_response s room w found c
                alive ((ready refl).0, (ready refl).1 id room found) in
            rw (on_join_room_request, get_room_there id room w found, e)
              (answer entered response w' c' a)
      ]
    where
      answer :
          (entered : Bool) (response : JoinRoomResponse) (w' : World d.State)
          → IsConsistent w'
          → w'.alive ≡ w.alive
          → Settles w (
              if entered
              then send s (join_room_response (record response { success = true })) w'
              else send s (join_room_response (record response { success = false })) w')
      answer true response w' c' a =
          let (w'', e, c'', a') = send-Settles s _ w' c' (rw a alive) in (w'', e, c'', a' ∙ a)
      answer false response w' c' a =
          let (w'', e, c'', a') = send-Settles s _ w' c' (rw a alive) in (w'', e, c'', a' ∙ a)

  pub on_leave_room_request-IsSafe :
      (s : ℕ) (name : Text) → IsSafe true (on_leave_room_request d it s (leave_room_request name)) s
  unfolding on_leave_room_request get_room_id
  on_leave_room_request-IsSafe s name w c alive small ready = rw alive (
      bind-Settles w _ (left (Option-cases (find_room (w.room_id s) w.rooms))) (λ w' c' a.
        send-Settles s (find_room_response (get_rooms d it name w')) w' c' (rw a alive)))
    where
      left :
          (find_room (w.room_id s) w.rooms ≡ none)
            ⊎ ((r : Room) × (find_room (w.room_id s) w.rooms ≡ some r))
          → Settles w
              (elim (get_room (w.room_id s) w) [ none ↦ ok w | some key ↦ leave d it key s w ])
      left (inl missing) = rw (get_room_missing _ w missing) (w, refl, c, refl)
      left (inr (room, found)) = rw (get_room_there _ room w found) (
          leave-Settles d it (rows_serve d rows) (w.room_id s) s room w found c alive
            ((ready refl).1 (w.room_id s) room found))

  pub on_broadcast_request-IsSafe :
      (s : ℕ) (content : Text)
      → IsSafe true (on_broadcast_request d it s (broadcast_request content)) s
  unfolding on_broadcast_request get_room_id
  on_broadcast_request-IsSafe s content w c alive small ready =
      rw alive (in_room (Option-cases (find_room (w.room_id s) w.rooms)))
    where
      in_room :
          (find_room (w.room_id s) w.rooms ≡ none)
            ⊎ ((r : Room) × (find_room (w.room_id s) w.rooms ≡ some r))
          → Settles w (elim (get_room (w.room_id s) w) [
            | none ↦ ok w
            | some key ↦ broadcast d it key s content w
          ])
      in_room (inl missing) = rw (get_room_missing _ w missing) (w, refl, c, refl)
      in_room (inr (room, found)) = rw (get_room_there _ room w found) (
          broadcast-Settles d it (rows_serve d rows) (w.room_id s) s content room w found c alive
            (ready refl).0)

  pub on_game_request-IsSafe :
      (s : ℕ) (url : Text) → IsSafe false (on_game_request d it s (game_request url)) s
  unfolding on_game_request get_room_id
  on_game_request-IsSafe s url w c alive small ready =
      rw alive (in_room (Option-cases (find_room (w.room_id s) w.rooms)))
    where
      in_room :
          (find_room (w.room_id s) w.rooms ≡ none)
            ⊎ ((r : Room) × (find_room (w.room_id s) w.rooms ≡ some r))
          → Settles w (elim (get_room (w.room_id s) w) [
            | none ↦ ok w
            | some key ↦ start_game d it key url s w
          ])
      in_room (inl missing) = rw (get_room_missing _ w missing) (w, refl, c, refl)
      in_room (inr (room, found)) =
          rw (get_room_there _ room w found)
            (start_game-Settles d it (rows_serve d rows) (w.room_id s) s url room w found c)
