-- ===== src/Rooms/Leave.antt =====
-- `Room::Leave`: the last session takes the room with it; otherwise the others are told, and a host
-- that leaves is replaced.
use yuwibo_server.Prelude.{
  subst, ℕ, ◌≡◌, ◌≢◌, refl, sym, ap, ◌∙◌, true, false, List, [], ◌∷◌, ◌++◌, none, some, arith, ◌==◌,
  length_of_ne_nil, ==_refl, ==_false, if◌then◌else◌, length, Bool-cases, inl, inr, Outcome, ok,
  minus_one,
}
use yuwibo_server.Text.{Text, text_eq, text_eq_refl}
use yuwibo_server.Messages.{UserInfo}
use yuwibo_server.Database.{Driver, UserRow}
use yuwibo_server.Rooms.{
  unlock_freed, World, Room, Iteration, find_room, put_room, erase_room, room_at, set_room,
  set_room_id, remove_room, unlock_room, mem, erase, get_user_id, first_user_id,
  update_room_broadcast, leave,
}
use yuwibo_server.Rooms.Map.{find-put, Sets, put-Sets, erase-Sets, Sets-trans}
use yuwibo_server.Rooms.Members.{mem-erase, mem-perm, All-perm, ne-nil-perm}
use yuwibo_server.Rooms.Frame.{Alive, updates}
use yuwibo_server.Rooms.Enter.{Asked, told, room_summary, update_room_broadcast_lem}

module _ (d : Driver) (it : Iteration) where
  -- The world when the session is out of the room and nothing else is done.
  abbrev taken_out : ℕ → ℕ → Room → World d.State → World d.State
  taken_out key session room w = record w {
    rooms = put_room key (record room { sessions = erase session room.sessions }) w.rooms;
    room_id = λ t. if t == session then minus_one else w.room_id t;
  }

  unlock_gone :
      (key : ℕ) (w : World d.State)
      → find_room key w.rooms ≡ none
      → unlock_room key w ≡ record w { events = w.events ++ (unlock_freed key ∷ []) }
  unfolding unlock_room
  unlock_gone key w gone = rw (unlock_room, gone) refl

  last_steps :
      (key session : ℕ) (room : Room) (w : World d.State)
      → find_room key w.rooms ≡ some room
      → erase session room.sessions ≡ []
      → w.alive session ≡ true
      → leave d it key session w
        ≡ ok (
            unlock_room key (record (taken_out key session room w) {
              rooms = erase_room room.info.id (taken_out key session room w).rooms;
            }))
  unfolding leave room_at set_room set_room_id remove_room
  last_steps key session room w found last alive = rw (found, last, alive) refl

  -- When the last session, which is alive, leaves a room that stands in the map under its own
  -- number, the room is removed from the map, and then the mutex of the destroyed room is
  -- unlocked.
  pub leave_last :
      (key session : ℕ) (room : Room) (w : World d.State)
      → find_room key w.rooms ≡ some room
      → room.info.id ≡ key
      → erase session room.sessions ≡ []
      → w.alive session ≡ true
      → (w' : World d.State) × (leave d it key session w ≡ ok w')
        × Sets key none w w'
        × (w'.room_id session ≡ minus_one)
        × (w'.events ≡ w.events ++ (unlock_freed key ∷ []))
  leave_last key session room w found own last alive = (
    record removed { events = w.events ++ (unlock_freed key ∷ []) },
    last_steps key session room w found last alive
        ∙ ap (λ x. ok x) (unlock_gone key removed (sets.0 key ∙ rw (==_refl key) refl)),
    sets,
    rw (==_refl session) refl,
    refl,
  )
    where
      removed : World d.State
      removed = record (taken_out key session room w) {
        rooms = erase_room room.info.id (taken_out key session room w).rooms;
      }

      sets : Sets key none w removed
      sets =
          Sets-trans key _ none w (taken_out key session room w) removed
            (put-Sets key (record room { sessions = erase session room.sessions }) w
              (taken_out key session room w) refl refl)
            (erase-Sets key (taken_out key session room w) removed
              (ap (λ k. erase_room k (taken_out key session room w).rooms) own) refl)

  -- Who is the host when `leaving` has left: the first of the others, if it was the host.
  abbrev pub next_host : (ℕ → Text) → List ℕ → Text → Text → Text
  next_host user_id [] leaving host = host
  next_host user_id (s ∷ ss) leaving host = if text_eq leaving host then user_id s else host

  abbrev pub remaining : ℕ → Room → World d.State → Room
  remaining session room w = record {
    sessions = erase session room.sessions;
    info = record room.info {
      host_id =
          next_host w.user_id (it.sessions (erase session room.sessions)) (w.user_id session)
            room.info.host_id;
    };
  }

  abbrev pub Left : ℕ → ℕ → Room → List UserInfo → World d.State → Outcome (World d.State) → Type 0
  Left key session room users w out =
      (w' : World d.State) × (out ≡ ok w')
      × Sets key (some (remaining session room w)) w w'
      × (w'.room_id session ≡ minus_one)
      × (w'.user_id ≡ w.user_id)
      × (w'.events
          ≡ w.events
            ++ updates w.user_id none
                (record {
                  room = room_summary (remaining session room w);
                  users = users;
                  my_id = [];
                })
                (it.sessions (erase session room.sessions)))

  leave_steps :
      (key session : ℕ) (room : Room) (w w' : World d.State) (host : Text)
      → find_room key w.rooms ≡ some room
      → (length (erase session room.sessions) == 0) ≡ false
      → w.alive session ≡ true
      → (if text_eq (w.user_id session) room.info.host_id
          then first_user_id
              (it.sessions (erase session room.sessions))
              (taken_out key session room w)
          else ok room.info.host_id)
        ≡ ok host
      → update_room_broadcast d it key none (record (taken_out key session room w) {
        rooms =
            put_room key
              (record {
                sessions = erase session room.sessions;
                info = record room.info { host_id = host };
              })
              (taken_out key session room w).rooms;
      })
        ≡ ok w'
      → leave d it key session w ≡ ok (unlock_room key w')
  unfolding leave room_at set_room set_room_id get_user_id
  leave_steps key session room w w' host found some_left alive chosen e =
      rw (found, alive, some_left, alive, chosen, e) refl

  unlock_kept :
      (key : ℕ) (room : Room) (w : World d.State)
      → find_room key w.rooms ≡ some room
      → unlock_room key w ≡ w
  unfolding unlock_room
  unlock_kept key room w found = rw (unlock_room, found) refl

  chosen_host :
      (members : List ℕ) (leaving host : Text) (w : World d.State)
      → members ≢ []
      → Alive w.alive members
      → (if text_eq leaving host then first_user_id members w else ok host)
        ≡ ok (next_host w.user_id members leaving host)
  unfolding first_user_id get_user_id
  chosen_host [] leaving host w ne alive = absurd (ne refl)
  chosen_host (s ∷ ss) leaving host w ne alive = ground arith

  -- When others stay, they and the session are alive, and GetUserInfo returns for their users, one
  -- behind the other, Leave takes the session out of a room in the map, clears its room number,
  -- replaces a host that left by the first of the others, and sends each of the others the update
  -- with those users whose query found a name, under that name; no other room changes.
  pub leave-Left :
      (key session : ℕ) (room : Room) (w : World d.State) (rows : List UserRow) (st : d.State)
      → find_room key w.rooms ≡ some room
      → erase session room.sessions ≢ []
      → w.alive session ≡ true
      → Alive w.alive (erase session room.sessions)
      → Asked d it (erase session room.sessions) w w.database rows st
      → Left key session room
          (told d it (erase session room.sessions) w rows)
          w
          (leave d it key session w)
  leave-Left key session room w rows st found ne alive all answers =
      let (w', e, same, ev) =
        update_room_broadcast_lem d it key none (remaining session room w) w₁ rows st there all
          answers in
      (
        w',
        leave_steps key session room w w' _ found
              (length_of_ne_nil (erase session room.sessions) ne) alive
              (chosen_host (it.sessions (erase session room.sessions)) _ _
                (taken_out key session room w)
                (ne-nil-perm (it.sessions-perm (erase session room.sessions)) ne) all')
              e
            ∙ ap (λ x. ok x)
                (unlock_kept key (remaining session room w) w'
                  (ap (find_room key) same.rooms ∙ there)),
        Sets-trans key _ (some (remaining session room w)) w (taken_out key session room w) w'
            (put-Sets key (record room { sessions = erase session room.sessions }) w
              (taken_out key session room w) refl refl)
            (put-Sets key (remaining session room w) (taken_out key session room w) w' same.rooms
              same.alive),
        rw (same.room_id, ==_refl session) refl,
        same.user_id,
        ev,
      )
    where
      all' : Alive w.alive (it.sessions (erase session room.sessions))
      all' = All-perm (λ s. w.alive s ≡ true) (it.sessions-perm (erase session room.sessions)) all

      w₁ : World d.State
      w₁ = record (taken_out key session room w) {
        rooms = put_room key (remaining session room w) (taken_out key session room w).rooms;
      }

      there : find_room key w₁.rooms ≡ some (remaining session room w)
      there =
          rw
            (
              find-put key key (remaining session room w) (taken_out key session room w).rooms,
              ==_refl key,
            )
            refl

  -- Some session in the room has the host's identifier.
  abbrev pub HasHost : (ℕ → Text) → Room → Type 0
  HasHost user_id room = (s : ℕ) × (mem s room.sessions ≡ true) × (user_id s ≡ room.info.host_id)

  next_host-mem :
      (user_id : ℕ → Text) (members : List ℕ) (leaving host : Text)
      → members ≢ []
      → text_eq leaving host ≡ true
      → (s : ℕ) × (mem s members ≡ true) × (user_id s ≡ next_host user_id members leaving host)
  unfolding mem
  next_host-mem user_id [] leaving host ne e = absurd (ne refl)
  next_host-mem user_id (s ∷ ss) leaving host ne e = (s, rw ==_refl refl, rw e refl)

  next_host_same :
      (user_id : ℕ → Text) (members : List ℕ) (leaving host : Text)
      → text_eq leaving host ≡ false
      → next_host user_id members leaving host ≡ host
  next_host_same user_id [] leaving host e = refl
  next_host_same user_id (s ∷ ss) leaving host e = rw e refl

  remaining-HasHost :
      (session : ℕ) (room : Room) (w : World d.State)
      → erase session room.sessions ≢ []
      → HasHost w.user_id room
      → HasHost w.user_id (remaining session room w)
  remaining-HasHost session room w ne (s, here, same) =
      elim (Bool-cases (text_eq (w.user_id session) room.info.host_id)) [
        | inl host_left ↦
            let (t, m, e) =
              next_host-mem w.user_id (it.sessions members) (w.user_id session) room.info.host_id
                (ne-nil-perm (it.sessions-perm members) ne) host_left in
            (t, sym (mem-perm t (it.sessions-perm members)) ∙ m, e)
        | inr other_left ↦ (
          s,
          rw (mem-erase session s room.sessions) (rw (differs s same other_left, here) refl),
          same ∙ sym (next_host_same w.user_id (it.sessions members) _ _ other_left),
        )
      ]
    where
      members : List ℕ
      members = erase session room.sessions

      differs :
          (s : ℕ)
          → w.user_id s ≡ room.info.host_id
          → text_eq (w.user_id session) room.info.host_id ≡ false
          → (session == s) ≡ false
      differs s same other_left =
          ==_false session s (λ e. cc (text_eq_refl room.info.host_id, ap w.user_id e))

  -- The room in the map after the call has a host among its members.
  abbrev pub StillHosted : ℕ → Outcome (World d.State) → Type 0
  StillHosted key out =
      (w' : World d.State) × (out ≡ ok w')
      × (room' : Room) × (find_room key w'.rooms ≡ some room')
      × HasHost w'.user_id room'

  -- If some member of a room in the map has the host's identifier, others stay, they and the
  -- session are alive, and GetUserInfo returns for their users, then Leave returns, and some
  -- member of the room that stands in the map under this number has its host's identifier.
  pub leave-StillHosted :
      (key session : ℕ) (room : Room) (w : World d.State) (rows : List UserRow) (st : d.State)
      → find_room key w.rooms ≡ some room
      → erase session room.sessions ≢ []
      → w.alive session ≡ true
      → Alive w.alive (erase session room.sessions)
      → Asked d it (erase session room.sessions) w w.database rows st
      → HasHost w.user_id room
      → StillHosted key (leave d it key session w)
  leave-StillHosted key session room w rows st found ne alive all answers host =
      let (w', e, sets, moved, users, ev) =
        leave-Left key session room w rows st found ne alive all answers in
      (
        w',
        e,
        remaining session room w,
        sets.0 key ∙ rw (==_refl key) refl,
        subst (λ f. HasHost f (remaining session room w)) (sym users)
            (remaining-HasHost session room w ne host),
      )
