-- ===== src/Rooms/Lobby/Operations.antt =====
-- Every operation of Room.cpp and RoomManager.cpp, between two packets.
use yuwibo_server.Prelude.{
  map, some-injective, ℕ, zero, suc, ◌-◌, ◌<◌, ◌≡◌, ◌≢◌, refl, subst, Bool, true, false, List, [],
  ◌∷◌, none, some, Bool-cases, inl, inr, arith, ltb, ltb→lt, ltb→le, ◌==◌, length, ◌⊎◌, All,
  Outcome, ok, u32_mod,
}
use yuwibo_server.Text.{Text}
use yuwibo_server.Messages.{JoinRoomResponse}
use yuwibo_server.Database.{Driver, UserRow, get_user_info}
use yuwibo_server.Rooms.{
  World, Room, Event, Iteration, find_room, insert, erase, enter, leave, broadcast, start_game,
  create_room,
}
use yuwibo_server.Rooms.Members.{
  insert-Distinct, erase-Distinct, length-insert, length-erase, insert-All, All-perm,
}
use yuwibo_server.Rooms.Frame.{Alive, Answered, Serves, Appends}
use yuwibo_server.Rooms.Enter.{Asked, joined, enter-Entered, enter_full}
use yuwibo_server.Rooms.Leave.{remaining, leave_last, leave-Left}
use yuwibo_server.Rooms.Create.{fresh, create_room_lem, create_room_empty}
use yuwibo_server.Rooms.Broadcasts.{broadcast-Appends, start_game-Appends}
use yuwibo_server.Rooms.Lobby.{IsFine, IsConsistent, Settles, Sets-IsConsistent, Same-IsConsistent}

empty_or {ℓ} : {A : Type ℓ} (xs : List A) → (xs ≡ []) ⊎ (xs ≢ [])
empty_or [] = inl refl
empty_or (x ∷ xs) = inr (λ e. cc)

erase-All : (P : ℕ → Type 0) (s : ℕ) (xs : List ℕ) → All P xs → All P (erase s xs)
unfolding erase
erase-All P s [] h = tt
erase-All P s (x ∷ xs) h = elim (Bool-cases (x == s)) [
  | inl same ↦ rw same (erase-All P s xs h.1)
  | inr other ↦ rw other (h.0, erase-All P s xs h.1)
]

module _ (d : Driver) (it : Iteration) (serves : Serves d) where
  -- The users of these sessions are named.
  abbrev pub Named : List ℕ → World d.State → Type 0
  Named ss w = All (λ s. serves.named (w.user_id s) w.database) ss

  map-All :
      (P : Text → Type 0) (f : ℕ → Text) (ss : List ℕ) → All (λ s. P (f s)) ss → All P (map f ss)
  map-All P f [] h = tt
  map-All P f (s ∷ ss) h = (h.0, map-All P f ss h.1)

  asks :
      (members : List ℕ) (w : World d.State) (st : d.State)
      → All (λ s. serves.named (w.user_id s) st) members
      → (rows : List UserRow) × (st' : d.State) × Asked d it members w st rows st'
        × ((v : Text) → serves.named v st → serves.named v st')
  asks members w st names = serves.answers (map w.user_id (it.sessions members)) st (
      map-All (λ v. serves.named v st) w.user_id (it.sessions members)
        (All-perm (λ s. serves.named (w.user_id s) st) (it.sessions-perm members) names))

  still_named :
      (w : World d.State) (st : d.State) (ss : List ℕ)
      → ((v : Text) → serves.named v w.database → serves.named v st)
      → Named ss w
      → All (λ s. serves.named (w.user_id s) st) ss
  still_named w st [] k h = tt
  still_named w st (s ∷ ss) k h = (k (w.user_id s) h.0, still_named w st ss k h.1)

  joined-IsFine :
      (key session : ℕ) (room : Room) (w : World d.State)
      → IsFine w.alive key room
      → length room.sessions < room.info.max_player_count
      → w.alive session ≡ true
      → IsFine w.alive key (joined session room)
  joined-IsFine key session room w f free alive = record {
    own = f.own;
    members = insert-All (λ s. w.alive s ≡ true) session room.sessions alive f.members;
    once = insert-Distinct session room.sessions f.once;
    fits = omega (arith, length-insert session room.sessions);
  }

  pub enter-Settles :
      (key : ℕ) (response : JoinRoomResponse) (session : ℕ) (room : Room) (w : World d.State)
      → find_room key w.rooms ≡ some room
      → IsConsistent w
      → w.alive session ≡ true
      → Named (session ∷ room.sessions) w
      → (entered : Bool) × (response' : JoinRoomResponse) × (w' : World d.State) × (enter d it key
            response session w
          ≡ ok (entered, response', w'))
        × IsConsistent w'
        × (w'.alive ≡ w.alive)
  enter-Settles key response session room w found c alive names =
      let f = c.fine key room found in
      let members_named : Named (insert session room.sessions) w =
        insert-All (λ s. serves.named (w.user_id s) w.database) session room.sessions names.0
          names.1 in
      let (rows, st, answers, kept) =
        asks (insert session room.sessions) w w.database members_named in
      let (rows', st', answers', kept') =
        asks (insert session room.sessions) w st (still_named w st _ kept members_named) in
      elim (Bool-cases (ltb (length room.sessions) room.info.max_player_count)) [
        | inl free ↦
            let (response', w', e, sets, moved, good, mine, info, users, ev) =
              enter-Entered d it key response session room w rows rows' st st' found
                (ltb→lt _ _ free) alive f.members answers answers' in
            (
              true,
              response',
              w',
              e,
              Sets-IsConsistent key (some (joined session room)) w w' sets c (λ r e'.
                  subst (IsFine w.alive key) (some-injective e')
                    (joined-IsFine key session room w f (ltb→lt _ _ free) alive)),
              sets.1,
            )
        | inr full ↦ (
          false,
          record response { success = false },
          w,
          enter_full d it key response session room w found (ltb→le _ _ full),
          c,
          refl,
        )
      ]

  pub leave-Settles :
      (key session : ℕ) (room : Room) (w : World d.State)
      → find_room key w.rooms ≡ some room
      → IsConsistent w
      → w.alive session ≡ true
      → Named room.sessions w
      → Settles w (leave d it key session w)
  leave-Settles key session room w found c alive names =
      let f = c.fine key room found in
      elim (empty_or (erase session room.sessions)) [
        | inl last ↦
            let (w', e, sets, moved, ev) =
              leave_last d it key session room w found f.own last alive in
            (w', e, Sets-IsConsistent key none w w' sets c (λ r e'. cc), sets.1)
        | inr others ↦
            let stay : Alive w.alive (erase session room.sessions) =
              erase-All (λ s. w.alive s ≡ true) session room.sessions f.members in
            let (rows, st, answers, kept) = asks (erase session room.sessions) w w.database (
              erase-All (λ s. serves.named (w.user_id s) w.database) session room.sessions names) in
            let (w', e, sets, moved, users, ev) =
              leave-Left d it key session room w rows st found others alive stay answers in
            let left : IsFine w.alive key (remaining d it session room w) = record {
              own = f.own;
              members = stay;
              once = erase-Distinct session room.sessions f.once;
              fits = omega (arith, f.fits, length-erase session room.sessions);
            } in
            (
              w',
              e,
              Sets-IsConsistent key (some (remaining d it session room w)) w w' sets c
                  (λ r e'. subst (IsFine w.alive key) (some-injective e') left),
              sets.1,
            )
      ]

  Appends-Settles :
      (events : List Event) (w : World d.State) {out : Outcome (World d.State)}
      → IsConsistent w
      → Appends events w out
      → Settles w out
  Appends-Settles events w c (w', e, same, ev) = (w', e, Same-IsConsistent w w' same c, same.alive)

  one_answer :
      (u : Text) (st : d.State) (rows : List UserRow) (st' : d.State)
      → Answered d (u ∷ []) st rows st'
      → (row : UserRow) × (st₁ : d.State) × (get_user_info d u st ≡ ok (row, st₁))
  one_answer u st [] st' h = elim h [ ]
  one_answer u st (row ∷ rows) st' (st₁, answer, later) = (row, st₁, answer)

  pub broadcast-Settles :
      (key session : ℕ) (content : Text) (room : Room) (w : World d.State)
      → find_room key w.rooms ≡ some room
      → IsConsistent w
      → w.alive session ≡ true
      → serves.named (w.user_id session) w.database
      → Settles w (broadcast d it key session content w)
  broadcast-Settles key session content room w found c alive name =
      let (rows, st, answers, kept) =
        serves.answers (w.user_id session ∷ []) w.database (name, tt) in
      let (row, st₁, answer) = one_answer (w.user_id session) w.database rows st answers in
      Appends-Settles _ w c (
        broadcast-Appends d it key session content room w row st₁ found alive
          (c.fine key room found).members answer)

  pub start_game-Settles :
      (key session : ℕ) (url : Text) (room : Room) (w : World d.State)
      → find_room key w.rooms ≡ some room
      → IsConsistent w
      → Settles w (start_game d it key url session w)
  start_game-Settles key session url room w found c =
      Appends-Settles _ w c
        (start_game-Appends d it key session url room w found (c.fine key room found).members)

  fresh-IsFine :
      (alive : ℕ → Bool) (key max : ℕ) (room_name host : Text)
      → IsFine alive key (fresh key room_name max host)
  fresh-IsFine alive key max room_name host = record {
    own = refl;
    members = tt;
    once = tt;
    fits = omega arith;
  }

  pub create_room-Settles :
      (response : JoinRoomResponse) (room_name : Text) (max session : ℕ) (w : World d.State)
      → length w.rooms < u32_mod - 1
      → IsConsistent w
      → w.alive session ≡ true
      → serves.named (w.user_id session) w.database
      → (response' : JoinRoomResponse) × (w' : World d.State) × (create_room d it response room_name
            max session w
          ≡ ok (response', w'))
        × IsConsistent w'
        × (w'.alive ≡ w.alive)
  create_room-Settles response room_name zero session w small c alive name =
      let (key, w', e, free, sets) =
        create_room_empty d it response room_name session w small alive in
      (
        record response { success = false },
        w',
        e,
        Sets-IsConsistent key _ w w' sets c (λ r e'.
            subst (IsFine w.alive key) (some-injective e')
              (fresh-IsFine w.alive key 0 room_name (w.user_id session))),
        sets.1,
      )
  create_room-Settles response room_name (suc max) session w small c alive name =
      let first_named : Named (insert session []) w =
        insert-All (λ s. serves.named (w.user_id s) w.database) session [] name tt in
      let (rows, st, answers, kept) = asks (insert session []) w w.database first_named in
      let (rows', st', answers', kept') =
        asks (insert session []) w st (still_named w st _ kept first_named) in
      let (key, response', w', e, free, taken, sets, moved, good, users) =
        create_room_lem d it response room_name (suc max) session w rows rows' st st' small
          (omega arith) alive answers answers' in
      (
        response',
        w',
        e,
        Sets-IsConsistent key _ w w' sets c (λ r e'.
            subst (IsFine w.alive key) (some-injective e') (
              joined-IsFine key session (fresh key room_name (suc max) (w.user_id session)) w
                (fresh-IsFine w.alive key (suc max) room_name (w.user_id session)) (omega arith)
                alive)),
        sets.1,
      )
