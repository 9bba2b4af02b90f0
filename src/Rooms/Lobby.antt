-- ===== src/Rooms/Lobby.antt =====
-- What holds of the rooms between two packets.
pub mod Operations
use yuwibo_server.Prelude.{
  some-injective, ℕ, zero, suc, ◌-◌, ◌≤◌, ◌<◌, ◌≡◌, ◌≢◌, refl, sym, ap, subst, ◌∙◌, Bool, true,
  false, List, [], ◌∷◌, Option, none, some, Bool-cases, inl, inr, arith, ltb, ltb→lt, ltb→le, ◌==◌,
  ==_iff, if◌then◌else◌, length, ◌⊎◌, All, Outcome, ok, u32_mod,
}
use yuwibo_server.Text.{Text}
use yuwibo_server.Messages.{JoinRoomResponse}
use yuwibo_server.Database.{Driver}
use yuwibo_server.Rooms.{
  World, Room, Event, Iteration, find_room, erase, enter, leave, broadcast, start_game, create_room,
}
use yuwibo_server.Rooms.Map.{Sets}
use yuwibo_server.Rooms.Members.{
  Distinct, insert-Distinct, erase-Distinct, length-insert, length-erase, insert-All,
}
use yuwibo_server.Rooms.Frame.{Same, Alive, Serves, Appends}
use yuwibo_server.Rooms.Enter.{joined, enter-Entered, enter_full}
use yuwibo_server.Rooms.Leave.{remaining, leave_last, leave-Left}
use yuwibo_server.Rooms.Create.{fresh, create_room_lem, create_room_empty}
use yuwibo_server.Rooms.Broadcasts.{broadcast-Appends, start_game-Appends}

-- A room stands under its own number, no member was deleted or stands in it twice, and it is not
-- over its limit.
pub record IsFine (alive : ℕ → Bool) (key : ℕ) (room : Room) : Type 0 where
  pub own : room.info.id ≡ key
  pub members : Alive alive room.sessions
  pub once : Distinct room.sessions
  pub fits : length room.sessions ≤ room.info.max_player_count

pub record IsConsistent {D : Type 0} (w : World D) : Type 0 where
  pub fine : (key : ℕ) (room : Room) → find_room key w.rooms ≡ some room → IsFine w.alive key room

-- The call returns, the rooms are consistent, and no session is deleted.
abbrev pub Settles : {D : Type 0} → World D → Outcome (World D) → Type 0
Settles {D} w out = (w' : World D) × (out ≡ ok w') × IsConsistent w' × (w'.alive ≡ w.alive)

module _ {D : Type 0} where
  pub Sets-IsConsistent :
      (key : ℕ) (entry : Option Room) (w w' : World D)
      → Sets key entry w w'
      → IsConsistent w
      → ((room : Room) → entry ≡ some room → IsFine w.alive key room)
      → IsConsistent w'
  Sets-IsConsistent key entry w w' (reads, alive) c new = record {
    fine = λ j room found.
        subst (λ a. IsFine a j room) (sym alive)
          (elim (Bool-cases (key == j)) [
            | inl here ↦
                subst (λ k. IsFine w.alive k room) ((==_iff key j).0 here)
                  (new room (at_key (find_room j w.rooms) (key == j) here (sym (reads j) ∙ found)))
            | inr elsewhere ↦
                c.fine j room
                  (at_other (find_room j w.rooms) (key == j) elsewhere (sym (reads j) ∙ found))
          ]);
  }
    where
      at_key :
          {room : Room} (old : Option Room) (b : Bool)
          → b ≡ true
          → (if b then entry else old) ≡ some room
          → entry ≡ some room
      at_key old true h e = e
      at_key old false h e = cc

      at_other :
          {room : Room} (old : Option Room) (b : Bool)
          → b ≡ false
          → (if b then entry else old) ≡ some room
          → old ≡ some room
      at_other old true h e = cc
      at_other old false h e = e

  pub Same-IsConsistent : (w w' : World D) → Same w w' → IsConsistent w → IsConsistent w'
  Same-IsConsistent w w' same c = record {
    fine = λ key room found.
        subst (λ a. IsFine a key room) (sym same.alive)
          (c.fine key room (ap (find_room key) (sym same.rooms) ∙ found));
  }
