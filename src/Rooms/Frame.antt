-- ===== src/Rooms/Frame.antt =====
-- The loops over a room's sessions: what they send, and what they leave alone.
use yuwibo_server.Prelude.{
  ℕ, ◌≡◌, refl, sym, ap, subst, ◌∙◌, Bool, true, List, [], ◌∷◌, ◌++◌, append-nil, append_assoc,
  Option, map, ◌==◌, if◌then◌else◌, All, Bool-cases, inl, inr, Outcome, ok, ◌>>=◌,
}
use yuwibo_server.Text.{Text}
use yuwibo_server.Messages.{UserInfo, UpdateRoomInfo, Message, update_room_info, game_response}
use yuwibo_server.Database.{Driver, UserRow, get_user_info}
use yuwibo_server.Rooms.{
  Event, sent, World, is_ignored, get_user_id, send, send_update, send_all, send_game, add_users,
}

-- Only the database, and what was sent, may differ.
pub record Same {D : Type 0} (w w' : World D) : Type 0 where
  pub alive : w'.alive ≡ w.alive
  pub user_id : w'.user_id ≡ w.user_id
  pub room_id : w'.room_id ≡ w.room_id
  pub rooms : w'.rooms ≡ w.rooms

pub Same-refl : {D : Type 0} (w : World D) → Same w w
Same-refl w = record { alive = refl; user_id = refl; room_id = refl; rooms = refl }

pub Same-trans : {D : Type 0} {u v w : World D} → Same u v → Same v w → Same u w
Same-trans a b = record {
  alive = b.alive ∙ a.alive;
  user_id = b.user_id ∙ a.user_id;
  room_id = b.room_id ∙ a.room_id;
  rooms = b.rooms ∙ a.rooms;
}

-- All these sessions are not yet deleted.
abbrev pub Alive : (ℕ → Bool) → List ℕ → Type 0
Alive alive = All (λ s. alive s ≡ true)

-- GetUserInfo for these users, one behind the other, returns these rows and ends in this state.
abbrev pub Answered : (d : Driver) → List Text → d.State → List UserRow → d.State → Type 0
Answered d [] st [] st' = st' ≡ st
Answered d [] st (row ∷ rows) st' = ⊥
Answered d (u ∷ us) st [] st' = ⊥
Answered d (u ∷ us) st (row ∷ rows) st' =
    (st₁ : d.State) × (get_user_info d u st ≡ ok (row, st₁)) × Answered d us st₁ rows st'

-- For users that are named, in some sense that the queries keep, GetUserInfo returns.
pub record Serves (d : Driver) : Type 1 where
  pub named : Text → d.State → Type 0
  pub answers :
      (us : List Text) (st : d.State)
      → All (λ u. named u st) us
      → (rows : List UserRow) × (st' : d.State) × Answered d us st rows st'
        × ((v : Text) → named v st → named v st')

-- The users of the queries that found a row, with the names found.
abbrev pub found_users : List Text → List UserRow → List UserInfo
found_users [] rows = []
found_users (u ∷ us) [] = []
found_users (u ∷ us) (row ∷ rows) =
    if row.success
    then record { user_id = u; user_name = row.user_name } ∷ found_users us rows
    else found_users us rows

-- What the loops append to the events, in the order of `ss`.
abbrev pub to_all : Message → List ℕ → List Event
to_all m [] = []
to_all m (s ∷ ss) = sent s m ∷ to_all m ss

abbrev pub to_others : ℕ → Message → List ℕ → List Event
to_others ignored m [] = []
to_others ignored m (s ∷ ss) =
    if ignored == s then to_others ignored m ss else sent s m ∷ to_others ignored m ss

-- Each session is told its own identifier.
abbrev pub updates : (ℕ → Text) → Option ℕ → UpdateRoomInfo → List ℕ → List Event
updates user_id ignored m [] = []
updates user_id ignored m (s ∷ ss) =
    if is_ignored ignored s
    then updates user_id ignored m ss
    else sent s (update_room_info (record m { my_id = user_id s })) ∷ updates user_id ignored m ss

updates_my_id :
    (user_id : ℕ → Text) (ignored : Option ℕ) (m : UpdateRoomInfo) (id : Text) (ss : List ℕ)
    → updates user_id ignored (record m { my_id = id }) ss ≡ updates user_id ignored m ss
updates_my_id user_id ignored m id [] = refl
updates_my_id user_id ignored m id (s ∷ ss) =
    ap
      (λ rest.
        if is_ignored ignored s
        then rest
        else sent s (update_room_info (record m { my_id = user_id s })) ∷ rest)
      (updates_my_id user_id ignored m id ss)

module _ {D : Type 0} where
  abbrev pub Appends : List Event → World D → Outcome (World D) → Type 0
  Appends events w out =
      (w' : World D) × (out ≡ ok w') × Same w w' × (w'.events ≡ w.events ++ events)

  send-Appends :
      (s : ℕ) (m : Message) (w : World D)
      → w.alive s ≡ true
      → Appends (sent s m ∷ []) w (send s m w)
  unfolding send
  send-Appends s m w h = (
    record w { events = w.events ++ (sent s m ∷ []) },
    rw h,
    record { alive = refl; user_id = refl; room_id = refl; rooms = refl },
    refl,
  )

  Appends-then :
      {w : World D} {first : Outcome (World D)} (e f : List Event) (k : World D → Outcome (World D))
      → Appends e w first
      → ((w' : World D) → Same w w' → Appends f w' (k w'))
      → Appends (e ++ f) w (first >>= k)
  Appends-then {w} e f k (w', eq, same, ev) go =
      let (w'', eq', same', ev') = go w' same in
      (w'', rw eq eq', Same-trans same same', ev' ∙ ap (λ l. l ++ f) ev ∙ append_assoc w.events e f)

  -- `Broadcast`'s loop sends one copy to each session.
  pub send_all-Appends :
      (m : Message) (ss : List ℕ) (w : World D)
      → Alive w.alive ss
      → Appends (to_all m ss) w (send_all m ss w)
  unfolding send_all
  send_all-Appends m [] w h = (w, refl, Same-refl w, sym (append-nil w.events))
  send_all-Appends m (s ∷ ss) w h =
      Appends-then (sent s m ∷ []) (to_all m ss) (send_all m ss) (send-Appends s m w h.0)
        (λ w' same. send_all-Appends m ss w' (rw same.alive h.1))

  -- `StartGame`'s loop leaves out the session that asked.
  pub send_game-Appends :
      (ignored : ℕ) (url : Text) (ss : List ℕ) (w : World D)
      → Alive w.alive ss
      → Appends (to_others ignored (game_response url) ss) w (send_game ignored url ss w)
  unfolding send_game
  send_game-Appends ignored url [] w h = (w, refl, Same-refl w, sym (append-nil w.events))
  send_game-Appends ignored url (s ∷ ss) w h = elim (Bool-cases (ignored == s)) [
    | inl self ↦ rw self (send_game-Appends ignored url ss w h.1)
    | inr other ↦ rw other (
        Appends-then (sent s (game_response url) ∷ []) (to_others ignored (game_response url) ss)
          (send_game ignored url ss) (send-Appends s (game_response url) w h.0)
          (λ w' same. send_game-Appends ignored url ss w' (rw same.alive h.1)))
  ]

  pub get_user_id_alive :
      (s : ℕ) (w : World D) → w.alive s ≡ true → get_user_id s w ≡ ok (w.user_id s)
  unfolding get_user_id
  get_user_id_alive s w h = rw h

  -- The loop of `UpdateRoomBroadcast`; `my_id` of the message before it does not matter.
  pub send_update-Appends :
      (ignored : Option ℕ) (m : UpdateRoomInfo) (ss : List ℕ) (w : World D)
      → Alive w.alive ss
      → Appends (updates w.user_id ignored m ss) w (send_update ignored m ss w)
  unfolding send_update
  send_update-Appends ignored m [] w h = (w, refl, Same-refl w, sym (append-nil w.events))
  send_update-Appends ignored m (s ∷ ss) w h = elim (Bool-cases (is_ignored ignored s)) [
    | inl self ↦ rw self (send_update-Appends ignored m ss w h.1)
    | inr other ↦
        rw (other, get_user_id_alive s w h.0)
          (Appends-then (sent s (update_room_info told) ∷ []) (updates w.user_id ignored m ss)
            (send_update ignored told ss) (send-Appends s (update_room_info told) w h.0)
            (λ w' same.
              subst (λ l. Appends l w' (send_update ignored told ss w'))
                (ap (λ f. updates f ignored told ss) same.user_id
                  ∙ updates_my_id w.user_id ignored m (w.user_id s) ss)
                (send_update-Appends ignored told ss w' (rw same.alive h.1))))
  ]
    where
      told : UpdateRoomInfo
      told = record m { my_id = w.user_id s }

module _ (d : Driver) where
  -- `add_users` asks the database only.
  pub add_users_lem :
      (ss : List ℕ) (w : World d.State) (rows : List UserRow) (st : d.State)
      → Alive w.alive ss
      → Answered d (map w.user_id ss) w.database rows st
      → add_users d ss w ≡ ok (found_users (map w.user_id ss) rows, record w { database = st })
  unfolding add_users
  add_users_lem [] w [] st h same = ap (λ x. ok ([], record w { database = x })) (sym same)
  add_users_lem [] w (row ∷ rows) st h same = elim same [ ]
  add_users_lem (s ∷ ss) w [] st h same = elim same [ ]
  add_users_lem (s ∷ ss) w (row ∷ rows) st h (st₁, answer, later) =
      rw
        (
          get_user_id_alive s w h.0,
          answer,
          add_users_lem ss (record w { database = st₁ }) rows st h.1 later,
        )
        refl
