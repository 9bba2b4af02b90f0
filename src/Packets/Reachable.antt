-- ===== src/Packets/Reachable.antt =====
-- The server's lobby as a state machine: sessions come and go, packets are handled one after the
-- other, the clock and the database change.
use yuwibo_server.Prelude.{
  ℕ, ◌-◌, ◌<◌, ◌≡◌, true, false, List, [], some, ◌==◌, if◌then◌else◌, length, ok, u32_mod,
  minus_one,
}
use yuwibo_server.Database.{Driver}
use yuwibo_server.Framing.Process.{HasId}
use yuwibo_server.Rooms.{World, Room, Iteration, find_room, mem}
use yuwibo_server.Packets.{PacketHandler}
use yuwibo_server.Packets.Handlers.{Handler}
use yuwibo_server.Packets.Dispatch.{Parser, handle_packet}
use yuwibo_server.Packets.Rows.{HasRows}
use yuwibo_server.Packets.Total.{IsNamed}

module _ (d : Driver) (it : Iteration) (parse : Parser) (p : PacketHandler (Handler d it))
    (rows : HasRows d) where
  -- The state before the first connection.
  abbrev pub no_rooms : d.State → World d.State
  no_rooms db = record {
    alive = λ s. false;
    user_id = λ s. [];
    room_id = λ s. minus_one;
    rooms = [];
    events = [];
    database = db;
    clock = 0;
  }

  pub data Step (w : World d.State) : World d.State → Type 0 where
    -- A session is created, without a name and a room.
    connects :
        (s : ℕ)
        → Step w (record w {
          alive = λ t. if t == s then true else w.alive t;
          user_id = λ t. if t == s then [] else w.user_id t;
          room_id = λ t. if t == s then minus_one else w.room_id t;
        })
    -- A session that stands in no room is deleted.
    disconnects :
        (s : ℕ)
        → ((key : ℕ) (room : Room)
            → find_room key w.rooms ≡ some room
            → mem s room.sessions ≡ false)
        → Step w (record w { alive = λ t. if t == s then false else w.alive t })
    sends :
        (s : ℕ) (body : List ℕ) (w' : World d.State)
        → w.alive s ≡ true
        → HasId body
        → length w.rooms < u32_mod - 1
        → IsNamed d it rows s body w
        → handle_packet d it parse p s body (length body) w ≡ ok w'
        → Step w w'
    ticks : (now : ℕ) → Step w (record w { clock = now })
    stores : (db : d.State) → Step w (record w { database = db })

  pub data Reachable : World d.State → Type 0 where
    starts : (db : d.State) → Reachable (no_rooms db)
    goes : (w w' : World d.State) → Reachable w → Step w w' → Reachable w'
