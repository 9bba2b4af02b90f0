-- ===== src/Examples/Calls.antt =====
-- Runs of the database's calls and of the handler table.
use yuwibo_server.Prelude.{
  minus_one, Bool, false, true, ==_iff, sym, ap, ◌∙◌, if◌then◌else◌, some-injective, true, List,
  Option, none, some, ◌==◌, refl, ◌≡◌, ◌↔◌, [], ◌∷◌, arith, All, ok,
}
use yuwibo_server.Messages.{Message}
use yuwibo_server.Database.{join_membership}
use yuwibo_server.Database.Results.{Inserted, join_membership-Inserted}
use yuwibo_server.Packets.{PacketHandler, get_message_id_by_name}
use yuwibo_server.Packets.Handlers.{Handler, registrations}
use yuwibo_server.Packets.Dispatch.{init}
use yuwibo_server.Packets.Registry.{wire_id, IsRegistered, init_lem}
use yuwibo_server.Messages.{type_name}
use yuwibo_server.Text.{Text}
use yuwibo_server.Messages.{create_room_request}
use yuwibo_server.Database.{login_stmt, user_info_stmt}
use yuwibo_server.Rooms.{World}
use yuwibo_server.Packets.Dispatch.{Parser, handle_packet}
use yuwibo_server.Packets.Rows.{HasRows}
use yuwibo_server.Packets.Total.{KeepsType}
use yuwibo_server.Packets.Typing.{IsTyped, handle_packet-IsTyped}
use yuwibo_server.Packets.Reachable.{no_rooms, Reachable}
use yuwibo_server.Examples.Samples.{
  head, lookup, answer, lobby_name, Table, memory, in_order, users, secret,
}

abbrev with_c : Table
with_c = ((99 ∷ [], secret, none) ∷ users.0, (99 ∷ []) ∷ secret ∷ [])

join_membership-Inserted_example :
    (join_membership memory (99 ∷ []) secret users ≡ (0, with_c))
    ↔ Inserted memory (99 ∷ []) secret users with_c
join_membership-Inserted_example =
    join_membership-Inserted memory (99 ∷ []) secret users with_c (λ st h e. absurd (omega arith))

init_lem_example :
    (p : PacketHandler (Handler memory in_order)) × (init memory in_order ≡ ok p)
    × All (IsRegistered memory in_order p) (registrations memory in_order)
    × ((m : Message) → get_message_id_by_name (type_name m) p ≡ wire_id m)
init_lem_example = init_lem memory in_order

login_row_lem :
    (found : Option (Text × Option Text))
    → ((answer login_stmt found).status == 0) ≡ true
    → (p : Text) × (name : Option Text) × (rest : List (Option Text)) × ((answer login_stmt
          found).columns
        ≡ some p ∷ name ∷ rest)
login_row_lem none e = cc
login_row_lem (some (p, n)) e = (p, n, [], refl)

-- There is no row of this user, or one with a name.
abbrev NamedRow : Option (Text × Option Text) → Type 0
NamedRow none = Unit {0}
NamedRow (some (p, none)) = ⊥
NamedRow (some (p, some n)) = Unit {0}

info_row_lem :
    (found : Option (Text × Option Text))
    → NamedRow found
    → ((answer user_info_stmt found).status == 0) ≡ true
    → (n : Text) × (rest : List (Option Text)) × ((answer user_info_stmt found).columns
        ≡ some n ∷ rest)
info_row_lem none named e = cc
info_row_lem (some (p, none)) named e = elim named [ ]
info_row_lem (some (p, some n)) named e = (n, [], refl)

abbrev memory-HasRows : HasRows memory
memory-HasRows = record {
  named = λ uid st. NamedRow (lookup uid st.0);
  login_bound = λ sizes st. refl;
  login_columns = λ st. login_row_lem (lookup (head st.1) st.0);
  info_columns = λ uid st named. info_row_lem (lookup uid st.0) named;
  bind_keeps = λ u v st named. named;
  execute_keeps = λ v st named. named;
  result_keeps = λ v sizes st named. named;
  fetch_keeps = λ v st named. named;
  reset_keeps = λ v st named. named;
}

-- A parser that reads every message of one type as the same one.
abbrev parse_as : Message → Parser
parse_as filled m bytes n = if wire_id m == wire_id filled then some filled else some m

parse_as-KeepsType : (filled : Message) → KeepsType (parse_as filled)
parse_as-KeepsType filled m m' bytes n e = parsed_keeps (wire_id m == wire_id filled) refl e
  where
    parsed_keeps :
        (b : Bool)
        → (wire_id m == wire_id filled) ≡ b
        → (if b then some filled else some m) ≡ some m'
        → wire_id m' ≡ wire_id m
    parsed_keeps true is e =
        ap wire_id (sym (some-injective e)) ∙ sym ((==_iff (wire_id m) (wire_id filled)).0 is)
    parsed_keeps false is e = ap wire_id (sym (some-injective e))

abbrev new_room : Message
new_room = create_room_request lobby_name 3

abbrev handlers : PacketHandler (Handler memory in_order)
handlers = (init_lem memory in_order).0

-- A session is there, and no room.
abbrev one_session : World memory.State
one_session = record (no_rooms memory in_order (parse_as new_room) handlers memory-HasRows users) {
  alive = λ t. if t == 1 then true else false;
  user_id = λ t. if t == 1 then [] else [];
  room_id = λ t. if t == 1 then minus_one else minus_one;
}

handle_packet-IsTyped_example :
    IsTyped memory in_order
      (parse_as new_room)
      (0 ∷ 8 ∷ [])
      1
      8
      one_session
      (handle_packet memory in_order (parse_as new_room) handlers 1 (0 ∷ 8 ∷ []) 2 one_session)
handle_packet-IsTyped_example =
    handle_packet-IsTyped memory in_order (parse_as new_room) handlers 1 (0 ∷ 8 ∷ []) one_session
      (parse_as-KeepsType new_room) (init_lem memory in_order).1 (omega arith)
