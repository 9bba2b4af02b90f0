-- ===== src/Packets.antt =====
-- PacketHandler.h and PacketHandler.cpp: the table from message identifiers to constructors and
-- handlers, and the map from type names to identifiers.
pub mod Handlers
pub mod Dispatch
pub mod Registry
pub mod Locality
pub mod Rows
pub mod Safety
pub mod Entries
pub mod Total
pub mod Typing
pub mod Reachable
use Prim.Native.String.{String}
use text.Mathlib.Text.{◌==◌ as str_eq}
use yuwibo_server.Prelude.{
  ℕ, Bool, true, false, List, [], ◌∷◌, Option, none, some, leb, if◌then◌else◌, length, get_elem?,
  set, replicate, Outcome, ok, fault, ◌>>=◌, ◌>>◌,
}
use yuwibo_server.Messages.{Message, type_name}

-- PacketEntry: two `std::function`s, either of which may be empty.
pub record PacketEntry (H : Type 0) : Type 0 where
  pub creator : Option Message
  pub handler : Option H

pub record PacketHandler (H : Type 0) : Type 0 where
  pub packet_table : List (Option (PacketEntry H))
  pub name_to_id : List (String × ℕ)

-- `_nameToId[name] = id` and `_nameToId.find(name)`.
unfoldable pub put_name : String → ℕ → List (String × ℕ) → List (String × ℕ)
put_name name id [] = (name, id) ∷ []
put_name name id ((n, i) ∷ names) =
    if str_eq n name then (name, id) ∷ names else (n, i) ∷ put_name name id names

unfoldable pub find_name : String → List (String × ℕ) → Option ℕ
find_name name [] = none
find_name name ((n, i) ∷ names) = if str_eq n name then some i else find_name name names

module _ {H : Type 0} where
  -- A write outside the table is a fault, and so is a call of an empty creator.
  unfoldable pub register :
      ℕ → Option Message → Option H → PacketHandler H → Outcome (PacketHandler H)
  register id creator handler p = if leb (length p.packet_table) id then fault else elim creator [
    | none ↦ fault
    | some temp ↦ ok (record p {
      packet_table =
          set p.packet_table id (some (record { creator = some temp; handler = handler }));
      name_to_id = put_name (type_name temp) id p.name_to_id;
    })
  ]

  -- The entry that an identifier below the table's size stands for; a null entry is a fault.
  unfoldable pub entry_at : ℕ → PacketHandler H → Outcome (PacketEntry H)
  entry_at id p = elim (get_elem? p.packet_table id) [
    | none ↦ fault
    | some e ↦ elim e [ none ↦ fault | some entry ↦ ok entry ]
  ]

  -- `none` is the null pointer.
  unfoldable pub create_message_by_id : ℕ → PacketHandler H → Outcome (Option Message)
  unfolding entry_at
  create_message_by_id id p =
      if leb (length p.packet_table) id
      then ok none
      else (do entry ← entry_at id p; ok entry.creator)

  unfoldable pub get_message_id_by_name : String → PacketHandler H → ℕ
  get_message_id_by_name name p = elim (find_name name p.name_to_id) [ none ↦ 0 | some id ↦ id ]

  -- The handler that HandlePacket calls, if it calls one.
  unfoldable pub handler_of : ℕ → PacketHandler H → Outcome (Option H)
  unfolding entry_at
  handler_of id p =
      if leb (length p.packet_table) id
      then ok none
      else (do entry ← entry_at id p; ok entry.handler)

  unfoldable pub register_all : List (ℕ × Message × H) → PacketHandler H → Outcome (PacketHandler H)
  register_all [] p = ok p
  register_all ((id, creator, handler) ∷ rest) p = do
    p ← register id (some creator) (some handler) p
    register_all rest p
