-- ===== src/Examples/Samples.antt =====
-- Concrete instances of the parameters: a database that is a list of rows, with the plain password
-- as its hash, and sets that are gone through in the order of their lists.
use yuwibo_server.Prelude.{
  ℕ, zero, suc, Bool, true, false, not, List, [], ◌∷◌, Option, none, some, if◌then◌else◌,
}
use mathlib.Core.List.Permᴰ
use yuwibo_server.Text.{Text, text_eq}
use yuwibo_server.Database.{Driver, Statement, login_stmt, join_membership_stmt, Fetched}
use yuwibo_server.Rooms.{Iteration, World, Room}

-- A row of the table: identifier, password and name, which may be NULL.
abbrev pub Row : Type 0
Row = Text × Text × Option Text

-- The table, and the parameters bound last.
abbrev pub Table : Type 0
Table = List Row × List Text

abbrev pub head : List Text → Text
head [] = []
head (t ∷ ts) = t

abbrev pub lookup : Text → List Row → Option (Text × Option Text)
lookup user_id [] = none
lookup user_id ((u, p, n) ∷ rows) = if text_eq u user_id then some (p, n) else lookup user_id rows

abbrev is_some {ℓ} : {A : Type ℓ} → Option A → Bool
is_some none = false
is_some (some a) = true

abbrev add_row : List Text → List Row → List Row
add_row (u ∷ p ∷ rest) rows = (u, p, none) ∷ rows
add_row params rows = rows

abbrev pub answer : Statement → Option (Text × Option Text) → Fetched
answer statement none = record { status = 100; columns = [] }
answer login_stmt (some (p, n)) = record { status = 0; columns = some p ∷ n ∷ [] }
answer statement (some (p, n)) = record { status = 0; columns = n ∷ [] }

-- Only an insertion fails, when the identifier is taken.
abbrev run_statement : Statement → Table → Bool × Table
run_statement join_membership_stmt (rows, params) =
    if is_some (lookup (head params) rows)
    then (true, (rows, params))
    else (false, (add_row params rows, params))
run_statement statement table = (false, table)

abbrev pub memory : Driver
memory = record {
  State = Table;
  init = λ t. (true, t);
  real_connect = λ t. (true, t);
  close = λ t. t;
  stmt_init = λ s t. (true, t);
  stmt_prepare = λ s t. (false, t);
  stmt_close = λ s t. t;
  bind_param = λ s params t. (false, (t.0, params));
  execute = run_statement;
  bind_result = λ s sizes t. (false, t);
  fetch = λ s t. (answer s (lookup (head t.1) t.0), t);
  free_result = λ s t. t;
  stmt_reset = λ s t. t;
  error_no = λ s t. 1062;
  affected_rows = λ s t. if is_some (lookup (head t.1) t.0) then 1 else 0;
  pwhash_str = λ p t. (false, p, t);
  pwhash_str_verify = λ hashed p. not (text_eq hashed p);
  strbytes = 128;
}

abbrev pub in_order : Iteration
in_order = record {
  sessions = λ xs. xs;
  sessions-perm = λ xs. ∣ Permᴰ.refl xs ∣₁;
  rooms = λ xs. xs;
  rooms-perm = λ xs. ∣ Permᴰ.refl xs ∣₁;
}

-- The users are `a` and `b`; session 1 is `a`, every other session is `b`.
abbrev pub user_a : Text
user_a = 97 ∷ []

abbrev pub user_b : Text
user_b = 98 ∷ []

abbrev pub secret : Text
secret = 115 ∷ []

abbrev pub lobby_name : Text
lobby_name = 108 ∷ 111 ∷ []

abbrev pub users : Table
users = ((user_a, secret, some user_a) ∷ (user_b, secret, some user_b) ∷ [], [])

abbrev pub id_of : ℕ → Text
id_of (suc zero) = user_a
id_of s = user_b

-- A room for three players, with `a` as its host.
abbrev pub room_of : ℕ → List ℕ → Room
room_of max members = record {
  sessions = members;
  info = record { id = 4; room_name = lobby_name; max_player_count = max; host_id = user_a };
}

abbrev pub world_with : List (ℕ × Room) → World memory.State
world_with rooms = record {
  alive = λ s. true;
  user_id = id_of;
  room_id = λ s. 4;
  rooms = rooms;
  events = [];
  database = users;
  clock = 1700000000;
}
