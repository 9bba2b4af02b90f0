-- ===== src/Database.antt =====
-- DatabaseManager.h, DatabaseManager.cpp, Hash.h and Hash.cpp. The MySQL client library and libsodium
-- are the parameter `Driver`. Each method runs with `_mutex` held and calls no other method that
-- takes it; the mutex is not modelled.
pub mod Results
pub mod Accounts
use yuwibo_server.Prelude.{
  ℕ, Bool, true, false, not, List, [], ◌∷◌, Option, none, some, ◌==◌, if◌then◌else◌, Outcome, ok,
  fault, ◌>>=◌, ◌>>◌, minus_one, length,
}
use yuwibo_server.Text.{Text, c_string}
use yuwibo_server.Messages.{ErrorCode, no_error, unknown, invalid_request, user_name_none}

-- The prepared statements: `SELECT password, name FROM user WHERE id = ?`, `INSERT INTO user (id,
-- password) VALUES (?, ?)`, `UPDATE user SET name = ? WHERE id = ?`, `SELECT name FROM user WHERE
-- id = ?`.
pub data Statement : Type 0 where
  login_stmt join_membership_stmt user_name_stmt user_info_stmt : Statement

-- `mysql_stmt_fetch`: its status, and what it stored in the bound columns (`none` for NULL, whose
-- buffer and length are not written). A text column is stored with a NUL behind it if the buffer
-- bound for it has room; what does not fit is cut off, and the status is then not 0.
pub record Fetched : Type 0 where
  pub status : ℕ
  pub columns : List (Option Text)

-- The C functions that the code calls. A Boolean result is whether the C result is not 0.
pub record Driver : Type 1 where
  pub State : Type 0
  pub init : State → Bool × State
  pub real_connect : State → Bool × State
  pub close : State → State
  -- Whether `mysql_stmt_init` returns a statement.
  pub stmt_init : Statement → State → Bool × State
  pub stmt_prepare : Statement → State → Bool × State
  pub stmt_close : Statement → State → State
  pub bind_param : Statement → List Text → State → Bool × State
  pub execute : Statement → State → Bool × State
  -- With the `buffer_length` of each column.
  pub bind_result : Statement → List ℕ → State → Bool × State
  pub fetch : Statement → State → Fetched × State
  pub free_result : Statement → State → State
  pub stmt_reset : Statement → State → State
  pub error_no : Statement → State → ℕ
  pub affected_rows : Statement → State → ℕ
  -- `crypto_pwhash_str`, with the text that it stores; and `crypto_pwhash_str_verify`.
  pub pwhash_str : Text → State → Bool × Text × State
  pub pwhash_str_verify : Text → Text → Bool
  -- `crypto_pwhash_STRBYTES`
  pub strbytes : ℕ

-- struct UserInfo of DatabaseManager.h.
pub record UserRow : Type 0 where
  pub success : Bool
  pub user_name : Text

-- `sizeof(name_buffer)`
abbrev pub name_size : ℕ
name_size = 50

abbrev pub no_row : UserRow
no_row = record { success = false; user_name = [] }

module _ (d : Driver) where
  open d use {State}

  -- Hash::Hashing and Hash::Compare.
  unfoldable pub hashing : Text → State → Text × State
  hashing password st =
      let (failed, hashed, st') = d.pwhash_str password st in
      if failed then ([], st') else (hashed, st')

  unfoldable pub compare : Text → Text → Bool
  compare db_password password = if d.pwhash_str_verify db_password password then false else true

  -- The last part of `Login`, after a successful fetch. A column that was not stored is read from an
  -- uninitialized buffer.
  unfoldable pub login_row :
      Bool → List (Option Text) → Text → State → Outcome (Bool × Option ErrorCode × State)
  login_row unbound (some db_password ∷ name ∷ rest) password st =
      if unbound
      then fault
      else (if compare (c_string db_password) password
          then ok (true, elim name [ none ↦ some user_name_none | some n ↦ some no_error ], st)
          else ok (false, some invalid_request, st))
  login_row unbound columns password st = fault

  -- The result, what is assigned to `err`, and the state after the calls.
  unfoldable pub login : Text → Text → State → Outcome (Bool × Option ErrorCode × State)
  login user_id password st =
      let (failed, st) = d.bind_param login_stmt (user_id ∷ []) st in
      if failed
      then ok (false, some unknown, st)
      else (let (failed, st) = d.execute login_stmt st in
          if failed
          then ok (false, some unknown, st)
          else (let (unbound, st) = d.bind_result login_stmt (d.strbytes ∷ name_size ∷ []) st in
              let (fetched, st) = d.fetch login_stmt st in
              if not (fetched.status == 0)
              then ok (false, some invalid_request, st)
              else (let st = d.stmt_reset login_stmt (d.free_result login_stmt st) in
                  login_row unbound fetched.columns password st)))

  -- The `uint32_t` result: 0, the server's error number, or -1.
  unfoldable pub join_membership : Text → Text → State → ℕ × State
  join_membership user_id password st =
      let (hash_password, st) = hashing password st in
      if length hash_password == 0
      then (minus_one, st)
      else (let (failed, st) =
            d.bind_param join_membership_stmt (user_id ∷ hash_password ∷ []) st in
          if failed
          then (minus_one, st)
          else (let (failed, st) = d.execute join_membership_stmt st in
              if failed then (d.error_no join_membership_stmt st, st) else (0, st)))

  unfoldable pub user_name_register : Text → Text → State → Bool × State
  user_name_register user_name user_id st =
      let (failed, st) = d.bind_param user_name_stmt (user_name ∷ user_id ∷ []) st in
      if failed
      then (false, st)
      else (let (failed, st) = d.execute user_name_stmt st in
          if failed
          then (false, st)
          else (if d.affected_rows user_name_stmt st == 0 then (false, st) else (true, st)))

  -- The name of a fetched row. The length of a NULL is an uninitialized variable.
  unfoldable pub user_info_row : List (Option Text) → Outcome UserRow
  user_info_row (some name ∷ rest) = ok (record { success = true; user_name = name })
  user_info_row columns = fault

  unfoldable pub get_user_info : Text → State → Outcome (UserRow × State)
  get_user_info user_id st =
      let (failed, st) = d.bind_param user_info_stmt (user_id ∷ []) st in
      if failed
      then ok (no_row, st)
      else (let (failed, st) = d.execute user_info_stmt st in
          if failed
          then ok (no_row, st)
          else (let (failed, st) = d.bind_result user_info_stmt (name_size ∷ []) st in
              if failed
              then ok (no_row, st)
              else (let (fetched, st) = d.fetch user_info_stmt st in
                  let st' = d.stmt_reset user_info_stmt (d.free_result user_info_stmt st) in
                  if fetched.status == 0
                  then (do row ← user_info_row fetched.columns; ok (row, st'))
                  else ok (no_row, st'))))

  -- CreateSTMT stops at the first statement that fails; the result is which of the members
  -- `loginstmt` … were assigned, in the order of the code.
  unfoldable pub create_stmts : List Statement → State → List Statement × State
  create_stmts [] st = ([], st)
  create_stmts (s ∷ ss) st =
      let (made, st) = d.stmt_init s st in
      if not made
      then (s ∷ [], st)
      else (let (failed, st) = d.stmt_prepare s st in
          if failed
          then (s ∷ [], st)
          else (let (rest, st') = create_stmts ss st in (s ∷ rest, st')))

  unfoldable pub create_stmt : State → List Statement × State
  unfolding create_stmts
  create_stmt =
      create_stmts (login_stmt ∷ join_membership_stmt ∷ user_name_stmt ∷ user_info_stmt ∷ [])

  -- The result, whether `_conn` is set after the call, and the members assigned.
  unfoldable pub connect : State → Bool × Bool × List Statement × State
  connect st =
      let (inited, st) = d.init st in
      if not inited
      then (false, false, [], st)
      else (let (connected, st) = d.real_connect st in
          if not connected
          then (false, false, [], d.close st)
          else (let (made, st) = create_stmt st in (true, true, made, st)))

  -- `connected` is whether `_conn` is set; it is not after the call.
  unfoldable pub disconnect : Bool → State → State
  disconnect connected st =
      if connected
      then d.close (
          d.stmt_close user_info_stmt (
            d.stmt_close user_name_stmt
              (d.stmt_close join_membership_stmt (d.stmt_close login_stmt st))))
      else st
