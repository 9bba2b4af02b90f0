-- ===== src/Packets/Rows.antt =====
-- What PacketHandler.cpp relies on in the answers of the database, and what follows for Login and
-- GetUserInfo.
use yuwibo_server.Prelude.{
  ℕ, All, ◌≡◌, refl, Bool, true, false, List, [], ◌∷◌, Option, none, some, Bool-cases, inl, inr,
  ◌==◌, Outcome, ok,
}
use yuwibo_server.Text.{Text, c_string}
use yuwibo_server.Messages.{ErrorCode, no_error, unknown, invalid_request, user_name_none}
use yuwibo_server.Database.{
  Driver, login_stmt, user_info_stmt, no_row, name_size, UserRow, compare, login, login_row,
  user_info_row, get_user_info,
}
use yuwibo_server.Rooms.Frame.{Answered, Serves}

-- The state in which the row of GetUserInfo is fetched.
abbrev pub info_asked : (d : Driver) → Text → d.State → d.State
info_asked d uid st =
    (d.bind_result user_info_stmt (name_size ∷ [])
      (d.execute user_info_stmt (d.bind_param user_info_stmt (uid ∷ []) st).1).1).1

-- What the code relies on in the answers of the server. The columns of Login's result can be bound,
-- and a row of `SELECT password, name` has two columns, of which the first is not NULL. `named` is
-- any property of the users in a state of the server under which a row of `SELECT name` has a name
-- that is not NULL, and which the calls of that query keep.
pub record HasRows (d : Driver) : Type 1 where
  pub named : Text → d.State → Type 0
  pub login_bound : (sizes : List ℕ) (st : d.State) → (d.bind_result login_stmt sizes st).0 ≡ false
  pub login_columns :
      (st : d.State)
      → ((d.fetch login_stmt st).0.status == 0) ≡ true
      → (p : Text) × (name : Option Text) × (rest : List (Option Text)) × ((d.fetch login_stmt
            st).0.columns
          ≡ some p ∷ name ∷ rest)
  pub info_columns :
      (uid : Text) (st : d.State)
      → named uid st
      → let out = info_asked d uid st in
        ((d.fetch user_info_stmt out).0.status == 0) ≡ true
        → (n : Text) × (rest : List (Option Text)) × ((d.fetch user_info_stmt out).0.columns
            ≡ some n ∷ rest)
  pub bind_keeps :
      (u v : Text) (st : d.State) → named v st → named v (d.bind_param user_info_stmt (u ∷ []) st).1
  pub execute_keeps :
      (v : Text) (st : d.State) → named v st → named v (d.execute user_info_stmt st).1
  pub result_keeps :
      (v : Text) (sizes : List ℕ) (st : d.State)
      → named v st
      → named v (d.bind_result user_info_stmt sizes st).1
  pub fetch_keeps : (v : Text) (st : d.State) → named v st → named v (d.fetch user_info_stmt st).1
  pub reset_keeps :
      (v : Text) (st : d.State)
      → named v st
      → named v (d.stmt_reset user_info_stmt (d.free_result user_info_stmt st))

module _ (d : Driver) (rows : HasRows d) where
  open rows use {named}

  -- GetUserInfo returns for a user that is named, and every user stays so.
  info-answers :
      (uid : Text) (st : d.State)
      → named uid st
      → (row : UserRow) × (st' : d.State) × (get_user_info d uid st ≡ ok (row, st'))
        × ((v : Text) → named v st → named v st')
  unfolding get_user_info user_info_row
  info-answers uid st name =
      let bound = d.bind_param user_info_stmt (uid ∷ []) st in
      let executed = d.execute user_info_stmt bound.1 in
      let out = d.bind_result user_info_stmt (name_size ∷ []) executed.1 in
      let fetched = d.fetch user_info_stmt out.1 in
      let st' = d.stmt_reset user_info_stmt (d.free_result user_info_stmt fetched.1) in
      elim (Bool-cases bound.0) [
        | inl failed ↦ (no_row, bound.1, rw failed refl, kept₁)
        | inr went ↦ elim (Bool-cases executed.0) [
          | inl failed ↦ (no_row, executed.1, rw (went, failed) refl, kept₂)
          | inr went₂ ↦ elim (Bool-cases out.0) [
            | inl failed ↦ (no_row, out.1, rw (went, went₂, failed) refl, kept₃)
            | inr went₃ ↦ elim (Bool-cases (fetched.0.status == 0)) [
              | inl found ↦
                  let (n, rest, e) = rows.info_columns uid st name found in
                  (
                    record { success = true; user_name = n },
                    st',
                    rw (went, went₂, went₃, found, e) refl,
                    kept₄,
                  )
              | inr missing ↦ (no_row, st', rw (went, went₂, went₃, missing) refl, kept₄)
            ]
          ]
        ]
      ]
    where
      b : d.State
      b = (d.bind_param user_info_stmt (uid ∷ []) st).1

      kept₁ : (v : Text) → named v st → named v b
      kept₁ v h = rows.bind_keeps uid v st h

      kept₂ : (v : Text) → named v st → named v (d.execute user_info_stmt b).1
      kept₂ v h = rows.execute_keeps v b (kept₁ v h)

      kept₃ : (v : Text) → named v st → named v (info_asked d uid st)
      kept₃ v h = rows.result_keeps v (name_size ∷ []) _ (kept₂ v h)

      kept₄ :
          (v : Text)
          → named v st
          → named v (
              d.stmt_reset user_info_stmt
                (d.free_result user_info_stmt (d.fetch user_info_stmt (info_asked d uid st)).1))
      kept₄ v h = rows.reset_keeps v _ (rows.fetch_keeps v _ (kept₃ v h))

  All-still :
      (P Q : Text → Type 0) → ((v : Text) → P v → Q v) → (us : List Text) → All P us → All Q us
  All-still P Q k [] h = tt
  All-still P Q k (u ∷ us) h = (k u h.0, All-still P Q k us h.1)

  -- So it does for one named user behind the other.
  pub named-Answered :
      (us : List Text) (st : d.State)
      → All (λ u. named u st) us
      → (found : List UserRow) × (st' : d.State) × Answered d us st found st'
        × ((v : Text) → named v st → named v st')
  named-Answered [] st h = ([], st, refl, λ v n. n)
  named-Answered (u ∷ us) st h =
      let (row, st₁, answer, kept) = info-answers u st h.0 in
      let (found, st₂, later, kept₂) =
        named-Answered us st₁ (All-still (λ v. named v st) (λ v. named v st₁) kept us h.1) in
      (row ∷ found, st₂, (st₁, answer, later), λ v n. kept₂ v (kept v n))

  abbrev pub rows_serve : Serves d
  rows_serve = record { named = named; answers = named-Answered }

  -- `Login` returns and assigns an error code.
  abbrev pub Assigns : Outcome (Bool × Option ErrorCode × d.State) → Type 0
  Assigns out =
      (success : Bool) × (err : ErrorCode) × (st' : d.State) × (out ≡ ok (success, some err, st'))

  login_row-Assigns :
      (p : Text) (name : Option Text) (rest : List (Option Text)) (password : Text) (st : d.State)
      → Assigns (login_row d false (some p ∷ name ∷ rest) password st)
  unfolding login_row
  login_row-Assigns p name rest password st = elim (Bool-cases (compare d (c_string p) password)) [
    | inl right ↦ rw right (named name)
    | inr wrong ↦ rw wrong (false, invalid_request, st, refl)
  ]
    where
      named :
          (name : Option Text)
          → Assigns
              (ok (true, elim name [ none ↦ some user_name_none | some n ↦ some no_error ], st))
      named none = (true, user_name_none, st, refl)
      named (some n) = (true, no_error, st, refl)

  pub login-Assigns : (uid password : Text) (st : d.State) → Assigns (login d uid password st)
  unfolding login
  login-Assigns uid password st =
      let bound = d.bind_param login_stmt (uid ∷ []) st in
      let executed = d.execute login_stmt bound.1 in
      let fetched =
        d.fetch login_stmt (d.bind_result login_stmt (d.strbytes ∷ name_size ∷ []) executed.1).1 in
      elim (Bool-cases bound.0) [
        | inl failed ↦ rw failed (false, unknown, bound.1, refl)
        | inr went ↦ rw went (elim (Bool-cases executed.0) [
          | inl failed ↦ rw failed (false, unknown, executed.1, refl)
          | inr went₂ ↦ rw went₂ (elim (Bool-cases (fetched.0.status == 0)) [
            | inl found ↦
                let (p, name, rest, e) =
                  rows.login_columns
                    (d.bind_result login_stmt (d.strbytes ∷ name_size ∷ []) executed.1).1 found in
                rw (found, rows.login_bound (d.strbytes ∷ name_size ∷ []) executed.1, e)
                  (login_row-Assigns p name rest password _)
            | inr missing ↦ rw missing (false, invalid_request, fetched.1, refl)
          ])
        ])
      ]
