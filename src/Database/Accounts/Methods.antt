-- ===== src/Database/Accounts/Methods.antt =====
-- What each account method of DatabaseManager.cpp does to the user table.
use yuwibo_server.Prelude.{
  ℕ, le→leb, ◌≤◌, ◌<◌, ◌⊎◌, length, List, ◌≡◌, refl, ap, ◌∙◌, Bool, true, false, not, [], ◌∷◌,
  Option, none, some, Bool-cases, inl, inr, ◌==◌, if◌then◌else◌, length_of_ne_nil, ok,
}
use yuwibo_server.Text.{Text, text_eq, c_string}
use yuwibo_server.Messages.{ErrorCode, no_error, invalid_request, user_name_none}
use yuwibo_server.Database.{
  name_size, Driver, login_stmt, join_membership_stmt, user_name_stmt, user_info_stmt, Fetched,
  hashing, compare, login_row, login, join_membership, user_name_register, user_info_row,
  get_user_info,
}
use yuwibo_server.Database.Accounts.{
  fits_all, Account, set_account, login_answer, info_answer, changed, renamed, IsServer,
  renamed_same,
}

module _ (d : Driver) (server : IsServer d) where
  open server use {accounts}

  abbrev pub Keeps : d.State → d.State → Type 0
  Keeps st st' = (t : Text) → accounts st' t ≡ accounts st t

  -- A free identifier gets an account without a name, under a hash of the password.
  pub join_membership_new :
      (uid password : Text) (st : d.State)
      → server.id_fits uid ≡ true
      → accounts st uid ≡ none
      → (hashed : Text) × (st' : d.State) × (join_membership d uid password st ≡ (0, st'))
        × ((t : Text) → accounts st' t ≡ set_account uid (hashed, none) (accounts st) t)
        × (compare d (c_string hashed) password ≡ true)
        × (length hashed < d.strbytes)
  unfolding join_membership hashing compare
  join_membership_new uid password st ok_id free =
      let h = d.pwhash_str password st in
      let b = d.bind_param join_membership_stmt (uid ∷ h.1 ∷ []) h.2 in
      let (works, sets) =
        server.insert_works uid h.1 b.1 ok_id (server.hash_short password st)
          (server.bind_sets _ _ h.2)
          (server.bind_keeps _ _ h.2 uid ∙ server.hash_keeps password st uid ∙ free) in
      (
        h.1,
        (d.execute join_membership_stmt b.1).1,
        rw
            (
              server.hash_works password st,
              length_of_ne_nil h.1 (server.hash_filled password st),
              server.bind_works join_membership_stmt (uid ∷ h.1 ∷ []) h.2,
              works,
            )
            refl,
        (λ t.
            sets t
            ∙ under uid (h.1, none) t
                (server.bind_keeps _ _ h.2 t ∙ server.hash_keeps password st t)),
        rw (server.hash_text password st, server.hash_verifies password st) refl,
        server.hash_short password st,
      )
    where
      under :
          (uid : Text) (a : Account) (t : Text) {x y : Option Account}
          → x ≡ y
          → (if text_eq uid t then some a else x) ≡ (if text_eq uid t then some a else y)
      under uid a t e = ap (λ z. if text_eq uid t then some a else z) e

  -- A taken identifier is refused with the server's number for a duplicate key.
  pub join_membership_taken :
      (uid password : Text) (st : d.State) (a : Account)
      → server.id_fits uid ≡ true
      → accounts st uid ≡ some a
      → (st' : d.State) × (join_membership d uid password st ≡ (1062, st')) × Keeps st st'
  unfolding join_membership hashing
  join_membership_taken uid password st a ok_id taken =
      let h = d.pwhash_str password st in
      let b = d.bind_param join_membership_stmt (uid ∷ h.1 ∷ []) h.2 in
      let (fails, number, keeps) =
        server.insert_fails uid h.1 b.1 a ok_id (server.hash_short password st)
          (server.bind_sets _ _ h.2)
          (server.bind_keeps _ _ h.2 uid ∙ server.hash_keeps password st uid ∙ taken) in
      (
        (d.execute join_membership_stmt b.1).1,
        rw
            (
              server.hash_works password st,
              length_of_ne_nil h.1 (server.hash_filled password st),
              server.bind_works join_membership_stmt (uid ∷ h.1 ∷ []) h.2,
              fails,
              number,
            )
            refl,
        λ t. keeps t ∙ server.bind_keeps _ _ h.2 t ∙ server.hash_keeps password st t,
      )

  -- The answer of `Login` to an account; its buffers hold the hash, and a name of 50 bytes.
  abbrev pub admits : Text → Option Account → Bool × Option ErrorCode
  admits password none = (false, some invalid_request)
  admits password (some (hashed, name)) =
      if fits_all (d.strbytes ∷ name_size ∷ []) (some hashed ∷ name ∷ [])
      then (if compare d (c_string hashed) password
          then (true, elim name [ none ↦ some user_name_none | some n ↦ some no_error ])
          else (false, some invalid_request))
      else (false, some invalid_request)

  pub login-admits :
      (uid password : Text) (st : d.State)
      → (st' : d.State) × (login d uid password st
          ≡ ok ((admits password (accounts st uid)).0, (admits password (accounts st uid)).1, st'))
        × Keeps st st'
  unfolding login login_row
  login-admits uid password st = by_account (accounts st uid) fetched
    where
      sizes : List ℕ
      sizes = d.strbytes ∷ name_size ∷ []

      b : d.State
      b = (d.bind_param login_stmt (uid ∷ []) st).1

      e : d.State
      e = (d.execute login_stmt b).1

      f : Fetched × d.State
      f = d.fetch login_stmt (d.bind_result login_stmt sizes e).1

      sees : server.bound login_stmt b ≡ uid ∷ []
      sees = server.bind_sets login_stmt (uid ∷ []) st

      fetched : f.0 ≡ login_answer sizes (accounts st uid)
      fetched =
          server.login_fetch sizes uid b sees
          ∙ ap (login_answer sizes) (server.bind_keeps login_stmt (uid ∷ []) st uid)

      kept : Keeps st f.1
      kept t =
          server.select_keeps login_stmt sizes uid b t refl sees
          ∙ server.bind_keeps login_stmt (uid ∷ []) st t

      by_size :
          (hashed : Text) (name : Option Text)
          → (fits_all sizes (some hashed ∷ name ∷ []) ≡ true)
            ⊎ (fits_all sizes (some hashed ∷ name ∷ []) ≡ false)
          → f.0 ≡ login_answer sizes (some (hashed, name))
          → (st' : d.State) × (login d uid password st
              ≡ ok (
                (admits password (some (hashed, name))).0,
                (admits password (some (hashed, name))).1,
                st',
              ))
            × Keeps st st'
      by_size hashed name (inl fits) e' = (
        d.stmt_reset login_stmt (d.free_result login_stmt f.1),
        rw
            (
              server.bind_works login_stmt (uid ∷ []) st,
              (server.select_works login_stmt sizes uid b refl sees).0,
              (server.select_works login_stmt sizes uid b refl sees).1,
              e',
              fits,
            )
            (elim (Bool-cases (compare d (c_string hashed) password)) [
              | inl right ↦ rw right refl
              | inr wrong ↦ rw wrong refl
            ]),
        λ t. server.reset_keeps login_stmt f.1 t ∙ kept t,
      )
      by_size hashed name (inr cut) e' = (
        f.1,
        rw
            (
              server.bind_works login_stmt (uid ∷ []) st,
              (server.select_works login_stmt sizes uid b refl sees).0,
              e',
              cut,
            )
            refl,
        kept,
      )

      by_account :
          (o : Option Account)
          → f.0 ≡ login_answer sizes o
          → (st' : d.State) × (login d uid password st
              ≡ ok ((admits password o).0, (admits password o).1, st'))
            × Keeps st st'
      by_account none e' = (
        f.1,
        rw
            (
              server.bind_works login_stmt (uid ∷ []) st,
              (server.select_works login_stmt sizes uid b refl sees).0,
              e',
            )
            refl,
        kept,
      )
      by_account (some (hashed, name)) e' = by_size hashed name (Bool-cases _) e'

  -- `UserNameRegister` sets the name of an account, and reports whether that changed anything.
  pub user_name_register_lem :
      (name uid : Text) (st : d.State)
      → server.name_fits name ≡ true
      → (st' : d.State) × (user_name_register d name uid st
          ≡ (not (changed name (accounts st uid) == 0), st'))
        × ((t : Text) → accounts st' t ≡ renamed name uid (accounts st) t)
  unfolding user_name_register
  user_name_register_lem name uid st ok_name = (
    (d.execute user_name_stmt b).1,
    rw
        (
          server.bind_works user_name_stmt (name ∷ uid ∷ []) st,
          updates.0,
          updates.1 ∙ ap (changed name) (server.bind_keeps user_name_stmt (name ∷ uid ∷ []) st uid),
        )
        (elim (Bool-cases (changed name (accounts st uid) == 0)) [
          | inl same ↦ rw same refl
          | inr other ↦ rw other refl
        ]),
    λ t.
        updates.2 t
        ∙ renamed_same name uid (accounts b) (accounts st)
            (server.bind_keeps user_name_stmt (name ∷ uid ∷ []) st) t,
  )
    where
      b : d.State
      b = (d.bind_param user_name_stmt (name ∷ uid ∷ []) st).1

      updates :
          ((d.execute user_name_stmt b).0 ≡ false)
          × (d.affected_rows user_name_stmt (d.execute user_name_stmt b).1
              ≡ changed name (accounts b uid))
          × ((t : Text)
              → accounts (d.execute user_name_stmt b).1 t ≡ renamed name uid (accounts b) t)
      updates =
          server.update_works name uid b ok_name
            (server.bind_sets user_name_stmt (name ∷ uid ∷ []) st)

  -- `GetUserInfo` of an account with a name of 50 bytes at most returns the name.
  pub get_user_info_named :
      (uid hashed name : Text) (st : d.State)
      → length name ≤ name_size
      → accounts st uid ≡ some (hashed, some name)
      → (st' : d.State) × (get_user_info d uid st
          ≡ ok (record { success = true; user_name = name }, st'))
        × Keeps st st'
  unfolding get_user_info user_info_row
  get_user_info_named uid hashed name st short named = (
    d.stmt_reset user_info_stmt (d.free_result user_info_stmt f.1),
    rw
        (
          server.bind_works user_info_stmt (uid ∷ []) st,
          (server.select_works user_info_stmt (name_size ∷ []) uid b refl sees).0,
          (server.select_works user_info_stmt (name_size ∷ []) uid b refl sees).1,
          fetched,
        )
        refl,
    λ t.
        server.reset_keeps user_info_stmt f.1 t
        ∙ server.select_keeps user_info_stmt (name_size ∷ []) uid b t refl sees
        ∙ server.bind_keeps user_info_stmt (uid ∷ []) st t,
  )
    where
      b : d.State
      b = (d.bind_param user_info_stmt (uid ∷ []) st).1

      f : Fetched × d.State
      f =
          d.fetch user_info_stmt
            (d.bind_result user_info_stmt (name_size ∷ []) (d.execute user_info_stmt b).1).1

      sees : server.bound user_info_stmt b ≡ uid ∷ []
      sees = server.bind_sets user_info_stmt (uid ∷ []) st

      fetched : f.0 ≡ record { status = 0; columns = some name ∷ [] }
      fetched =
          server.info_fetch (name_size ∷ []) uid b sees
          ∙ ap (info_answer (name_size ∷ []))
              (server.bind_keeps user_info_stmt (uid ∷ []) st uid ∙ named)
          ∙ rw (le→leb _ _ short) refl
