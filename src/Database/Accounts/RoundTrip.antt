-- ===== src/Database/Accounts/RoundTrip.antt =====
-- The account methods of DatabaseManager.cpp one after the other.
use yuwibo_server.Prelude.{le→leb, ◌≤◌, arith, length, ◌≡◌, refl, ap, ◌∙◌, true, none, some, ok}
use yuwibo_server.Text.{Text, text_eq_refl}
use yuwibo_server.Messages.{no_error, user_name_none}
use yuwibo_server.Database.{
  name_size, Driver, login, join_membership, user_name_register, get_user_info,
}
use yuwibo_server.Database.Accounts.{renamed_in, IsServer}
use yuwibo_server.Database.Accounts.Methods.{
  join_membership_new, login-admits, user_name_register_lem, get_user_info_named,
}

module _ (d : Driver) (server : IsServer d) where
  open server use {accounts}

  -- Over a server that keeps its statements' documented effects on a table of accounts, with an
  -- identifier and a name that the table's columns hold, the name of 50 bytes at most: if the
  -- identifier is free, JoinMembership registers it; Login with the same password then succeeds
  -- and says that the name is missing; UserNameRegister sets the name; Login then succeeds without
  -- an error; and GetUserInfo returns the name.
  pub account_round_trip :
      (uid password name : Text) (st : d.State)
      → server.id_fits uid ≡ true
      → server.name_fits name ≡ true
      → length name ≤ name_size
      → accounts st uid ≡ none
      → (st₁ : d.State) × (st₂ : d.State) × (st₃ : d.State) × (st₄ : d.State) × (st₅ : d.State)
        × (join_membership d uid password st ≡ (0, st₁))
        × (login d uid password st₁ ≡ ok (true, some user_name_none, st₂))
        × (user_name_register d name uid st₂ ≡ (true, st₃))
        × (login d uid password st₃ ≡ ok (true, some no_error, st₄))
        × (get_user_info d uid st₄ ≡ ok (record { success = true; user_name = name }, st₅))
  account_round_trip uid password name st ok_id ok_name short free =
      let (hashed, st₁, joins, made, right, held) =
        join_membership_new d server uid password st ok_id free in
      let here : accounts st₁ uid ≡ some (hashed, none) = made uid ∙ rw (text_eq_refl uid) refl in
      let (st₂, logs, keeps₂) = login-admits d server uid password st₁ in
      let (st₃, registers, sets₃) = user_name_register_lem d server name uid st₂ ok_name in
      let here₂ : accounts st₂ uid ≡ some (hashed, none) = keeps₂ uid ∙ here in
      let here₃ : accounts st₃ uid ≡ some (hashed, some name) =
        sets₃ uid
        ∙ ap (λ o. renamed_in name uid o (accounts st₂) uid) here₂
        ∙ rw (text_eq_refl uid) refl in
      let (st₄, logs₄, keeps₄) = login-admits d server uid password st₃ in
      let (st₅, asks, keeps₅) =
        get_user_info_named d server uid hashed name st₄ short (keeps₄ uid ∙ here₃) in
      (
        st₁,
        st₂,
        st₃,
        st₄,
        st₅,
        joins,
        logs ∙ rw (here, le→leb (length hashed) d.strbytes (omega (arith, held)), right) refl,
        registers ∙ rw here₂ refl,
        logs₄
            ∙ rw
                (
                  here₃,
                  le→leb (length hashed) d.strbytes (omega (arith, held)),
                  le→leb (length name) 50 short,
                  right,
                )
                refl,
        asks,
      )
