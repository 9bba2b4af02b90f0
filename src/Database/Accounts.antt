-- ===== src/Database/Accounts.antt =====
-- The user table behind DatabaseManager.cpp as a map from identifiers to accounts, and what each
-- method does to it, if the server and libsodium do what their manuals say.
pub mod Methods
pub mod RoundTrip
use yuwibo_server.Prelude.{
  leb, ◌&&◌, take, ◌<◌, ℕ, ◌≡◌, ◌≢◌, refl, sym, ap, ◌∙◌, Bool, true, false, not, List, [], ◌∷◌,
  Option, none, some, Option-cases, Bool-cases, inl, inr, arith, ◌==◌, if◌then◌else◌, length,
  length_of_ne_nil, Outcome, ok,
}
use yuwibo_server.Text.{Text, text_eq, text_eq_refl, c_string}
use yuwibo_server.Messages.{ErrorCode, no_error, invalid_request, user_name_none}
use yuwibo_server.Database.{
  Driver, Statement, login_stmt, join_membership_stmt, user_name_stmt, user_info_stmt, Fetched,
  UserRow, no_row, hashing, compare, login_row, login, join_membership, user_name_register,
  user_info_row, get_user_info,
}

-- The stored hash and the name, which is NULL at first.
abbrev pub Account : Type 0
Account = Text × Option Text

abbrev pub Accounts : Type 0
Accounts = Text → Option Account

abbrev pub set_account : Text → Account → Accounts → Accounts
set_account uid a accounts t = if text_eq uid t then some a else accounts t

-- Whether the columns fit into buffers of these sizes; NULL does.
abbrev pub fits_all : List ℕ → List (Option Text) → Bool
fits_all (n ∷ ns) (none ∷ cs) = fits_all ns cs
fits_all (n ∷ ns) (some t ∷ cs) = leb (length t) n && fits_all ns cs
fits_all sizes columns = true

abbrev pub cut_all : List ℕ → List (Option Text) → List (Option Text)
cut_all (n ∷ ns) (none ∷ cs) = none ∷ cut_all ns cs
cut_all (n ∷ ns) (some t ∷ cs) = some (take n t) ∷ cut_all ns cs
cut_all sizes columns = columns

-- A row that is fetched into buffers of these sizes; 101 is MYSQL_DATA_TRUNCATED.
abbrev pub fetched_row : List ℕ → List (Option Text) → Fetched
fetched_row sizes columns =
    if fits_all sizes columns
    then record { status = 0; columns = columns }
    else record { status = 101; columns = cut_all sizes columns }

-- The rows of the two queries (100 is MYSQL_NO_DATA), and the number of rows that the update changes.
abbrev pub login_answer : List ℕ → Option Account → Fetched
login_answer sizes none = record { status = 100; columns = [] }
login_answer sizes (some (hashed, name)) = fetched_row sizes (some hashed ∷ name ∷ [])

abbrev pub info_answer : List ℕ → Option Account → Fetched
info_answer sizes none = record { status = 100; columns = [] }
info_answer sizes (some (hashed, name)) = fetched_row sizes (name ∷ [])

abbrev pub changed : Text → Option Account → ℕ
changed name none = 0
changed name (some (hashed, none)) = 1
changed name (some (hashed, some old)) = if text_eq old name then 0 else 1

abbrev pub renamed_in : Text → Text → Option Account → Accounts → Accounts
renamed_in name uid none accounts = accounts
renamed_in name uid (some a) accounts = set_account uid (a.0, some name) accounts

abbrev pub renamed : Text → Text → Accounts → Accounts
renamed name uid accounts = renamed_in name uid (accounts uid) accounts

-- The statements that ask for rows.
abbrev pub is_select : Statement → Bool
is_select login_stmt = true
is_select user_info_stmt = true
is_select s = false

-- What the manuals say of a server whose connection holds: each statement sees the parameters bound
-- last; the identifier is the table's key; a hash is a text that verifies for its password, and that
-- the buffer for it holds. `id_fits` and `name_fits` tell which texts the table's columns hold; the
-- column of the passwords holds every hash.
pub record IsServer (d : Driver) : Type 0 where
  pub accounts : d.State → Accounts
  pub bound : Statement → d.State → List Text
  pub id_fits : Text → Bool
  pub name_fits : Text → Bool
  pub bind_works :
      (s : Statement) (ps : List Text) (st : d.State) → (d.bind_param s ps st).0 ≡ false
  pub bind_sets :
      (s : Statement) (ps : List Text) (st : d.State) → bound s (d.bind_param s ps st).1 ≡ ps
  pub bind_keeps :
      (s : Statement) (ps : List Text) (st : d.State) (t : Text)
      → accounts (d.bind_param s ps st).1 t ≡ accounts st t
  pub hash_works : (p : Text) (st : d.State) → (d.pwhash_str p st).0 ≡ false
  pub hash_filled : (p : Text) (st : d.State) → (d.pwhash_str p st).1 ≢ []
  pub hash_text : (p : Text) (st : d.State) → c_string (d.pwhash_str p st).1 ≡ (d.pwhash_str p st).1
  pub hash_short : (p : Text) (st : d.State) → length (d.pwhash_str p st).1 < d.strbytes
  pub hash_verifies :
      (p : Text) (st : d.State) → d.pwhash_str_verify (d.pwhash_str p st).1 p ≡ false
  pub hash_keeps :
      (p : Text) (st : d.State) (t : Text) → accounts (d.pwhash_str p st).2 t ≡ accounts st t
  pub insert_works :
      (uid hashed : Text) (st : d.State)
      → id_fits uid ≡ true
      → length hashed < d.strbytes
      → bound join_membership_stmt st ≡ uid ∷ hashed ∷ []
      → accounts st uid ≡ none
      → ((d.execute join_membership_stmt st).0 ≡ false)
        × ((t : Text)
            → accounts (d.execute join_membership_stmt st).1 t
              ≡ set_account uid (hashed, none) (accounts st) t)
  pub insert_fails :
      (uid hashed : Text) (st : d.State) (a : Account)
      → id_fits uid ≡ true
      → length hashed < d.strbytes
      → bound join_membership_stmt st ≡ uid ∷ hashed ∷ []
      → accounts st uid ≡ some a
      → ((d.execute join_membership_stmt st).0 ≡ true)
        × (d.error_no join_membership_stmt (d.execute join_membership_stmt st).1 ≡ 1062)
        × ((t : Text) → accounts (d.execute join_membership_stmt st).1 t ≡ accounts st t)
  pub select_works :
      (s : Statement) (sizes : List ℕ) (uid : Text) (st : d.State)
      → is_select s ≡ true
      → bound s st ≡ uid ∷ []
      → ((d.execute s st).0 ≡ false) × ((d.bind_result s sizes (d.execute s st).1).0 ≡ false)
  pub select_keeps :
      (s : Statement) (sizes : List ℕ) (uid : Text) (st : d.State) (t : Text)
      → is_select s ≡ true
      → bound s st ≡ uid ∷ []
      → accounts (d.fetch s (d.bind_result s sizes (d.execute s st).1).1).1 t ≡ accounts st t
  pub login_fetch :
      (sizes : List ℕ) (uid : Text) (st : d.State)
      → bound login_stmt st ≡ uid ∷ []
      → (d.fetch login_stmt (d.bind_result login_stmt sizes (d.execute login_stmt st).1).1).0
        ≡ login_answer sizes (accounts st uid)
  pub info_fetch :
      (sizes : List ℕ) (uid : Text) (st : d.State)
      → bound user_info_stmt st ≡ uid ∷ []
      → (d.fetch user_info_stmt
          (d.bind_result user_info_stmt sizes (d.execute user_info_stmt st).1).1).0
        ≡ info_answer sizes (accounts st uid)
  pub reset_keeps :
      (s : Statement) (st : d.State) (t : Text)
      → accounts (d.stmt_reset s (d.free_result s st)) t ≡ accounts st t
  pub update_works :
      (name uid : Text) (st : d.State)
      → name_fits name ≡ true
      → bound user_name_stmt st ≡ name ∷ uid ∷ []
      → ((d.execute user_name_stmt st).0 ≡ false)
        × (d.affected_rows user_name_stmt (d.execute user_name_stmt st).1
            ≡ changed name (accounts st uid))
        × ((t : Text)
            → accounts (d.execute user_name_stmt st).1 t ≡ renamed name uid (accounts st) t)

pub renamed_same :
    (name uid : Text) (f g : Accounts)
    → ((t : Text) → f t ≡ g t)
    → (t : Text) → renamed name uid f t ≡ renamed name uid g t
renamed_same name uid f g same t = by_account (f uid) refl
  where
    by_account : (o : Option Account) → f uid ≡ o → renamed name uid f t ≡ renamed name uid g t
    by_account none e =
        ap (λ o. renamed_in name uid o f t) e
        ∙ same t
        ∙ sym (ap (λ o. renamed_in name uid o g t) (sym (same uid) ∙ e))
    by_account (some a) e =
        ap (λ o. renamed_in name uid o f t) e
        ∙ ap (λ z. if text_eq uid t then some (a.0, some name) else z) (same t)
        ∙ sym (ap (λ o. renamed_in name uid o g t) (sym (same uid) ∙ e))
