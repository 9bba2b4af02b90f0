-- ===== src/Examples/Accounts.antt =====
-- A server in memory whose accounts start without a name, and runs of the account methods on it.
use yuwibo_server.Prelude.{
  zero, ◌≤◌, leb, length, if◌then◌else◌, ℕ, suc, ◌≡◌, ◌≢◌, refl, ap, Bool, true, false, not, List,
  [], ◌∷◌, Option, none, some, arith, ok,
}
use yuwibo_server.Text.{Text, text_eq, text_eq_refl, c_string}
use yuwibo_server.Messages.{no_error, user_name_none}
use yuwibo_server.Database.{
  Driver, Statement, login_stmt, join_membership_stmt, user_name_stmt, user_info_stmt, Fetched,
  login, join_membership, user_name_register, get_user_info,
}
use yuwibo_server.Database.Accounts.{
  Account, Accounts, set_account, login_answer, info_answer, changed, renamed, IsServer, is_select,
}
use yuwibo_server.Database.Accounts.RoundTrip.{account_round_trip}

-- The accounts, the parameters bound last, the number of rows changed last, and the sizes of the
-- buffers bound last.
pub record Db : Type 0 where
  pub accounts : Accounts
  pub params : List Text
  pub changes : ℕ
  pub sizes : List ℕ

abbrev first : List Text → Text
first [] = []
first (t ∷ ts) = t

-- The columns of the table hold 80 characters.
abbrev fits_column : Text → Bool
fits_column t = leb (length t) 80

abbrev insert_row : Option Account → Db → List Text → Bool × Db
insert_row none db (u ∷ h ∷ rest) =
    if fits_column u
    then (false, record db { accounts = set_account u (h, none) db.accounts; changes = 1 })
    else (true, record db { changes = 0 })
insert_row taken db params = (true, record db { changes = 0 })

abbrev update_row : Db → List Text → Bool × Db
update_row db (n ∷ u ∷ rest) =
    if fits_column n
    then (
      false,
      record db { accounts = renamed n u db.accounts; changes = changed n (db.accounts u) },
    )
    else (true, record db { changes = 0 })
update_row db params = (true, record db { changes = 0 })

abbrev run_statement : Statement → Db → Bool × Db
run_statement join_membership_stmt db = insert_row (db.accounts (first db.params)) db db.params
run_statement user_name_stmt db = update_row db db.params
run_statement login_stmt db = (false, db)
run_statement user_info_stmt db = (false, db)

abbrev answer : Statement → List ℕ → Option Account → Fetched
answer user_info_stmt sizes o = info_answer sizes o
answer s sizes o = login_answer sizes o

-- A hash without a NUL, of so many characters at most.
abbrev scramble : ℕ → Text → Text
scramble zero p = []
scramble (suc n) [] = []
scramble (suc n) (x ∷ xs) = suc x ∷ scramble n xs

abbrev hash_of : Text → Text
hash_of p = 36 ∷ scramble 100 p

abbrev registry : Driver
registry = record {
  State = Db;
  init = λ t. (true, t);
  real_connect = λ t. (true, t);
  close = λ t. t;
  stmt_init = λ s t. (true, t);
  stmt_prepare = λ s t. (false, t);
  stmt_close = λ s t. t;
  bind_param = λ s params t. (false, record t { params = params });
  execute = run_statement;
  bind_result = λ s sizes t. (false, record t { sizes = sizes });
  fetch = λ s t. (answer s t.sizes (t.accounts (first t.params)), t);
  free_result = λ s t. t;
  stmt_reset = λ s t. t;
  error_no = λ s t. 1062;
  affected_rows = λ s t. t.changes;
  pwhash_str = λ p t. (false, hash_of p, t);
  pwhash_str_verify = λ hashed p. not (text_eq hashed (hash_of p));
  strbytes = 128;
}

c_string-scramble : (n : ℕ) (p : Text) → c_string (scramble n p) ≡ scramble n p
unfolding c_string
c_string-scramble zero p = refl
c_string-scramble (suc n) [] = refl
c_string-scramble (suc n) (x ∷ xs) = ground (arith, c_string-scramble n xs)

length-scramble : (n : ℕ) (p : Text) → length (scramble n p) ≤ n
length-scramble zero p = omega arith
length-scramble (suc n) [] = omega arith
length-scramble (suc n) (x ∷ xs) = omega (arith, length-scramble n xs)

hash_filled : (p : Text) → hash_of p ≢ []
hash_filled p e = cc

hash_text : (p : Text) → c_string (hash_of p) ≡ hash_of p
unfolding c_string
hash_text p = rw (c_string-scramble 100 p) refl

insert_row_new :
    (uid hashed : Text) (db : Db) (params : List Text)
    → fits_column uid ≡ true
    → params ≡ uid ∷ hashed ∷ []
    → db.accounts uid ≡ none
    → ((insert_row (db.accounts (first params)) db params).0 ≡ false)
      × ((t : Text)
          → (insert_row (db.accounts (first params)) db params).1.accounts t
            ≡ set_account uid (hashed, none) db.accounts t)
insert_row_new uid hashed db params fits e free = rw (e, free, fits) (refl, λ t. refl)

insert_row_taken :
    (uid hashed : Text) (db : Db) (params : List Text) (a : Account)
    → params ≡ uid ∷ hashed ∷ []
    → db.accounts uid ≡ some a
    → ((insert_row (db.accounts (first params)) db params).0 ≡ true)
      × ((t : Text)
          → (insert_row (db.accounts (first params)) db params).1.accounts t ≡ db.accounts t)
insert_row_taken uid hashed db params a e taken = rw (e, taken) (refl, λ t. refl)

update_row_lem :
    (name uid : Text) (db : Db) (params : List Text)
    → fits_column name ≡ true
    → params ≡ name ∷ uid ∷ []
    → ((update_row db params).0 ≡ false)
      × ((update_row db params).1.changes ≡ changed name (db.accounts uid))
      × ((t : Text) → (update_row db params).1.accounts t ≡ renamed name uid db.accounts t)
update_row_lem name uid db params fits e = rw (e, fits) (refl, refl, λ t. refl)

select_lem : (s : Statement) (st : Db) → is_select s ≡ true → run_statement s st ≡ (false, st)
select_lem login_stmt st e = refl
select_lem user_info_stmt st e = refl
select_lem join_membership_stmt st e = cc
select_lem user_name_stmt st e = cc

abbrev registry_server : IsServer registry
registry_server = record {
  accounts = λ st. st.accounts;
  bound = λ s st. st.params;
  id_fits = fits_column;
  name_fits = fits_column;
  bind_works = λ s ps st. refl;
  bind_sets = λ s ps st. refl;
  bind_keeps = λ s ps st t. refl;
  hash_works = λ p st. refl;
  hash_filled = λ p st. hash_filled p;
  hash_text = λ p st. hash_text p;
  hash_short = λ p st. omega (arith, length-scramble 100 p);
  hash_verifies = λ p st. ap not (text_eq_refl (hash_of p));
  hash_keeps = λ p st t. refl;
  insert_works = λ uid hashed st fits short. insert_row_new uid hashed st st.params fits;
  insert_fails = λ uid hashed st a fits short e taken. (
    (insert_row_taken uid hashed st st.params a e taken).0,
    refl,
    (insert_row_taken uid hashed st st.params a e taken).1,
  );
  select_works = λ s sizes uid st ask e. (ap (λ r. r.0) (select_lem s st ask), refl);
  select_keeps = λ s sizes uid st t ask e. ap (λ r. r.1.accounts t) (select_lem s st ask);
  login_fetch = λ sizes uid st e. ap (λ ps. login_answer sizes (st.accounts (first ps))) e;
  info_fetch = λ sizes uid st e. ap (λ ps. info_answer sizes (st.accounts (first ps))) e;
  reset_keeps = λ s st t. refl;
  update_works = λ name uid st fits. update_row_lem name uid st st.params fits;
}

abbrev pub empty_table : Db
empty_table = record { accounts = λ t. none; params = []; changes = 0; sizes = [] }

account_round_trip_example :
    (st₁ : Db) × (st₂ : Db) × (st₃ : Db) × (st₄ : Db) × (st₅ : Db) × (join_membership registry
        (97 ∷ [])
        (98 ∷ [])
        empty_table
      ≡ (0, st₁))
    × (login registry (97 ∷ []) (98 ∷ []) st₁ ≡ ok (true, some user_name_none, st₂))
    × (user_name_register registry (99 ∷ []) (97 ∷ []) st₂ ≡ (true, st₃))
    × (login registry (97 ∷ []) (98 ∷ []) st₃ ≡ ok (true, some no_error, st₄))
    × (get_user_info registry (97 ∷ []) st₄
        ≡ ok (record { success = true; user_name = 99 ∷ [] }, st₅))
account_round_trip_example =
    account_round_trip registry registry_server (97 ∷ []) (98 ∷ []) (99 ∷ []) empty_table refl refl
      (omega arith) refl
