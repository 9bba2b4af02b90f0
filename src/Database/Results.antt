-- ===== src/Database/Results.antt =====
-- The result of JoinMembership of DatabaseManager.cpp.
use yuwibo_server.Prelude.{
  ◌≡◌, refl, ap, length_of_ne_nil, ◌≢◌, ◌↔◌, arith, Bool, true, false, [], ◌∷◌, length,
}
use yuwibo_server.Text.{Text}
use yuwibo_server.Database.{Driver, join_membership_stmt, hashing, join_membership}

module _ (d : Driver) where
  open d use {State}

  -- After a statement that failed, the server has an error number.
  abbrev pub Numbers : Type 0
  Numbers =
      (st : State)
      → (d.execute join_membership_stmt st).0 ≡ true
      → d.error_no join_membership_stmt (d.execute join_membership_stmt st).1 ≢ 0

  -- The row was inserted, under a hash that is not empty.
  abbrev pub Inserted : Text → Text → State → State → Type 0
  Inserted user_id password st st' =
      (hashed : Text) × (st₁ : State) × (st₂ : State) × (hashing d password st ≡ (hashed, st₁))
      × (hashed ≢ [])
      × (d.bind_param join_membership_stmt (user_id ∷ hashed ∷ []) st₁ ≡ (false, st₂))
      × (d.execute join_membership_stmt st₂ ≡ (false, st'))

  -- If the server has an error number after a failed insertion, JoinMembership returns 0 exactly
  -- when the password was hashed and the insertion ran.
  pub join_membership-Inserted :
      (user_id password : Text) (st st' : State)
      → Numbers
      → (join_membership d user_id password st ≡ (0, st')) ↔ Inserted user_id password st st'
  unfolding join_membership
  join_membership-Inserted user_id password st st' numbers = (there, back)
    where
      hashed : Text
      hashed = (hashing d password st).0

      st₁ : State
      st₁ = (hashing d password st).1

      bound : Bool × State
      bound = d.bind_param join_membership_stmt (user_id ∷ hashed ∷ []) st₁

      executed : Bool × State
      executed = d.execute join_membership_stmt bound.1

      there : join_membership d user_id password st ≡ (0, st') → Inserted user_id password st st'
      there h = (
        hashed,
        st₁,
        bound.1,
        refl,
        λ empty. absurd (ground (arith, ap length empty)),
        ground arith,
        ground (arith, numbers bound.1),
      )

      back : Inserted user_id password st st' → join_membership d user_id password st ≡ (0, st')
      back (h, s₁, s₂, e₁, ne, e₂, e₃) = rw (e₁, length_of_ne_nil h ne, e₂, e₃) refl
