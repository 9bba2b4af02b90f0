-- ===== src/Server/Acknowledged.antt =====
-- What is known of the sessions of a stopping worker while the completions of its cancellations come.
use yuwibo_server.Prelude.{
  ℕ, ◌≡◌, refl, sym, ap, ◌∙◌, subst, Bool, true, false, not, ◌&&◌, ◌||◌, List, [], ◌∷◌, some,
  some-injective, arith, ◌==◌, if◌then◌else◌, ==_iff, Bool-cases, inl, inr, All, ◌⊎◌,
}
use yuwibo_server.Session.{Request}
use yuwibo_server.Server.{Entry, find_session, set_session}
use yuwibo_server.Server.Sessions.{Own}
use yuwibo_server.Server.Shutdown.{is_among}
use yuwibo_server.Server.Closing.{
  Ack, ack_address, ack_checks, addresses, AreDistinct, is_idle, closes, is_settled, is_asked,
  Effect,
}

-- One session, given the completions to come and the requests made so far.
pub record IsStopping {T : Type 0} (acks : List Ack) (rs : List Request) (e : Entry (Own T))
    : Type 0 where
  pub canceling : e.session.canceling ≡ true
  pub asked : e.session.closing ≡ true → is_asked e.session.fd rs ≡ true
  pub settled : (e.session.closing ≡ true) ⊎ (is_settled acks e ≡ true)

or_cases : (a b : Bool) → (a || b) ≡ true → (a ≡ true) ⊎ (b ≡ true)
or_cases true b h = inl refl
or_cases false b h = inr h

and_right : (a b : Bool) → (a && b) ≡ true → b ≡ true
and_right a b h = ground arith

and_left : (a b : Bool) → (a && b) ≡ true → a ≡ true
and_left a b h = ground arith

never_both : (b : Bool) → b ≡ false → b ≡ true → ⊥
never_both b f t = cc

if_true {ℓ} : {A : Type ℓ} (b : Bool) (x y z : A) → b ≡ true → (if b then x else y) ≡ z → x ≡ z
if_true true x y z h q = q
if_true false x y z h q = cc

if_false {ℓ} : {A : Type ℓ} (b : Bool) (x y z : A) → b ≡ false → (if b then x else y) ≡ z → y ≡ z
if_false true x y z h q = cc
if_false false x y z h q = q

module _ {T : Type 0} where
  pub is_settled-same :
      (acks : List Ack) (e : Entry (Own T)) (s' : Own T)
      → is_idle s' ≡ is_idle e.session
      → is_settled acks (record e { session = s' }) ≡ is_settled acks e
  is_settled-same [] e s' same = refl
  is_settled-same (k ∷ ks) e s' same =
      ap
        (λ b.
          (e.address == ack_address k && (not (ack_checks k) || b))
          || is_settled ks (record e { session = s' }))
        same
      ∙ ap (λ b. (e.address == ack_address k && closes (ack_checks k) e.session) || b)
          (is_settled-same ks e s' same)

  -- The session of the completion.
  touched-IsStopping :
      (k : Ack) (acks : List Ack) (e : Entry (Own T)) (s' : Own T) (rs rs' : List Request)
      → Effect (ack_checks k) e.session s' rs rs'
      → IsStopping (k ∷ acks) rs e
      → IsStopping acks rs' (record e { session = s' })
  touched-IsStopping k acks e s' rs rs' f h = record {
    canceling = f.canceling;
    asked = λ now.
        subst (λ n. is_asked n rs' ≡ true) (sym f.same_fd)
          (elim (f.asked now) [
            | inl before ↦ f.grows e.session.fd (h.asked before)
            | inr new ↦ new
          ]);
    settled = elim h.settled [
      | inl closing ↦ inl (f.closing_still closing)
      | inr comes ↦ elim (or_cases _ _ comes) [
        | inl this ↦ inl (f.closing_now (and_right _ _ this))
        | inr later ↦ inr (is_settled-same acks e s' f.same_idle ∙ later)
      ]
    ];
  }

  -- Another session.
  other-IsStopping :
      (k : Ack) (acks : List Ack) (e : Entry (Own T)) (s s' : Own T) (rs rs' : List Request)
      → Effect (ack_checks k) s s' rs rs'
      → (e.address == ack_address k) ≡ false
      → IsStopping (k ∷ acks) rs e
      → IsStopping acks rs' e
  other-IsStopping k acks e s s' rs rs' f other h = record {
    canceling = h.canceling;
    asked = λ now. f.grows e.session.fd (h.asked now);
    settled = elim h.settled [
      | inl closing ↦ inl closing
      | inr comes ↦ elim (or_cases _ _ comes) [
        | inl this ↦ absurd (never_both _ other (and_left _ _ this))
        | inr later ↦ inr later
      ]
    ];
  }

  others-AllStopping :
      (k : Ack) (acks : List Ack) (s s' : Own T) (rs rs' : List Request) (es : List (Entry (Own T)))
      → Effect (ack_checks k) s s' rs rs'
      → is_among (ack_address k) (addresses es) ≡ false
      → All (IsStopping (k ∷ acks) rs) es
      → All (IsStopping acks rs') es
  others-AllStopping k acks s s' rs rs' [] f absent all = tt
  others-AllStopping k acks s s' rs rs' (e ∷ es) f absent all = (
    other-IsStopping k acks e s s' rs rs' f
        (neither (e.address == ack_address k) (is_among (ack_address k) (addresses es)) absent).0
        all.0,
    others-AllStopping k acks s s' rs rs' es f
        (neither (e.address == ack_address k) (is_among (ack_address k) (addresses es)) absent).1
        all.1,
  )
    where
      neither : (a b : Bool) → (a || b) ≡ false → (a ≡ false) × (b ≡ false)
      neither a b h = (ground arith, ground arith)

  -- A completion leaves all of that known, if every object has its own address.
  pub set_session-AllStopping :
      (k : Ack) (acks : List Ack) (s s' : Own T) (rs rs' : List Request) (es : List (Entry (Own T)))
      → Effect (ack_checks k) s s' rs rs'
      → find_session (ack_address k) es ≡ some s
      → AreDistinct (addresses es)
      → All (IsStopping (k ∷ acks) rs) es
      → All (IsStopping acks rs') (set_session (ack_address k) s' es)
  unfolding find_session set_session
  set_session-AllStopping k acks s s' rs rs' [] f found distinct all = tt
  set_session-AllStopping k acks s s' rs rs' (e ∷ es) f found distinct all =
      elim (Bool-cases (e.address == ack_address k)) [
        | inl here ↦
            let same : e.session ≡ s =
              some-injective (
                if_true _ (some e.session) (find_session (ack_address k) es) (some s) here found) in
            rw here (
              touched-IsStopping k acks e s' rs rs'
                  (subst (λ x. Effect (ack_checks k) x s' rs rs') (sym same) f) all.0,
              others-AllStopping k acks s s' rs rs' es f
                  (subst (λ n. is_among n (addresses es) ≡ false) ((==_iff _ _).0 here) distinct.0)
                  all.1,
            )
        | inr there ↦ rw there (
          other-IsStopping k acks e s s' rs rs' f there all.0,
          set_session-AllStopping k acks s s' rs rs' es f
              (if_false _ (some e.session) (find_session (ack_address k) es) (some s) there found)
              distinct.1 all.1,
        )
      ]

  pub find_session-canceling :
      (acks : List Ack) (rs : List Request) (a : ℕ) (s : Own T) (es : List (Entry (Own T)))
      → find_session a es ≡ some s
      → All (IsStopping acks rs) es
      → s.canceling ≡ true
  unfolding find_session
  find_session-canceling acks rs a s [] found all = cc
  find_session-canceling acks rs a s (e ∷ es) found all = elim (Bool-cases (e.address == a)) [
    | inl here ↦
        ap (λ x. x.canceling)
          (sym
            (some-injective (if_true _ (some e.session) (find_session a es) (some s) here found)))
        ∙ all.0.canceling
    | inr there ↦
        find_session-canceling acks rs a s es
          (if_false _ (some e.session) (find_session a es) (some s) there found) all.1
  ]
