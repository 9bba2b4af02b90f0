-- ===== src/Server/Closing.antt =====
-- What the completions of a cancellation do to a stopping worker's sessions: Session::Close, called by
-- OnRecv at the end of the reception and by HandleCompletion at the completion of the cancellation.
use yuwibo_server.Prelude.{
  ℕ, ◌≡◌, refl, ap, Bool, true, false, not, ◌&&◌, ◌||◌, List, [], ◌∷◌, ◌++◌, some, arith, ◌==◌, ltb,
  Bool-cases, inl, inr, All, ok, ◌⊎◌,
}
use yuwibo_server.Tls.{Ssl}
use yuwibo_server.Session.{Uring, Request, close_fd, submitted, close}
use yuwibo_server.Server.{Entry, find_session, set_session}
use yuwibo_server.Server.Sessions.{Own, Shared, method}
use yuwibo_server.Server.Shutdown.{is_among}

-- A completion that follows a cancellation, at the address of the session.
pub data Ack : Type 0 where
  -- The reception has ended, with an error.
  reception_ended : ℕ → Ack
  -- The cancellation itself has completed.
  cancel_completed : ℕ → Ack

abbrev pub ack_address : Ack → ℕ
ack_address (reception_ended a) = a
ack_address (cancel_completed a) = a

-- Whether Close is called with the additional check.
abbrev pub ack_checks : Ack → Bool
ack_checks (reception_ended a) = false
ack_checks (cancel_completed a) = true

abbrev pub addresses : {S : Type 0} → List (Entry S) → List ℕ
addresses [] = []
addresses (e ∷ es) = e.address ∷ addresses es

abbrev pub AreDistinct : List ℕ → Type 0
AreDistinct [] = Unit {0}
AreDistinct (n ∷ ns) = (is_among n ns ≡ false) × AreDistinct ns

module _ {T : Type 0} where
  -- Nothing is being sent.
  abbrev pub is_idle : Own T → Bool
  is_idle s = not (s.is_sending || ltb 0 s.send_count)

  -- Whether Close goes on to closing, for a session that is canceling.
  abbrev pub closes : Bool → Own T → Bool
  closes checks s = not checks || is_idle s

  -- One of the completions lets the session close.
  abbrev pub is_settled : List Ack → Entry (Own T) → Bool
  is_settled [] e = false
  is_settled (k ∷ ks) e =
      (e.address == ack_address k && closes (ack_checks k) e.session) || is_settled ks e

abbrev is_close : ℕ → Request → Bool
is_close fd (close_fd n) = n == fd
is_close fd r = false

-- The close of a descriptor was asked for.
abbrev pub is_asked : ℕ → List Request → Bool
is_asked fd [] = false
is_asked fd (r ∷ rs) = is_close fd r || is_asked fd rs

or_still : (a b c : Bool) → (b ≡ true → c ≡ true) → (a || b) ≡ true → (a || c) ≡ true
or_still true b c f h = refl
or_still false b c f h = f h

pub is_asked-grows :
    (fd : ℕ) (rs ss : List Request) → is_asked fd rs ≡ true → is_asked fd (rs ++ ss) ≡ true
is_asked-grows fd [] ss h = cc
is_asked-grows fd (r ∷ rs) ss h =
    or_still (is_close fd r) (is_asked fd rs) (is_asked fd (rs ++ ss)) (is_asked-grows fd rs ss) h

is_asked-last : (fd : ℕ) (rs ss : List Request) → is_asked fd (rs ++ (close_fd fd ∷ ss)) ≡ true
is_asked-last fd [] ss = same (is_asked fd ss)
  where
    same : (b : Bool) → (fd == fd || b) ≡ true
    same b = ground arith
is_asked-last fd (r ∷ rs) ss =
    or_still (is_close fd r) true (is_asked fd (rs ++ (close_fd fd ∷ ss)))
      (λ h. is_asked-last fd rs ss) (right (is_close fd r))
  where
    right : (a : Bool) → (a || true) ≡ true
    right a = ground arith

-- What a call of Close leaves of a canceling session, and of the requests.
pub record Effect {T : Type 0} (checks : Bool) (s s' : Own T) (rs rs' : List Request) : Type 0 where
  pub canceling : s'.canceling ≡ true
  pub same_fd : s'.fd ≡ s.fd
  pub same_idle : is_idle s' ≡ is_idle s
  pub closing_now : closes checks s ≡ true → s'.closing ≡ true
  pub closing_still : s.closing ≡ true → s'.closing ≡ true
  pub asked : s'.closing ≡ true → (s.closing ≡ true) ⊎ (is_asked s.fd rs' ≡ true)
  pub grows : (fd : ℕ) → is_asked fd rs ≡ true → is_asked fd rs' ≡ true

module _ (u : Uring) (ssl : Ssl) (W : Type 0) (free : (q : u.Ring) → (u.get_sqe q).0 ≡ true) where
  -- Close of a canceling session, with a ring that always has an entry.
  pub close-Effect :
      (checks : Bool) (s : Own ssl.State) (r : Shared u.Ring W)
      → s.canceling ≡ true
      → (s' : Own ssl.State) × (r' : Shared u.Ring W) × (method u ssl W (close u ssl W checks) s r
          ≡ ok (s', r'))
        × Effect checks s s' r.requests r'.requests
  unfolding close
  close-Effect checks s r canceling =
      elim (Bool-cases (checks && (s.is_sending || ltb 0 s.send_count))) [
        | inl busy ↦ (
          s,
          r,
          rw (canceling, busy) refl,
          record {
            canceling = canceling;
            same_fd = refl;
            same_idle = refl;
            closing_now = λ h. absurd (not_both checks (s.is_sending || ltb 0 s.send_count) busy h);
            closing_still = λ h. h;
            asked = λ h. inl h;
            grows = λ fd h. h;
          },
        )
        | inr idle ↦ elim (Bool-cases s.closing) [
          | inl already ↦ (
            s,
            r,
            rw (canceling, idle, already) refl,
            record {
              canceling = canceling;
              same_fd = refl;
              same_idle = refl;
              closing_now = λ h. already;
              closing_still = λ h. h;
              asked = λ h. inl h;
              grows = λ fd h. h;
            },
          )
          | inr first ↦ (
            record s { closing = true },
            record r {
              ring = u.submit (u.get_sqe r.ring).1;
              requests = (r.requests ++ (close_fd s.fd ∷ [])) ++ (submitted ∷ []);
            },
            rw (canceling, idle, first, free r.ring) refl,
            record {
              canceling = canceling;
              same_fd = refl;
              same_idle = refl;
              closing_now = λ h. refl;
              closing_still = λ h. refl;
              asked = λ h. inr (
                  is_asked-grows s.fd (r.requests ++ (close_fd s.fd ∷ [])) (submitted ∷ [])
                    (is_asked-last s.fd r.requests []));
              grows = λ fd h.
                  is_asked-grows fd (r.requests ++ (close_fd s.fd ∷ [])) (submitted ∷ [])
                    (is_asked-grows fd r.requests (close_fd s.fd ∷ []) h);
            },
          )
        ]
      ]
    where
      not_both : (a b : Bool) → (a && b) ≡ true → (not a || not b) ≡ true → ⊥
      not_both a b g h = ground arith

module _ {T : Type 0} where
  pub addresses-set_session :
      (a : ℕ) (s : T) (es : List (Entry T)) → addresses (set_session a s es) ≡ addresses es
  unfolding set_session
  addresses-set_session a s [] = refl
  addresses-set_session a s (e ∷ es) = elim (Bool-cases (e.address == a)) [
    | inl here ↦ rw here refl
    | inr there ↦ rw there (ap (λ ns. e.address ∷ ns) (addresses-set_session a s es))
  ]

  -- What holds whatever the session is, holds after a change of one.
  pub All-set_session :
      (P : Entry T → Type 0) (a : ℕ) (s : T) (es : List (Entry T))
      → ((e : Entry T) → P e → P (record e { session = s }))
      → All P es
      → All P (set_session a s es)
  unfolding set_session
  All-set_session P a s [] keeps all = tt
  All-set_session P a s (e ∷ es) keeps all = elim (Bool-cases (e.address == a)) [
    | inl here ↦ rw here (keeps e all.0, all.1)
    | inr there ↦ rw there (all.0, All-set_session P a s es keeps all.1)
  ]

  pub find_session-present :
      (a : ℕ) (es : List (Entry T))
      → is_among a (addresses es) ≡ true
      → (s : T) × (find_session a es ≡ some s)
  unfolding find_session
  find_session-present a [] h = cc
  find_session-present a (e ∷ es) h = elim (Bool-cases (e.address == a)) [
    | inl here ↦ (e.session, rw here refl)
    | inr there ↦
        let (s, found) = find_session-present a es (rest (e.address == a) there h) in
        (s, rw there found)
  ]
    where
      rest :
          (b : Bool)
          → b ≡ false
          → (b || is_among a (addresses es)) ≡ true
          → is_among a (addresses es) ≡ true
      rest true n h = cc
      rest false n h = h
