-- ===== src/Server/Stopping.antt =====
-- What Worker::Stop asks of io_uring for its sessions.
use yuwibo_server.Prelude.{
  subst, ℕ, suc, arith, ◌≡◌, refl, sym, ap, ◌∙◌, Bool, true, false, List, [], ◌∷◌, ◌++◌, ◌==◌,
  Bool-cases, inl, inr, if◌then◌else◌, length, All, append_assoc, append-nil, Outcome, ok,
}
use yuwibo_server.Tls.{Ssl}
use yuwibo_server.Session.{Uring, Request, nop, submitted, cancel_recv, Conn, start_close}
use yuwibo_server.Server.{
  SessionOps, Entry, Worker, start_closes, close_sessions, stop_sqe, stop_worker,
}
use yuwibo_server.Server.Closing.{addresses}
use yuwibo_server.Server.Sessions.{Own, Shared, stop_nop, session_ops}

-- The cancellations that were not asked for yet.
abbrev pub wanted : {T : Type 0} → List (Entry (Own T)) → List Request
wanted [] = []
wanted (e ∷ es) = if e.session.canceling then wanted es else cancel_recv e.session.fd ∷ wanted es

-- What Stop asks for: the cancellations, or without sessions the completion that ends the loop.
abbrev pub stop_requests : {T : Type 0} → List (Entry (Own T)) → List Request
stop_requests [] = nop ∷ submitted ∷ []
stop_requests (e ∷ es) = wanted (e ∷ es) ++ (submitted ∷ [])

module _ (u : Uring) (ssl : Ssl) (W : Type 0) (tls : ssl.State) (unset : ℕ)
    (handle : List ℕ → ℕ → Conn u ssl W → Outcome (Conn u ssl W))
    (free : (q : u.Ring) → (u.get_sqe q).0 ≡ true) where
  abbrev AreCanceling : List (Entry (Own ssl.State)) → Type 0
  AreCanceling es = All (λ (e : Entry (Own ssl.State)). e.session.canceling ≡ true) es

  abbrev Ops : SessionOps (Shared u.Ring W)
  Ops = session_ops u ssl W tls unset handle

  -- What StartClose does to a session.
  abbrev now_canceling : Own ssl.State → Own ssl.State
  now_canceling s = record s { canceling = true }

  -- What does not depend on whether a session is canceling, stays.
  abbrev pub Keeps : List (Entry (Own ssl.State)) → List (Entry (Own ssl.State)) → Type 1
  Keeps es es' =
      (P : Entry (Own ssl.State) → Type 0)
      → ((e : Entry (Own ssl.State)) → P e → P (record e { session = now_canceling e.session }))
      → All P es
      → All P es'

  start_close_lem :
      (s : Own ssl.State) (r : Shared u.Ring W)
      → (s' : Own ssl.State) × (r' : Shared u.Ring W) × (Ops.start_close false s r ≡ ok (s', r'))
        × (s' ≡ now_canceling s)
        × (r'.requests ≡ r.requests ++ (if s.canceling then [] else cancel_recv s.fd ∷ []))
  unfolding start_close
  start_close_lem s r = elim (Bool-cases s.canceling) [
    | inl already ↦ (
      s,
      r,
      rw already refl,
      ap (λ b. record s { canceling = b }) already,
      rw already (sym (append-nil r.requests)),
    )
    | inr first ↦ (
      record s { canceling = true },
      record r { ring = (u.get_sqe r.ring).1; requests = r.requests ++ (cancel_recv s.fd ∷ []) },
      rw (first, free r.ring) refl,
      refl,
      rw first refl,
    )
  ]

  start_closes_lem :
      (es : List (Entry (Own ssl.State))) (r : Shared u.Ring W)
      → (es' : List (Entry (Own ssl.State))) × (r' : Shared u.Ring W) × (start_closes Ops es r
          ≡ ok (es', r'))
        × AreCanceling es'
        × (length es' ≡ length es)
        × (r'.requests ≡ r.requests ++ wanted es)
        × (addresses es' ≡ addresses es)
        × Keeps es es'
  unfolding start_closes
  start_closes_lem [] r =
      ([], r, refl, tt, refl, sym (append-nil r.requests), refl, λ P stable all. all)
  start_closes_lem (e ∷ es) r =
      let (s, r₁, one, now, asks) = start_close_lem e.session r in
      let (es', r₂, more, all, len, asks', same, keeps) = start_closes_lem es r₁ in
      (
        record e { session = s } ∷ es',
        r₂,
        rw (one, more) refl,
        (ap (λ x. x.canceling) now, all),
        ap suc len,
        asks'
            ∙ ap (λ rs. rs ++ wanted es) asks
            ∙ one_more r.requests e.session.canceling e.session.fd (wanted es),
        ap (λ ns. e.address ∷ ns) same,
        λ P stable all. (
          subst (λ x. P (record e { session = x })) (sym now) (stable e all.0),
          keeps P stable all.1,
        ),
      )
    where
      one_more :
          (rs : List Request) (b : Bool) (fd : ℕ) (ws : List Request)
          → (rs ++ (if b then [] else cancel_recv fd ∷ [])) ++ ws
            ≡ rs ++ (if b then ws else cancel_recv fd ∷ ws)
      one_more rs true fd ws = ap (λ xs. xs ++ ws) (append-nil rs)
      one_more rs false fd ws = append_assoc rs (cancel_recv fd ∷ []) ws

  -- Worker::Stop of a stopped server: every session is canceling, and what was asked of io_uring is the
  -- cancellations that were not asked for before, or without sessions the completion that ends the
  -- loop.
  abbrev pub Cancels : Worker (Own ssl.State) (Shared u.Ring W) → Type 1
  Cancels w =
      (w' : Worker (Own ssl.State) (Shared u.Ring W)) × (stop_worker Ops false w ≡ ok w')
      × AreCanceling w'.sessions
      × (length w'.sessions ≡ length w.sessions)
      × (w'.shared.requests ≡ w.shared.requests ++ stop_requests w.sessions)
      × (addresses w'.sessions ≡ addresses w.sessions)
      × Keeps w.sessions w'.sessions

  pub stop_worker_lem : (w : Worker (Own ssl.State) (Shared u.Ring W)) → Cancels w
  unfolding stop_worker close_sessions stop_sqe stop_nop
  stop_worker_lem w = by_sessions w.sessions w.shared
    where
      some_left : (n : ℕ) → (suc n == 0) ≡ false
      some_left n = ground arith

      by_sessions :
          (es : List (Entry (Own ssl.State))) (r : Shared u.Ring W)
          → Cancels (record { sessions = es; shared = r })
      by_sessions [] r = (
        record { sessions = []; shared = stop_nop u ssl W r },
        refl,
        tt,
        refl,
        rw (free r.ring) (append_assoc r.requests (nop ∷ []) (submitted ∷ [])),
        refl,
        λ P stable all. all,
      )
      by_sessions (e ∷ es) r =
          let (es', r', runs, all, len, asks, same, keeps) = start_closes_lem (e ∷ es) r in
          (
            record {
              sessions = es';
              shared = record r' {
                ring = u.submit r'.ring;
                requests = r'.requests ++ (submitted ∷ []);
              };
            },
            rw (runs, ap (λ n. n == 0) len, some_left (length es)) refl,
            all,
            len,
            ap (λ rs. rs ++ (submitted ∷ [])) asks
                ∙ append_assoc r.requests (wanted (e ∷ es)) (submitted ∷ []),
            same,
            keeps,
          )
