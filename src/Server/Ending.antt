-- ===== src/Server/Ending.antt =====
-- The whole end of a worker with real sessions: Worker::Stop, the completions of its cancellations, and
-- the closings of its descriptors.
mod Turns
use yuwibo_server.Prelude.{
  ℕ, ◌-◌, ◌^◌, ◌≡◌, ◌≢◌, refl, sym, ap, ◌∙◌, subst, Bool, true, false, not, ◌&&◌, List, [], ◌∷◌,
  ◌++◌, Option, some, arith, ◌==◌, length_of_ne_nil, get_elem?, get_elem?-set_same, All, inl, inr,
  Outcome, ok, ◌⊎◌,
}
use yuwibo_server.Listener.{recv, recv_cancel}
use yuwibo_server.Tls.{Ssl}
use yuwibo_server.Session.{Uring, Request, Conn, close, on_recv}
use yuwibo_server.Server.{
  Cqe, SessionOps, Entry, Worker, Srv, get_size, set_worker, find_session, set_session,
  with_session, stop_worker, dispatch, handle_completion, run_turn, run,
}
use yuwibo_server.Server.Sessions.{Own, Shared, positive, method, session_ops}
use yuwibo_server.Server.Shutdown.{is_among, Covers, closed, Finishes, shutdown_lem}
use yuwibo_server.Server.Stopping.{stop_requests, stop_worker_lem}
use yuwibo_server.Server.Closing.{
  Ack, reception_ended, cancel_completed, ack_address, ack_checks, addresses, AreDistinct,
  is_settled, is_asked, is_asked-grows, Effect, close-Effect, addresses-set_session,
  All-set_session, find_session-present,
}
use yuwibo_server.Server.Acknowledged.{
  IsStopping, set_session-AllStopping, find_session-canceling, is_settled-same,
}
use yuwibo_server.Server.Ending.Turns.{ack_events, AreOf, Acknowledges, not_empty, run_acks_lem}

module _ (u : Uring) (ssl : Ssl) (W : Type 0) (tls : ssl.State) (unset : ℕ)
    (handle : List ℕ → ℕ → Conn u ssl W → Outcome (Conn u ssl W))
    (free : (q : u.Ring) → (u.get_sqe q).0 ≡ true) where
  abbrev Ops : SessionOps (Shared u.Ring W)
  Ops = session_ops u ssl W tls unset handle

  abbrev Wrk : Type 0
  Wrk = Worker (Own ssl.State) (Shared u.Ring W)

  -- The session is closing, and the close of its descriptor was asked for.
  abbrev pub IsClosing : Wrk → Entry (Own ssl.State) → Type 0
  IsClosing w e = (e.session.closing ≡ true) × (is_asked e.session.fd w.shared.requests ≡ true)

  all-IsClosing :
      (w : Wrk) (es : List (Entry (Own ssl.State)))
      → All (IsStopping [] w.shared.requests) es
      → All (IsClosing w) es
  all-IsClosing w [] all = tt
  all-IsClosing w (e ∷ es) all =
      let now : e.session.closing ≡ true = elim all.0.settled [ inl c ↦ c | inr never ↦ cc ] in
      ((now, all.0.asked now), all-IsClosing w es all.1)

  -- The whole end: Stop, the completions `acks`, and closings of the descriptors `fds`.
  abbrev pub Ends : ℕ → List Ack → List ℕ → Wrk → Srv Ops → Type 0
  Ends i acks fds w v =
      (w₁ : Wrk) × (w₂ : Wrk) × (v₂ : Srv Ops) × (v₃ : Srv Ops) × (used : List ℕ) × (unused : List
        ℕ)
      × (stop_worker Ops false w ≡ ok w₁)
      × (run Ops i (ack_events acks) (set_worker i w₁ v) ≡ ok (false, v₂))
      × (get_elem? v₂.workers i ≡ some w₂)
      × All (IsClosing w₂) w₂.sessions
      × (fds ≡ used ++ unused)
      × (run Ops i (closed used) v₂ ≡ ok (false, v₃))
      × Finishes Ops i w₂ v₃

  -- A session before Stop: a close that has begun was asked for, and one of the completions to come
  -- lets the session close.
  abbrev pub IsReady : List Ack → List Request → Entry (Own ssl.State) → Type 0
  IsReady acks rs e =
      (e.session.closing ≡ true → is_asked e.session.fd rs ≡ true)
      × ((e.session.closing ≡ true) ⊎ (is_settled acks e ≡ true))

  IsReady-still :
      (acks : List Ack) (rs : List Request) (e : Entry (Own ssl.State))
      → IsReady acks rs e
      → IsReady acks rs (record e { session = record e.session { canceling = true } })
  IsReady-still acks rs e h = (
    h.0,
    elim h.1 [
      | inl c ↦ inl c
      | inr comes ↦
          inr (is_settled-same acks e (record e.session { canceling = true }) refl ∙ comes)
    ],
  )

  IsReady-later :
      (acks : List Ack) (rs ss : List Request) (es : List (Entry (Own ssl.State)))
      → All (IsReady acks rs) es
      → All (IsReady acks (rs ++ ss)) es
  IsReady-later acks rs ss [] all = tt
  IsReady-later acks rs ss (e ∷ es) all = (
    (λ c. is_asked-grows e.session.fd rs ss (all.0.0 c), all.0.1),
    IsReady-later acks rs ss es all.1,
  )

  all-IsStopping :
      (acks : List Ack) (rs : List Request) (es : List (Entry (Own ssl.State)))
      → All (λ e. e.session.canceling ≡ true) es
      → All (IsReady acks rs) es
      → All (IsStopping acks rs) es
  all-IsStopping acks rs [] c r = tt
  all-IsStopping acks rs (e ∷ es) c r = (
    record { canceling = c.0; asked = r.0.0; settled = r.0.1 },
    all-IsStopping acks rs es c.1 r.1,
  )

  -- Let a server be stopped, its ring always have an entry, and a worker have sessions, each
  -- object at its own address, whose closes, if begun, were asked for. Worker::Stop returns. After
  -- it, let receptions of the worker's sessions end with ECANCELED and cancellations complete, in
  -- any order and number, so that each session that is not closing yet has a reception that ended,
  -- or has a cancellation that completed and sends nothing. Then every session is closing and the
  -- close of its descriptor was asked for. After that, the completions of the closes, in any
  -- order, lead within them to a worker without sessions, which has asked for one completion more,
  -- and the next completion that carries a context ends its loop.
  pub worker-Ends :
      (i : ℕ) (acks : List Ack) (fds : List ℕ) (w : Wrk) (v : Srv Ops)
      → v.running ≡ false
      → get_elem? v.workers i ≡ some w
      → w.sessions ≢ []
      → AreDistinct (addresses w.sessions)
      → Covers fds w.sessions
      → AreOf (addresses w.sessions) acks
      → All (IsReady acks w.shared.requests) w.sessions
      → Ends i acks fds w v
  worker-Ends i acks fds w v stopped here some_left distinct covers present ready =
      let (w₁, stops, canceling, len, asks, same, keeps) =
        stop_worker_lem u ssl W tls unset handle free w in
      let grown = all-IsStopping acks w₁.shared.requests w₁.sessions canceling (
        keeps (IsReady acks w₁.shared.requests) (IsReady-still acks w₁.shared.requests) (
          subst (λ rs. All (IsReady acks rs) w.sessions) (sym asks)
            (IsReady-later acks w.shared.requests (stop_requests w.sessions) w.sessions ready))) in
      let (w₂, v₂, runs, there, running, left, known, still) =
        run_acks_lem u ssl W tls unset handle free i acks w₁ (set_worker i w₁ v)
          (get_elem?-set_same v.workers i w w₁ here)
          (not_empty u ssl W tls unset handle free w.sessions w₁.sessions same some_left)
          (subst AreDistinct (sym same) distinct) (subst (λ ns. AreOf ns acks) (sym same) present)
          grown in
      let (used, unused, v₃, split, closes, finishes) =
        shutdown_lem Ops i fds w₂ v₂ (running ∙ stopped) there left
          (still fds (keeps (λ e. is_among e.fd fds ≡ true) (λ e h. h) covers)) in
      (
        w₁,
        w₂,
        v₂,
        v₃,
        used,
        unused,
        stops,
        runs,
        there,
        all-IsClosing w₂ w₂.sessions known,
        split,
        closes,
        finishes,
      )
