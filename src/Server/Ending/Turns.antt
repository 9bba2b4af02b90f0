-- ===== src/Server/Ending/Turns.antt =====
-- Worker::Run over the completions of the cancellations that Worker::Stop asked for.
use yuwibo_server.Prelude.{
  ℕ, ◌-◌, ◌^◌, ◌≡◌, ◌≢◌, refl, sym, ◌∙◌, subst, Bool, true, false, not, ◌&&◌, List, [], ◌∷◌, Option,
  some, arith, ◌==◌, length_of_ne_nil, get_elem?, get_elem?-set_same, All, Outcome, ok,
}
use yuwibo_server.Listener.{recv, recv_cancel}
use yuwibo_server.Tls.{Ssl}
use yuwibo_server.Session.{Uring, Conn, close, on_recv}
use yuwibo_server.Server.{
  Cqe, SessionOps, Entry, Worker, Srv, get_size, set_worker, find_session, set_session,
  with_session, dispatch, handle_completion, run_turn, run,
}
use yuwibo_server.Server.Sessions.{Own, Shared, positive, method, session_ops}
use yuwibo_server.Server.Shutdown.{is_among, Covers, closed}
use yuwibo_server.Server.Closing.{
  Ack, reception_ended, cancel_completed, ack_address, ack_checks, addresses, AreDistinct,
  close-Effect, addresses-set_session, All-set_session, find_session-present,
}
use yuwibo_server.Server.Acknowledged.{IsStopping, set_session-AllStopping, find_session-canceling}

-- `-ECANCELED`
abbrev pub canceled : ℕ
canceled = 2 ^ 32 - 125

abbrev pub ack_cqe : Ack → Cqe
ack_cqe (reception_ended a) = record { user_data = some (recv a); res = canceled; flags = 0 }
ack_cqe (cancel_completed a) = record { user_data = some (recv_cancel a); res = 0; flags = 0 }

abbrev pub ack_events : List Ack → List (Option (ℕ × ℕ × Cqe))
ack_events [] = []
ack_events (k ∷ ks) = some (0, 0, ack_cqe k) ∷ ack_events ks

-- Every completion is of a session of the worker.
abbrev pub AreOf : List ℕ → List Ack → Type 0
AreOf ns acks = All (λ k. is_among (ack_address k) ns ≡ true) acks

module _ (u : Uring) (ssl : Ssl) (W : Type 0) (tls : ssl.State) (unset : ℕ)
    (handle : List ℕ → ℕ → Conn u ssl W → Outcome (Conn u ssl W))
    (free : (q : u.Ring) → (u.get_sqe q).0 ≡ true) where
  abbrev pub Ops : SessionOps (Shared u.Ring W)
  Ops = session_ops u ssl W tls unset handle

  abbrev pub Wrk : Type 0
  Wrk = Worker (Own ssl.State) (Shared u.Ring W)

  busy : (a b : Bool) → b ≡ false → (a && b) ≡ false
  busy a b e = ground arith

  -- One turn at a completion of a cancellation, while there are sessions.
  ack_turn :
      (i : ℕ) (k : Ack) (rest : List (Option (ℕ × ℕ × Cqe))) (w : Wrk) (v : Srv Ops)
      (s s' : Own ssl.State) (r' : Shared u.Ring W)
      → get_elem? v.workers i ≡ some w
      → w.sessions ≢ []
      → find_session (ack_address k) w.sessions ≡ some s
      → method u ssl W (close u ssl W (ack_checks k)) s w.shared ≡ ok (s', r')
      → run Ops i (some (0, 0, ack_cqe k) ∷ rest) v
        ≡ run Ops i rest (
            set_worker i
              (record { sessions = set_session (ack_address k) s' w.sessions; shared = r' })
              v)
  unfolding run run_turn handle_completion dispatch with_session on_recv positive
  ack_turn i (reception_ended a) rest w v s s' r' here some_left found closed =
      rw
        (
          here,
          busy (not v.running) (get_size w == 0) (length_of_ne_nil w.sessions some_left),
          found,
          closed,
        )
        refl
  ack_turn i (cancel_completed a) rest w v s s' r' here some_left found closed =
      rw
        (
          here,
          busy (not v.running) (get_size w == 0) (length_of_ne_nil w.sessions some_left),
          found,
          closed,
        )
        refl

  -- What the completions of the cancellations leave.
  abbrev pub Acknowledges : ℕ → List Ack → Wrk → Srv Ops → Type 0
  Acknowledges i acks w v =
      (w' : Wrk) × (v' : Srv Ops) × (run Ops i (ack_events acks) v ≡ ok (false, v'))
      × (get_elem? v'.workers i ≡ some w')
      × (v'.running ≡ v.running)
      × (w'.sessions ≢ [])
      × All (IsStopping [] w'.shared.requests) w'.sessions
      × ((fds : List ℕ) → Covers fds w.sessions → Covers fds w'.sessions)

  pub not_empty :
      (xs ys : List (Entry (Own ssl.State))) → addresses ys ≡ addresses xs → xs ≢ [] → ys ≢ []
  not_empty [] ys same some_left none_left = some_left refl
  not_empty (x ∷ xs) [] same some_left none_left = cc
  not_empty (x ∷ xs) (y ∷ ys) same some_left none_left = cc

  run_nothing : (i : ℕ) (v : Srv Ops) → run Ops i [] v ≡ ok (false, v)
  unfolding run
  run_nothing i v = refl

  pub run_acks_lem :
      (i : ℕ) (acks : List Ack) (w : Wrk) (v : Srv Ops)
      → get_elem? v.workers i ≡ some w
      → w.sessions ≢ []
      → AreDistinct (addresses w.sessions)
      → AreOf (addresses w.sessions) acks
      → All (IsStopping acks w.shared.requests) w.sessions
      → Acknowledges i acks w v
  run_acks_lem i [] w v here some_left distinct present all =
      (w, v, run_nothing i v, here, refl, some_left, all, λ fds covers. covers)
  run_acks_lem i (k ∷ ks) w v here some_left distinct present all =
      let (s, found) = find_session-present (ack_address k) w.sessions present.0 in
      let canceling : s.canceling ≡ true =
        find_session-canceling (k ∷ ks) w.shared.requests (ack_address k) s w.sessions found all in
      let (s', r', closed, f) = close-Effect u ssl W free (ack_checks k) s w.shared canceling in
      let next : Wrk = record {
        sessions = set_session (ack_address k) s' w.sessions;
        shared = r';
      } in
      let same = addresses-set_session (ack_address k) s' w.sessions in
      let (w₂, v₂, runs, there, running, left, known, covers) =
        run_acks_lem i ks next (set_worker i next v) (get_elem?-set_same v.workers i w next here)
          (not_empty w.sessions next.sessions same some_left)
          (subst AreDistinct (sym same) distinct) (subst (λ ns. AreOf ns ks) (sym same) present.1)
          (set_session-AllStopping k ks s s' w.shared.requests r'.requests w.sessions f found
            distinct all) in
      (
        w₂,
        v₂,
        ack_turn i k (ack_events ks) w v s s' r' here some_left found closed ∙ runs,
        there,
        running,
        left,
        known,
        λ fds c. covers fds (
            All-set_session (λ e. is_among e.fd fds ≡ true) (ack_address k) s' w.sessions (λ e h. h)
              c),
      )
