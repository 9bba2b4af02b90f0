-- ===== src/Server.antt =====
-- Worker.h, Worker.cpp, SessionManager.h, SessionManager.cpp, ThreadManager.h and ThreadManager.cpp:
-- the workers, each with its ring and its sessions, and how completions are dispatched. A session is
-- used through the interface `SessionOps`.
pub mod Lifecycle
pub mod Sessions
pub mod Stopping
pub mod Acknowledged
pub mod Closing
pub mod Ending
pub mod Joining
pub mod Shutdown
mod State
unfoldable pub use State.*
use yuwibo_server.Prelude.{
  ℕ, zero, suc, ◌+◌, ◌-◌, ◌/◌, ◌%◌, ◌^◌, Bool, true, false, not, ◌&&◌, ◌||◌, List, [], ◌∷◌, Option,
  none, some, ◌==◌, leb, if◌then◌else◌, length, get_elem?, set, Outcome, ok, ◌>>=◌, or_fault,
  is_negative, u16_mod,
}
use yuwibo_server.Buffer.{RecvBuffer, new_recv, default_size}
use yuwibo_server.Listener.{
  Context, accept, accept_cancel, listener_close, worker_stop, socket_setup_chain_start, recv,
  recv_cancel, send, session_close,
}

module _ {R : Type 0} (o : SessionOps R) where
  abbrev pub Srv : Type 0
  Srv = Server o.S R

  -- A method of the session at an address; of a destroyed session it is a fault.
  unfoldable pub with_session :
      ℕ → (o.S → R → Outcome (o.S × R)) → Worker o.S R → Outcome (Worker o.S R)
  with_session address method w = do
    s ← or_fault (find_session address w.sessions)
    (s, shared) ← method s w.shared
    ok (record { sessions = set_session address s w.sessions; shared = shared })

  -- SessionManager::AddSession, called through Worker::AddSession.
  unfoldable pub add_session : ℕ → ℕ → Worker o.S R → Outcome (Worker o.S R)
  unfolding with_session
  add_session address fd w =
      let entry : Entry o.S = record { fd = fd; address = address; session = o.new_session fd } in
      with_session address o.strat (record w { sessions = put_session entry w.sessions })

  -- The loop of SessionManager::Close.
  unfoldable pub start_closes : List (Entry o.S) → R → Outcome (List (Entry o.S) × R)
  start_closes [] r = ok ([], r)
  start_closes (x ∷ xs) r = do
    (s, r) ← o.start_close false x.session r
    (xs, r) ← start_closes xs r
    ok (record x { session = s } ∷ xs, r)

  -- SessionManager::Close
  unfoldable pub close_sessions : List (Entry o.S) → R → Outcome (List (Entry o.S) × R)
  unfolding start_closes
  close_sessions [] r = ok ([], r)
  close_sessions (x ∷ xs) r = do (xs, r) ← start_closes (x ∷ xs) r; ok (xs, o.submit r)

  -- Worker::StopSQE, given the server's `running`.
  unfoldable pub stop_sqe : Bool → Worker o.S R → Worker o.S R
  stop_sqe running w =
      if running || not (get_size w == 0) then w else record w { shared = o.stop_nop w.shared }

  -- Worker::Stop
  unfoldable pub stop_worker : Bool → Worker o.S R → Outcome (Worker o.S R)
  unfolding close_sessions stop_sqe
  stop_worker running w = do
    (xs, r) ← close_sessions w.sessions w.shared
    ok (stop_sqe running (record { sessions = xs; shared = r }))

  -- Worker::OnAcceptCompleted of any worker, given the random numbers.
  unfoldable pub on_accept_completed : ℕ → ℕ → Cqe → Srv → Outcome Srv
  unfolding get_random_worker add_session
  on_accept_completed r₁ r₂ cqe v = if is_negative cqe.res then ok v else (do
    i ← get_random_worker r₁ r₂ v.workers
    w ← worker_at i v
    w ← add_session v.next cqe.res w
    ok (record (set_worker i w v) { next = v.next + 1 }))

  abbrev on_worker : ℕ → (Worker o.S R → Outcome (Worker o.S R)) → Srv → Outcome Srv
  on_worker i f v = do w ← worker_at i v; w ← f w; ok (set_worker i w v)

  -- The switches of Worker::HandleCompletion, at the context of the completion.
  unfoldable pub dispatch : ℕ → ℕ → ℕ → Context → Cqe → Srv → Outcome Srv
  unfolding on_accept_completed with_session stop_sqe
  dispatch i r₁ r₂ accept cqe v = on_accept_completed r₁ r₂ cqe v
  dispatch i r₁ r₂ accept_cancel cqe v = ok v
  dispatch i r₁ r₂ worker_stop cqe v = ok v
  dispatch i r₁ r₂ listener_close cqe v = ok (on_listener_closed v)
  dispatch i r₁ r₂ (socket_setup_chain_start port) cqe v = ok (on_listener_start v)
  dispatch i r₁ r₂ (recv s) cqe v =
      on_worker i (with_session s (o.on_recv cqe.res (cqe.flags / 2 ^ 16 % u16_mod))) v
  dispatch i r₁ r₂ (recv_cancel s) cqe v = on_worker i (with_session s (o.close true)) v
  dispatch i r₁ r₂ (send s) cqe v = on_worker i (with_session s (o.on_send cqe.res)) v
  dispatch i r₁ r₂ (session_close fd) cqe v =
      on_worker i
        (λ w. ok (stop_sqe v.running (record w { sessions = remove_session fd w.sessions }))) v

  unfoldable pub handle_completion : ℕ → ℕ → ℕ → Cqe → Srv → Outcome Srv
  unfolding dispatch
  handle_completion i r₁ r₂ cqe v = elim cqe.user_data [
    | none ↦ ok v
    | some context ↦ dispatch i r₁ r₂ context cqe v
  ]

  -- One turn of Worker::Run at a completion: whether the loop ends, and the server after it.
  unfoldable pub run_turn : ℕ → ℕ → ℕ → Cqe → Srv → Outcome (Bool × Srv)
  unfolding handle_completion
  run_turn i r₁ r₂ cqe v = do
    w ← worker_at i v
    let stops : Bool = elim cqe.user_data [
      | none ↦ false
      | some context ↦ not v.running && get_size w == 0
    ]
    if stops then ok (true, v) else (do v ← handle_completion i r₁ r₂ cqe v; ok (false, v))

  -- Worker::Run over the results of `io_uring_wait_cqe`: `none` is an error. The result is whether
  -- the loop has ended within the list.
  unfoldable pub run : ℕ → List (Option (ℕ × ℕ × Cqe)) → Srv → Outcome (Bool × Srv)
  run i [] v = ok (false, v)
  run i (none ∷ rest) v = run i rest v
  run i (some (r₁, r₂, cqe) ∷ rest) v = do
    (ended, v) ← run_turn i r₁ r₂ cqe v
    let more = run i rest v
    if ended then ok (true, v) else more

  -- ThreadManager::Stop, up to the calls of Join.
  unfoldable pub stop_workers : List (Worker o.S R) → Outcome (List (Worker o.S R))
  unfolding stop_worker
  stop_workers [] = ok []
  stop_workers (w ∷ ws) = do w ← stop_worker false w; ws ← stop_workers ws; ok (w ∷ ws)

  unfoldable pub stop : Srv → Outcome Srv
  stop v = do ws ← stop_workers v.workers; ok (record v { running = false; workers = ws })

-- Worker::RegisterBufRing: the pool, and the calls of `io_uring_buf_ring_add` (identifier, mask and
-- offset), behind which the ring is advanced by their number.
abbrev pub buf_count : ℕ
buf_count = 128

abbrev pub buf_group_id : ℕ
buf_group_id = 42

unfoldable pub register_buffers : ℕ → ℕ → List RecvBuffer × List (ℕ × ℕ × ℕ)
register_buffers zero i = ([], [])
register_buffers (suc n) i =
    let (pool, adds) = register_buffers n (i + 1) in
    (new_recv buf_group_id i default_size ∷ pool, (i, buf_count - 1, i) ∷ adds)

-- `none` is `std::terminate`, when the registration fails.
unfoldable pub register_buf_ring : Bool → Option (List RecvBuffer × List (ℕ × ℕ × ℕ))
unfolding register_buffers
register_buf_ring failed = if failed then none else some (register_buffers buf_count 0)
