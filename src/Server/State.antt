-- ===== src/Server/State.antt =====
-- Worker.h, SessionManager.* and ThreadManager.h: a worker's sessions as a map of objects, the list of
-- workers, and the choice of one.
use yuwibo_server.Prelude.{
  ℕ, Bool, true, false, List, [], ◌∷◌, Option, none, some, ◌==◌, leb, if◌then◌else◌, length,
  get_elem?, set, Outcome, ok, ◌>>=◌, or_fault,
}
use yuwibo_server.Listener.{Context}

-- A completion: the user data, `res` (an `int`) and `flags`.
pub record Cqe : Type 0 where
  pub user_data : Option Context
  pub res : ℕ
  pub flags : ℕ

-- The methods of a session that the worker calls. `R` is what the sessions of a worker share.
pub record SessionOps (R : Type 0) : Type 1 where
  pub S : Type 0
  pub new_session : ℕ → S
  pub strat : S → R → Outcome (S × R)
  pub on_recv : ℕ → ℕ → S → R → Outcome (S × R)
  pub on_send : ℕ → S → R → Outcome (S × R)
  pub close : Bool → S → R → Outcome (S × R)
  pub start_close : Bool → S → R → Outcome (S × R)
  -- `io_uring_submit`.
  pub submit : R → R
  -- `io_uring_get_sqe` for a `nop` with a stop context, and `io_uring_submit` if there is an entry.
  pub stop_nop : R → R

-- An entry of `_sessions`: the key, the object's address, and the object.
pub record Entry (S : Type 0) : Type 0 where
  pub fd : ℕ
  pub address : ℕ
  pub session : S

pub record Worker (S R : Type 0) : Type 0 where
  pub sessions : List (Entry S)
  pub shared : R

-- ThreadManager with its listener. `next` is the address of the next object that is created.
pub record Server (S R : Type 0) : Type 0 where
  pub workers : List (Worker S R)
  pub running : Bool
  pub listener_running : Bool
  pub next : ℕ

module _ {S : Type 0} where
  -- `_sessions[fd] = …` destroys the session that stood there.
  unfoldable pub put_session : Entry S → List (Entry S) → List (Entry S)
  put_session e [] = e ∷ []
  put_session e (x ∷ xs) = if x.fd == e.fd then e ∷ xs else x ∷ put_session e xs

  -- SessionManager::RemoveSession
  unfoldable pub remove_session : ℕ → List (Entry S) → List (Entry S)
  remove_session fd [] = []
  remove_session fd (x ∷ xs) = if x.fd == fd then remove_session fd xs else x ∷ remove_session fd xs

  -- The object at an address; there is none after it was destroyed.
  unfoldable pub find_session : ℕ → List (Entry S) → Option S
  find_session address [] = none
  find_session address (x ∷ xs) =
      if x.address == address then some x.session else find_session address xs

  unfoldable pub set_session : ℕ → S → List (Entry S) → List (Entry S)
  set_session address s [] = []
  set_session address s (x ∷ xs) =
      if x.address == address then record x { session = s } ∷ xs else x ∷ set_session address s xs

module _ {S R : Type 0} where
  -- SessionManager::GetSize and Worker::GetSessionCount
  abbrev pub get_size : Worker S R → ℕ
  get_size w = length w.sessions

  -- ThreadManager::GetRandomWorker, given the two random numbers: the index of the worker.
  unfoldable pub get_random_worker : ℕ → ℕ → List (Worker S R) → Outcome ℕ
  get_random_worker i j workers = do
    first ← or_fault (get_elem? workers i)
    second ← or_fault (get_elem? workers j)
    ok (if leb (get_size first) (get_size second) then i else j)

  -- ThreadManager::GetRandomRing, which compares as GetRandomWorker does: what the worker's sessions
  -- share, the ring among it.
  unfoldable pub get_random_ring : ℕ → ℕ → List (Worker S R) → Outcome R
  get_random_ring i j workers = do
    first ← or_fault (get_elem? workers i)
    second ← or_fault (get_elem? workers j)
    ok (if leb (get_size first) (get_size second) then first.shared else second.shared)

  abbrev pub worker_at : ℕ → Server S R → Outcome (Worker S R)
  worker_at i v = or_fault (get_elem? v.workers i)

  abbrev pub set_worker : ℕ → Worker S R → Server S R → Server S R
  set_worker i w v = record v { workers = set v.workers i w }

module _ {S R : Type 0} where
  -- ThreadManager::OnListenerStart and OnListenerClosed
  abbrev pub on_listener_start : Server S R → Server S R
  on_listener_start v = record v { listener_running = true }

  abbrev pub on_listener_closed : Server S R → Server S R
  on_listener_closed v = record v { listener_running = false }
