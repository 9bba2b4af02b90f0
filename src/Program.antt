-- ===== src/Program.antt =====
-- main.cpp and `ThreadManager::Launch`: how the program starts, waits and ends.
pub mod Launching
pub mod Main
use yuwibo_server.Prelude.{
  ℕ, zero, suc, ◌+◌, Bool, true, false, not, List, [], ◌∷◌, ◌++◌, Option, none, some, ◌==◌, leb,
  if◌then◌else◌, Outcome, ok, fault, ◌>>=◌, minus_one,
}
use yuwibo_server.Listener.{Prepared, nothing_prepared, start_accept, start_stop}
use yuwibo_server.Server.{SessionOps, Worker, Srv, register_buf_ring, stop}
use yuwibo_server.Tls.Setup.{Openssl, init_context}
use yuwibo_server.Database.{Driver, connect}
use yuwibo_server.Rooms.{Iteration}
use yuwibo_server.Packets.Dispatch.{init}

-- What the system answers to the start of a worker: whether `io_uring_queue_init` and
-- `io_uring_register_buf_ring` fail.
pub record Answers : Type 0 where
  pub queue_fails : Bool
  pub register_fails : Bool

-- Worker::Start: whether the thread runs; `none` is `std::terminate`.
unfoldable pub start_worker : Answers → Option Bool
start_worker a =
    if a.queue_fails
    then some false
    else elim (register_buf_ring a.register_fails) [ none ↦ none | some buffers ↦ some true ]

-- Whether each of the five calls of `io_uring_get_sqe` in StartAccept returns an entry.
pub record Entries : Type 0 where
  pub socket_entry : Bool
  pub option_entry : Bool
  pub bind_entry : Bool
  pub listen_entry : Bool
  pub accept_entry : Bool

-- The number of workers: `std::max((unsigned)1, hardware_concurrency())`.
unfoldable pub worker_count : ℕ → ℕ
worker_count zero = 1
worker_count (suc n) = suc n

module _ {R : Type 0} (o : SessionOps R) (idle : R) where
  -- ThreadManager while it launches: the server, which workers have a thread, and what the listener
  -- prepared on the first ring.
  pub record Manager : Type 0 where
    pub server : Srv o
    pub threads : List Bool
    pub prepared : Prepared

  -- `if(i==0) …`: the descriptors are registered, and the listener started, on the worker's ring, which
  -- was set up if the worker has a thread.
  unfoldable pub listen_first : ℕ → Bool → Entries → ℕ → Manager → Outcome Manager
  listen_first i thread e port m =
      if i == 0
      then (if thread
          then ok (record m {
            prepared =
                (start_accept e.socket_entry e.option_entry e.bind_entry e.listen_entry
                  e.accept_entry port m.prepared).1;
          })
          else fault)
      else ok m

  -- The first part of a turn of Launch: the worker starts, and the first one's ring gets the
  -- listener. The worker is not yet among `workers`.
  unfoldable pub begin_turn :
      ℕ → Answers → Entries → ℕ → Manager → Outcome (Option (Bool × Manager))
  begin_turn i a e port m = elim (start_worker a) [
    | none ↦ ok none
    | some thread ↦ do m' ← listen_first i thread e port m; ok (some (thread, m'))
  ]

  -- `workers.emplace_back(std::move(worker))`
  unfoldable pub end_turn : Bool → Manager → Manager
  end_turn thread m =
      let fresh : Worker o.S R = record { sessions = []; shared = idle } in
      record m {
        server = record m.server { workers = m.server.workers ++ (fresh ∷ []) };
        threads = m.threads ++ (thread ∷ []);
      }

  -- The loop of Launch from index `i` on, for as many turns as are left.
  unfoldable pub launch_loop :
      ℕ → ℕ → (ℕ → Answers) → Entries → ℕ → Manager → Outcome (Option Manager)
  launch_loop zero i answers e port m = ok (some m)
  launch_loop (suc left) i answers e port m = do
    begun ← begin_turn i (answers i) e port m
    elim begun [
      | none ↦ ok none
      | some (thread, m') ↦ launch_loop left (i + 1) answers e port (end_turn thread m')
    ]

  -- ThreadManager::Launch; `none` is `std::terminate`.
  unfoldable pub launch : ℕ → (ℕ → Answers) → Entries → ℕ → Manager → Outcome (Option Manager)
  launch hardware answers e port m =
      launch_loop (worker_count hardware) 0 answers e port
        (record m { server = record m.server { running = true } })

  -- ThreadManager before Launch.
  abbrev pub new_manager : Manager
  new_manager = record {
    server = record { workers = []; running = false; listener_running = false; next = 0 };
    threads = [];
    prepared = nothing_prepared;
  }
