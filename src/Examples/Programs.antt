-- ===== src/Examples/Programs.antt =====
-- A start and an end of the server with two workers, over sessions that only count.
use yuwibo_server.Prelude.{ℕ, ◌≡◌, ◌≤◌, ◌++◌, refl, true, false, List, [], ◌∷◌, some, ok}
use yuwibo_server.Server.{Srv}
use yuwibo_server.Server.Shutdown.{closed, Finishes, shutdown_lem}
use yuwibo_server.Server.{run}
use yuwibo_server.Program.{Answers, Entries, worker_count, Manager, launch, new_manager}
use yuwibo_server.Listener.{nothing_prepared}
use yuwibo_server.Program.Launching.{IsLaunched, Draws, listening, launch-IsLaunched}
use yuwibo_server.Examples.Workers.{counting, busy, stopping}

abbrev works : Answers
works = record { queue_fails = false; register_fails = false }

abbrev all_entries : Entries
all_entries = record {
  socket_entry = true;
  option_entry = true;
  bind_entry = true;
  listen_entry = true;
  accept_entry = true;
}

launch-IsLaunched_example :
    (m : Manager counting 0) × (launch counting 0 2
        (λ i. works)
        all_entries
        7777
        (new_manager counting 0)
      ≡ ok (some m))
    × IsLaunched counting 0 (λ i. works) (worker_count 2) m
    × (m.prepared ≡ listening counting 0 all_entries 7777 nothing_prepared)
    × (1 ≤ worker_count 2)
    × Draws counting 0 (worker_count 2) m
launch-IsLaunched_example =
    launch-IsLaunched counting 0 2 (λ i. works) all_entries 7777 (λ j h. refl) refl

shutdown_lem_example :
    (used : List ℕ) × (unused : List ℕ) × (v' : Srv counting) × (7 ∷ [] ≡ used ++ unused)
    × (run counting 0 (closed used) stopping ≡ ok (false, v'))
    × Finishes counting 0 busy v'
shutdown_lem_example = shutdown_lem counting 0 (7 ∷ []) busy stopping refl refl (λ e. cc) (refl, tt)
