-- ===== src/Examples/Workers.antt =====
-- Runs of the listener, and of two workers over sessions that only count what they are told.
use yuwibo_server.Prelude.{
  inr, Outcome, ℕ, ◌+◌, ◌≤◌, ◌≡◌, refl, Bool, true, false, List, [], ◌∷◌, Option, none, some,
  get_elem?, ok,
}
use yuwibo_server.Listener.{session_close, worker_stop}
use yuwibo_server.Session.{Uring, Conn}
use yuwibo_server.Server.Sessions.{Own, Shared, new_session, session_ops}
use yuwibo_server.Examples.Wire.{pipe}
use yuwibo_server.Server.{
  Srv, Cqe, SessionOps, Worker, Server, get_size, get_random_worker, get_random_ring,
  remove_session, stop_sqe, dispatch, handle_completion, run_turn, run,
}
use yuwibo_server.Server.Closing.{Ack, reception_ended, cancel_completed}
use yuwibo_server.Server.Ending.{Ends, worker-Ends}
use yuwibo_server.Server.Lifecycle.{get_random_ring_lem, IsDone, run-IsDone}

abbrev pub counting : SessionOps ℕ
counting = record {
  S = Bool;
  new_session = λ fd. false;
  strat = λ s n. ok (s, n + 1);
  on_recv = λ res id s n. ok (s, n + 1);
  on_send = λ res s n. ok (s, n + 1);
  close = λ checks s n. ok (true, n + 1);
  start_close = λ submits s n. ok (true, n + 1);
  submit = λ n. n;
  stop_nop = λ n. n + 1;
}

abbrev pub busy : Worker Bool ℕ
busy = record { sessions = record { fd = 7; address = 0; session = false } ∷ []; shared = 0 }

abbrev idle : Worker Bool ℕ
idle = record { sessions = []; shared = 0 }

get_random_ring_lem_example :
    (k : ℕ) × (w : Worker Bool ℕ) × (get_random_worker 0 1 (busy ∷ idle ∷ []) ≡ ok k)
    × (get_elem? (busy ∷ idle ∷ []) k ≡ some w)
    × (get_random_ring 0 1 (busy ∷ idle ∷ []) ≡ ok w.shared)
    × (get_size w ≤ 1)
    × (get_size w ≤ 0)
get_random_ring_lem_example = get_random_ring_lem 0 1 (busy ∷ idle ∷ []) busy idle refl refl

abbrev pub stopping : Server Bool ℕ
stopping = record {
  workers = busy ∷ idle ∷ [];
  running = false;
  listener_running = false;
  next = 1;
}

abbrev stopped : Server Bool ℕ
stopped = record stopping { workers = record { sessions = []; shared = 1 } ∷ idle ∷ [] }

-- The session's descriptor is closed, and then the worker's own request completes.
abbrev events : List (Option (ℕ × ℕ × Cqe))
events =
    some (0, 0, record { user_data = some (session_close 7); res = 0; flags = 0 })
    ∷ none
    ∷ some (0, 0, record { user_data = some worker_stop; res = 0; flags = 0 })
    ∷ []

events-stop : run counting 0 events stopping ≡ ok (true, stopped)
unfolding run run_turn handle_completion dispatch remove_session stop_sqe
events-stop = refl

run-IsDone_example : IsDone counting 0 stopped
run-IsDone_example = run-IsDone counting 0 events stopping stopped events-stop

-- A ring that always has an entry, and a worker with one connection.
abbrev endless : Uring
endless = record { Ring = Unit {0}; get_sqe = λ q. (true, q); submit = λ q. q }

abbrev nothing_done :
    List ℕ → ℕ → Conn endless pipe (Unit {0}) → Outcome (Conn endless pipe (Unit {0}))
nothing_done memory len c = ok c

abbrev connected : Worker (Own pipe.State) (Shared endless.Ring (Unit {0}))
connected = record {
  sessions =
      record { fd = 7; address = 0; session = new_session endless pipe (Unit {0}) ([], []) 0 7 }
      ∷ [];
  shared = record { ring = tt; requests = []; pool = []; lobby = tt };
}

-- Two connections: the reception of the second ends, and the cancellations complete.
abbrev two_connected : Worker (Own pipe.State) (Shared endless.Ring (Unit {0}))
two_connected = record connected {
  sessions =
      record { fd = 7; address = 0; session = new_session endless pipe (Unit {0}) ([], []) 0 7 }
      ∷ record { fd = 8; address = 1; session = new_session endless pipe (Unit {0}) ([], []) 0 8 }
      ∷ [];
}

abbrev two_acks : List Ack
two_acks = reception_ended 1 ∷ cancel_completed 0 ∷ cancel_completed 1 ∷ []

abbrev two_stopping : Srv (session_ops endless pipe (Unit {0}) ([], []) 0 nothing_done)
two_stopping = record {
  workers = two_connected ∷ [];
  running = false;
  listener_running = false;
  next = 2;
}

worker-Ends_example :
    Ends endless pipe
      (Unit {0})
      ([], [])
      0
      nothing_done
      (λ q. refl)
      0
      two_acks
      (8 ∷ 7 ∷ [])
      two_connected
      two_stopping
unfolding new_session
worker-Ends_example =
    worker-Ends endless pipe (Unit {0}) ([], []) 0 nothing_done (λ q. refl) 0 two_acks (8 ∷ 7 ∷ [])
      two_connected two_stopping refl refl (λ e. cc) (refl, (refl, tt)) (refl, (refl, tt))
      (refl, (refl, (refl, tt))) (((λ c. cc), inr refl), (((λ c. cc), inr refl), tt))
