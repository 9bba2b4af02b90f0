-- ===== src/Program/Main.antt =====
-- main.cpp: the order of the program's parts at its start and at its end.
use yuwibo_server.Prelude.{
  ◌&&◌, ℕ, Bool, true, false, not, List, [], ◌∷◌, none, some, if◌then◌else◌, map, fault, Outcome,
  ok, ◌>>=◌,
}
use yuwibo_server.Database.{Driver, connect}
use yuwibo_server.Listener.{start_stop}
use yuwibo_server.Packets.Dispatch.{init}
use yuwibo_server.Server.Joining.{gear_of, finish_stop}
use yuwibo_server.Rooms.{Iteration}
use yuwibo_server.Server.{SessionOps, Srv, stop}
use yuwibo_server.Tls.Setup.{Openssl, init_context}
use yuwibo_server.Program.{Answers, Entries, Manager, launch, new_manager}

-- What the process did in the end.
pub data Exit (S : Type 0) : Type 0 where
  -- `main` returned -1 and no worker was launched.
  refused : Exit S
  -- `std::terminate`
  terminated : Exit S
  -- The reads that were given ended in a loop of `main`.
  waiting : S → Exit S
  -- `main` returned 0.
  finished : S → Exit S

-- A loop that sleeps until a value is read: whether it ended within these reads.
unfoldable pub waits_for : Bool → List Bool → Bool
waits_for true [] = false
waits_for false [] = false
waits_for true (true ∷ reads) = true
waits_for true (false ∷ reads) = waits_for true reads
waits_for false (false ∷ reads) = true
waits_for false (true ∷ reads) = waits_for false reads

abbrev pub port : ℕ
port = 7777

-- What happens around `main`: the number of processors, what the system answers at the start and at
-- the end, and the values read of `g_shouldTerminate` and of the listener's flag.
pub record Surroundings : Type 0 where
  pub hardware : ℕ
  pub answers : ℕ → Answers
  pub entries : Entries
  pub cancel_entry : Bool
  pub close_entry : Bool
  pub terminate_reads : List Bool
  pub listener_reads : List Bool
  -- Whether the loop of a worker ends after Worker::Stop.
  pub loop_ends : ℕ → Bool

abbrev pub all_true : List Bool → Bool
all_true [] = true
all_true (b ∷ bs) = b && all_true bs

module _ (x : Openssl) (d : Driver) (it : Iteration) {R : Type 0} (o : SessionOps R) (idle : R)
    -- What the workers' threads make of the server in the first and in the second wait of `main`.
    (serving closing : Srv o → Srv o) where
  -- The first half of ThreadManager::Stop. Worker::Stop takes an entry of the worker's ring, which was
  -- set up if the worker has a thread.
  unfoldable pub stop_rings : List Bool → Srv o → Outcome (Srv o)
  stop_rings threads v = if all_true threads then stop o v else fault

  -- `main`, from the stop of the listener on.
  unfoldable pub end_main : Surroundings → Manager o idle → Outcome (Exit (Manager o idle))
  unfolding waits_for
  end_main s m =
      let m : Manager o idle = record m {
        prepared = start_stop s.cancel_entry s.close_entry m.prepared;
      } in
      if not (waits_for false s.listener_reads) then ok (waiting m) else (do
        v ← stop_rings m.threads (closing m.server)
        (files, gears) ← finish_stop s.loop_ends (map gear_of m.threads)
        ok (finished (record m { server = v })))

  unfoldable pub main : Surroundings → x.State → d.State → Outcome (Exit (Manager o idle))
  unfolding end_main waits_for
  main s st db =
      let (ready, context, st) = init_context x st in
      if not ready then ok refused else (do
        handlers ← init d it
        let (connected, conn, statements, db) = connect d db
        if not connected then ok refused else (do
          launched ← launch o idle s.hardware s.answers s.entries port (new_manager o idle)
          elim launched [
            | none ↦ ok terminated
            | some m ↦
                if not (waits_for true s.terminate_reads)
                then ok (waiting m)
                else end_main s (record m { server = serving m.server })
          ]))
