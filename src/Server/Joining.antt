-- ===== src/Server/Joining.antt =====
-- Worker::Join and the end of ThreadManager::Stop: what the workers hold of the system is given
-- back.
use yuwibo_server.Prelude.{
  ℕ, ◌+◌, Bool, false, List, [], ◌∷◌, Option, none, some, if◌then◌else◌, Outcome, ok, fault,
  deadlock, ◌>>=◌,
}

-- What a worker holds of the system.
pub record Gear : Type 0 where
  -- `workerThread.joinable()`
  pub joinable : Bool
  -- `_bufRing` points to memory; before Start it is not initialised.
  pub allocated : Bool
  -- The kernel has the buffer ring.
  pub registered : Bool
  -- `ring` is between `io_uring_queue_init` and `io_uring_queue_exit`.
  pub ring_open : Bool

-- What a worker holds after Start, by whether Start came to the creation of the thread.
unfoldable pub gear_of : Bool → Gear
gear_of thread = record {
  joinable = thread;
  allocated = thread;
  registered = thread;
  ring_open = thread;
}

-- `workerThread.join()` under its guard, given whether the loop of the thread ends.
unfoldable pub join_thread : Bool → Gear → Outcome Gear
join_thread ends g =
    if g.joinable then (if ends then ok (record g { joinable = false }) else deadlock) else ok g

-- `free(_bufRing)`
unfoldable pub free_buffers : Gear → Outcome Gear
free_buffers g = if g.allocated then ok (record g { allocated = false }) else fault

-- `io_uring_unregister_buf_ring`, whose result nobody reads, and `io_uring_queue_exit`.
unfoldable pub exit_ring : Gear → Outcome Gear
exit_ring g = if g.ring_open then ok (record g { registered = false; ring_open = false }) else fault

-- Worker::Join
unfoldable pub join : Bool → Gear → Outcome Gear
unfolding join_thread free_buffers exit_ring
join ends g = do g ← join_thread ends g; g ← free_buffers g; exit_ring g

-- The second loop of ThreadManager::Stop, from index `i` on.
unfoldable pub join_all : (ℕ → Bool) → ℕ → List Gear → Outcome (List Gear)
join_all ends i [] = ok []
join_all ends i (g ∷ gs) = do g ← join (ends i) g; gs ← join_all ends (i + 1) gs; ok (g ∷ gs)

-- The end of ThreadManager::Stop. The first part of the result says what
-- `io_uring_unregister_files` finds: whether the first worker's ring is open, if there is a worker.
unfoldable pub finish_stop : (ℕ → Bool) → List Gear → Outcome (Option Bool × List Gear)
unfolding join_all
finish_stop ends gears = do
  gears ← join_all ends 0 gears
  elim gears [ [] ↦ ok (none, []) | g ∷ gs ↦ ok (some g.ring_open, g ∷ gs) ]
