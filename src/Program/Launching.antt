-- ===== src/Program/Launching.antt =====
-- What `ThreadManager::Launch` leaves behind.
use yuwibo_server.Prelude.{
  List, not, ◌++◌, ==_iff, if◌then◌else◌, ok, get_elem?_inside, get_elem?_lt, ℕ, zero, suc, ◌+◌,
  ◌≤◌, ◌<◌, ◌≡◌, subst, ◌==◌, refl, ap, ◌∙◌, Bool, true, false, [], ◌∷◌, some, arith, length,
  length-append, All, All-append, Bool-cases, inl, inr,
}
use yuwibo_server.Listener.{Prepared, nothing_prepared, start_accept}
use yuwibo_server.Server.{SessionOps, Worker, get_size, get_random_worker, register_buf_ring}
use yuwibo_server.Server.Lifecycle.{get_random_worker_lem}
use yuwibo_server.Program.{
  listen_first, Answers, Entries, start_worker, worker_count, Manager, begin_turn, end_turn,
  launch_loop, launch, new_manager,
}

-- Which of the first workers have a thread: those whose ring could be made.
abbrev pub threads_of : (ℕ → Answers) → ℕ → List Bool
threads_of answers zero = []
threads_of answers (suc n) = threads_of answers n ++ (not (answers n).queue_fails ∷ [])

next_count : (n : ℕ) → suc n ≡ n + 1
next_count n = omega arith

-- The first one when no turn is left, and else the second one.
abbrev after_turns : ℕ → Prepared → Prepared → Prepared
after_turns zero before after = before
after_turns (suc left) before after = after

module _ {R : Type 0} (o : SessionOps R) (idle : R) where
  -- The launched server: every worker without a session, with a thread if its ring could be made.
  pub record IsLaunched (answers : ℕ → Answers) (count : ℕ) (m : Manager o idle) : Type 0 where
    pub running : m.server.running ≡ true
    pub counted : length m.server.workers ≡ count
    pub threads_known : m.threads ≡ threads_of answers count
    pub fresh : All (λ (w : Worker o.S R). get_size w ≡ 0) m.server.workers

  start_worker_lem :
      (a : Answers) → a.register_fails ≡ false → start_worker a ≡ some (not a.queue_fails)
  unfolding start_worker register_buf_ring
  start_worker_lem a registers = elim (Bool-cases a.queue_fails) [
    | inl fails ↦ rw fails refl
    | inr works ↦ rw (works, registers) refl
  ]

  -- What the listener prepared on the first ring.
  abbrev pub listening : Entries → ℕ → Prepared → Prepared
  listening e port prepared =
      (start_accept e.socket_entry e.option_entry e.bind_entry e.listen_entry e.accept_entry port
        prepared).1

  abbrev prepared_by : ℕ → Entries → ℕ → Prepared → Prepared
  prepared_by i e port prepared = if i == 0 then listening e port prepared else prepared

  listen_first_lem :
      (i : ℕ) (thread : Bool) (e : Entries) (port : ℕ) (m : Manager o idle)
      → (i ≡ 0 → thread ≡ true)
      → listen_first o idle i thread e port m
        ≡ ok (record m { prepared = prepared_by i e port m.prepared })
  unfolding listen_first
  listen_first_lem i thread e port m has = elim (Bool-cases (i == 0)) [
    | inl first ↦ rw (first, has ((==_iff i 0).0 first)) refl
    | inr later ↦ rw later refl
  ]

  -- A turn adds a worker without sessions.
  end_turn-IsLaunched :
      (answers : ℕ → Answers) (n : ℕ) (m : Manager o idle) (prepared : Prepared)
      → IsLaunched answers n m
      → IsLaunched answers
          (n + 1)
          (end_turn o idle (not (answers n).queue_fails) (record m { prepared = prepared }))
  unfolding end_turn
  end_turn-IsLaunched answers n m prepared l = record {
    running = l.running;
    counted = omega (arith, length-append m.server.workers (fresh_worker ∷ []), l.counted);
    threads_known =
        ap (λ ts. ts ++ (not (answers n).queue_fails ∷ [])) l.threads_known
        ∙ ap (threads_of answers) (next_count n);
    fresh =
        All-append (λ (w : Worker o.S R). get_size w ≡ 0) m.server.workers (fresh_worker ∷ [])
          l.fresh (refl, tt);
  }
    where
      fresh_worker : Worker o.S R
      fresh_worker = record { sessions = []; shared = idle }

  begin_turn_lem :
      (i : ℕ) (a : Answers) (e : Entries) (port : ℕ) (m : Manager o idle)
      → a.register_fails ≡ false
      → (i ≡ 0 → a.queue_fails ≡ false)
      → begin_turn o idle i a e port m
        ≡ ok (some (not a.queue_fails, record m { prepared = prepared_by i e port m.prepared }))
  unfolding begin_turn
  begin_turn_lem i a e port m registers has =
      rw
        (
          begin_turn,
          start_worker_lem a registers,
          listen_first_lem i (not a.queue_fails) e port m (λ first. ap not (has first)),
        )
        refl

  turn_lem :
      (left i : ℕ) (answers : ℕ → Answers) (e : Entries) (port : ℕ) (m : Manager o idle)
      → (answers i).register_fails ≡ false
      → (i ≡ 0 → (answers i).queue_fails ≡ false)
      → launch_loop o idle (suc left) i answers e port m
        ≡ launch_loop o idle left (i + 1) answers e port (
            end_turn o idle
              (not (answers i).queue_fails)
              (record m { prepared = prepared_by i e port m.prepared }))
  unfolding launch_loop
  turn_lem left i answers e port m registers has =
      rw (launch_loop, begin_turn_lem i (answers i) e port m registers has) refl

  launch_loop_lem :
      (left i : ℕ) (answers : ℕ → Answers) (e : Entries) (port : ℕ) (m : Manager o idle)
      → ((j : ℕ) → j < i + left → (answers j).register_fails ≡ false)
      → (answers 0).queue_fails ≡ false
      → IsLaunched answers i m
      → (m' : Manager o idle) × (launch_loop o idle left i answers e port m ≡ ok (some m'))
        × IsLaunched answers (i + left) m'
        × (m'.prepared ≡ after_turns left m.prepared (prepared_by i e port m.prepared))
  unfolding launch_loop end_turn
  launch_loop_lem zero i answers e port m registers first l =
      (m, refl, subst (λ k. IsLaunched answers k m) (omega arith) l, refl)
  launch_loop_lem (suc left) i answers e port m registers first l =
      let next : Manager o idle =
        end_turn o idle (not (answers i).queue_fails)
          (record m { prepared = prepared_by i e port m.prepared }) in
      let (m₂, goes, l₂, prepared) =
        launch_loop_lem left (i + 1) answers e port next (λ j h. registers j (omega arith)) first
          (end_turn-IsLaunched answers i m (prepared_by i e port m.prepared) l) in
      (
        m₂,
        turn_lem left i answers e port m (registers i (omega arith))
              (λ zeroth. ap (λ j. (answers j).queue_fails) zeroth ∙ first)
            ∙ goes,
        subst (λ k. IsLaunched answers k m₂) (omega arith) l₂,
        prepared ∙ later left,
      )
    where
      after_first : (i : ℕ) → ((i + 1) == 0) ≡ false
      after_first i = ground arith

      later :
          (left : ℕ)
          → after_turns left
              (prepared_by i e port m.prepared)
              (prepared_by (i + 1) e port (prepared_by i e port m.prepared))
            ≡ prepared_by i e port m.prepared
      later zero = refl
      later (suc left) =
          ap
            (λ b.
              if b
              then listening e port (prepared_by i e port m.prepared)
              else prepared_by i e port m.prepared)
            (after_first i)

  worker_count_pos : (n : ℕ) → 1 ≤ worker_count n
  unfolding worker_count
  worker_count_pos zero = omega arith
  worker_count_pos (suc n) = omega arith

  -- A worker is found for every two numbers below the count.
  abbrev pub Draws : ℕ → Manager o idle → Type 0
  Draws count m =
      (r₁ r₂ : ℕ)
      → r₁ < count
      → r₂ < count
      → (k : ℕ) × (get_random_worker r₁ r₂ m.server.workers ≡ ok k) × (k < count)

  launched-Draws :
      (answers : ℕ → Answers) (count : ℕ) (m : Manager o idle)
      → IsLaunched answers count m
      → Draws count m
  launched-Draws answers count m l r₁ r₂ h₁ h₂ =
      let (a, ea) = get_elem?_inside m.server.workers r₁ (omega (arith, l.counted)) in
      let (b, eb) = get_elem?_inside m.server.workers r₂ (omega (arith, l.counted)) in
      let (k, w, e, found, le_a, le_b) = get_random_worker_lem r₁ r₂ m.server.workers a b ea eb in
      (k, e, omega (arith, get_elem?_lt m.server.workers k w found, l.counted))

  -- If the first worker's ring can be made and no registration of receive buffers fails, Launch
  -- ends with the server running and as many workers, without sessions, as there are processors,
  -- but one at least, those with a thread whose ring could be made; the listener prepared its
  -- requests once, on the first ring; and GetRandomWorker finds a worker for every two numbers
  -- below that count.
  pub launch-IsLaunched :
      (hardware : ℕ) (answers : ℕ → Answers) (e : Entries) (port : ℕ)
      → ((j : ℕ) → j < worker_count hardware → (answers j).register_fails ≡ false)
      → (answers 0).queue_fails ≡ false
      → (m : Manager o idle) × (launch o idle hardware answers e port (new_manager o idle)
          ≡ ok (some m))
        × IsLaunched answers (worker_count hardware) m
        × (m.prepared ≡ listening e port nothing_prepared)
        × (1 ≤ worker_count hardware)
        × Draws (worker_count hardware) m
  unfolding launch
  launch-IsLaunched hardware answers e port registers first =
      let (m, goes, l, prepared) =
        launch_loop_lem (worker_count hardware) 0 answers e port
          (record (new_manager o idle) {
            server = record (new_manager o idle).server { running = true };
          })
          (λ j h. registers j (omega arith)) first
          (record { running = refl; counted = refl; threads_known = refl; fresh = tt }) in
      let launched : IsLaunched answers (worker_count hardware) m =
        subst (λ k. IsLaunched answers k m) (omega arith) l in
      (
        m,
        goes,
        launched,
        prepared ∙ some_turn (worker_count hardware) (worker_count_pos hardware),
        worker_count_pos hardware,
        launched-Draws answers (worker_count hardware) m launched,
      )
    where
      some_turn :
          (n : ℕ)
          → 1 ≤ n
          → after_turns n nothing_prepared (listening e port nothing_prepared)
            ≡ listening e port nothing_prepared
      some_turn zero h = absurd (omega arith)
      some_turn (suc n) h = refl
