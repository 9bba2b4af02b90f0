-- ===== src/Server/Lifecycle.antt =====
-- Which worker gets a connection, and when a worker's loop ends.
use yuwibo_server.Prelude.{
  ℕ, ◌≤◌, ◌≡◌, refl, Bool, true, false, not, ◌&&◌, List, [], ◌∷◌, Option, none, some, arith, ◌==◌,
  leb, leb→le, leb→lt, get_elem?, Bool-cases, inl, inr, ok, or_fault, Always, ok-Always,
  fault-Always, Option-cases, ap, bind-Always, then-Always, if-Always,
}
use yuwibo_server.Server.{
  Cqe, SessionOps, Worker, Srv, get_size, get_random_worker, get_random_ring, worker_at,
  handle_completion, run_turn, run,
}

module _ {S R : Type 0} where
  -- Of the two workers drawn, GetRandomWorker takes one that has no more sessions than either, and
  -- GetRandomRing, at the same numbers, takes the ring of the same worker.
  pub get_random_ring_lem :
      (i j : ℕ) (workers : List (Worker S R)) (a b : Worker S R)
      → get_elem? workers i ≡ some a
      → get_elem? workers j ≡ some b
      → (k : ℕ) × (w : Worker S R) × (get_random_worker i j workers ≡ ok k)
        × (get_elem? workers k ≡ some w)
        × (get_random_ring i j workers ≡ ok w.shared)
        × (get_size w ≤ get_size a)
        × (get_size w ≤ get_size b)
  unfolding get_random_ring get_random_worker
  get_random_ring_lem i j workers a b ea eb = elim (Bool-cases (leb (get_size a) (get_size b))) [
    | inl le ↦ (i, a, rw (ea, eb, le) refl, ea, rw (ea, eb, le) refl, omega arith, leb→le _ _ le)
    | inr gt ↦ (
      j,
      b,
      rw (ea, eb, gt) refl,
      eb,
      rw (ea, eb, gt) refl,
      omega (arith, leb→lt _ _ gt),
      omega arith,
    )
  ]

  -- Of the two workers drawn, the one that gets the connection has no more sessions than either.
  pub get_random_worker_lem :
      (i j : ℕ) (workers : List (Worker S R)) (a b : Worker S R)
      → get_elem? workers i ≡ some a
      → get_elem? workers j ≡ some b
      → (k : ℕ) × (w : Worker S R) × (get_random_worker i j workers ≡ ok k)
        × (get_elem? workers k ≡ some w)
        × (get_size w ≤ get_size a)
        × (get_size w ≤ get_size b)
  get_random_worker_lem i j workers a b ea eb =
      let (k, w, e, found, ring, le_a, le_b) = get_random_ring_lem i j workers a b ea eb in
      (k, w, e, found, le_a, le_b)

stops_lem {ℓ} :
    {A : Type ℓ} (data_ptr : Option A) (idle : Bool)
    → ◌≡◌ {A = Bool} (elim data_ptr [ none ↦ false | some context ↦ idle ]) true
    → idle ≡ true
stops_lem none idle h = cc
stops_lem (some context) idle h = h

not_running : (running : Bool) (n : ℕ) → (not running && n == 0) ≡ true → running ≡ false
not_running running n h = ground arith

no_session : (running : Bool) (n : ℕ) → (not running && n == 0) ≡ true → n ≡ 0
no_session running n h = ground arith

module _ {R : Type 0} (o : SessionOps R) where
  -- The server has been stopped, and the worker has no session.
  abbrev pub IsDone : ℕ → Srv o → Type 0
  IsDone i v = (v.running ≡ false) × (w : Worker o.S R) × (worker_at i v ≡ ok w) × (get_size w ≡ 0)

  Ends : ℕ → Bool × Srv o → Type 0
  Ends i r = r.0 ≡ true → IsDone i r.1

  run_turn-Ends : (i r₁ r₂ : ℕ) (cqe : Cqe) (v : Srv o) → Always (Ends i) (run_turn o i r₁ r₂ cqe v)
  unfolding run_turn Ends
  run_turn-Ends i r₁ r₂ cqe v = elim (Option-cases (get_elem? v.workers i)) [
    | inl missing ↦ rw missing fault-Always
    | inr (w, here) ↦ rw here (
        if-Always _
          (λ stops. ok-Always (λ e.
            let idle = stops_lem cqe.user_data (not v.running && get_size w == 0) stops in
            (not_running v.running _ idle, w, ap or_fault here, no_session v.running _ idle)))
          (λ goes_on. then-Always (handle_completion o i r₁ r₂ cqe v) (λ v'. ok-Always (λ e. cc))))
  ]

  run-Ends :
      (i : ℕ) (events : List (Option (ℕ × ℕ × Cqe))) (v : Srv o)
      → Always (Ends i) (run o i events v)
  unfolding run Ends
  run-Ends i [] v = ok-Always (λ e. cc)
  run-Ends i (none ∷ rest) v = run-Ends i rest v
  run-Ends i (some (r₁, r₂, cqe) ∷ rest) v =
      bind-Always _ (run_turn-Ends i r₁ r₂ cqe v)
        (λ r h. if-Always r.0 (λ e. ok-Always (λ e'. h e)) (λ e. run-Ends i rest r.1))

  -- A worker's loop ends only when the server has been stopped and the worker has no session left.
  pub run-IsDone :
      (i : ℕ) (events : List (Option (ℕ × ℕ × Cqe))) (v v' : Srv o)
      → run o i events v ≡ ok (true, v')
      → IsDone i v'
  unfolding Ends
  run-IsDone i events v v' e = (run-Ends i events v).of_result (true, v') e refl
