-- ===== src/Server/Shutdown.antt =====
-- How a worker's loop ends after ThreadManager::Stop: the closing of the last session asks for one
-- more completion, and that one ends the loop.
use yuwibo_server.Prelude.{
  ℕ, ◌≡◌, ◌≢◌, refl, ap, ◌∙◌, Bool, true, false, not, ◌&&◌, ◌||◌, List, [], ◌∷◌, ◌++◌, Option, some,
  arith, ◌==◌, length_of_ne_nil, get_elem?, get_elem?-set_same, All, Bool-cases, inl, inr, ok, ◌⊎◌,
}
use yuwibo_server.Listener.{Context, session_close}
use yuwibo_server.Server.{
  Cqe, SessionOps, Entry, Worker, Srv, get_size, remove_session, set_worker, stop_sqe, dispatch,
  handle_completion, run_turn, run,
}

abbrev pub is_among : ℕ → List ℕ → Bool
is_among n [] = false
is_among n (m ∷ ms) = m == n || is_among n ms

-- Every session's descriptor is among these.
abbrev pub Covers : {S : Type 0} → List ℕ → List (Entry S) → Type 0
Covers {S} fds entries = All (λ (e : Entry S). is_among e.fd fds ≡ true) entries

-- The completions that say that descriptors were closed.
abbrev pub closed : List ℕ → List (Option (ℕ × ℕ × Cqe))
closed [] = []
closed (fd ∷ fds) =
    some (0, 0, record { user_data = some (session_close fd); res = 0; flags = 0 }) ∷ closed fds

==-sym_false : (m n : ℕ) → (m == n) ≡ false → (n == m) ≡ false
==-sym_false m n h = ground arith

remove_session-Covers :
    {S : Type 0} (fd : ℕ) (fds : List ℕ) (entries : List (Entry S))
    → Covers (fd ∷ fds) entries
    → Covers fds (remove_session fd entries)
unfolding remove_session
remove_session-Covers fd fds [] h = tt
remove_session-Covers fd fds (e ∷ es) h = elim (Bool-cases (e.fd == fd)) [
  | inl same ↦ rw same (remove_session-Covers fd fds es h.1)
  | inr other ↦ rw other (
    still (fd == e.fd) (is_among e.fd fds) (==-sym_false e.fd fd other) h.0,
    remove_session-Covers fd fds es h.1,
  )
]
  where
    still : (b c : Bool) → b ≡ false → (b || c) ≡ true → c ≡ true
    still b c e h = ground arith

empty_or {ℓ} : {A : Type ℓ} (xs : List A) → (xs ≡ []) ⊎ (xs ≢ [])
empty_or [] = inl refl
empty_or (x ∷ xs) = inr (λ e. cc)

nothing_covered : {S : Type 0} (entries : List (Entry S)) → Covers [] entries → entries ≡ []
nothing_covered [] h = refl
nothing_covered (e ∷ es) h = cc

module _ {R : Type 0} (o : SessionOps R) where
  -- The worker has no session, has asked for one completion, and ends at the next one that carries
  -- a context.
  abbrev pub Finishes : ℕ → Worker o.S R → Srv o → Type 0
  Finishes i w v =
      (v.running ≡ false)
      × (get_elem? v.workers i ≡ some (record { sessions = []; shared = o.stop_nop w.shared }))
      × ((r₁ r₂ res flags : ℕ) (context : Context) (rest : List (Option (ℕ × ℕ × Cqe)))
          → run o i
              (some (r₁, r₂, record { user_data = some context; res = res; flags = flags }) ∷ rest)
              v
            ≡ ok (true, v))

  ends_now :
      (i r₁ r₂ res flags : ℕ) (context : Context) (rest : List (Option (ℕ × ℕ × Cqe)))
      (w : Worker o.S R) (v : Srv o)
      → v.running ≡ false
      → get_elem? v.workers i ≡ some w
      → w.sessions ≡ []
      → run o i
          (some (r₁, r₂, record { user_data = some context; res = res; flags = flags }) ∷ rest)
          v
        ≡ ok (true, v)
  unfolding run run_turn
  ends_now i r₁ r₂ res flags context rest w v stopped here none_left =
      rw (here, stopped, none_left) refl

  -- One turn at a closed descriptor, while there are sessions.
  closing_turn :
      (i fd : ℕ) (rest : List (Option (ℕ × ℕ × Cqe))) (w : Worker o.S R) (v : Srv o)
      → v.running ≡ false
      → get_elem? v.workers i ≡ some w
      → w.sessions ≢ []
      → run o i
          (some (0, 0, record { user_data = some (session_close fd); res = 0; flags = 0 }) ∷ rest)
          v
        ≡ run o i rest (
            set_worker i
              (stop_sqe o false (record w { sessions = remove_session fd w.sessions }))
              v)
  unfolding run run_turn handle_completion dispatch
  closing_turn i fd rest w v stopped here some_left =
      rw (here, busy (not v.running) (get_size w == 0) (length_of_ne_nil w.sessions some_left))
        (ap
          (λ r.
            run o i rest (
              set_worker i (stop_sqe o r (record w { sessions = remove_session fd w.sessions })) v))
          stopped)
    where
      busy : (a b : Bool) → b ≡ false → (a && b) ≡ false
      busy a b e = ground arith

  asks_last :
      (fd : ℕ) (w : Worker o.S R)
      → remove_session fd w.sessions ≡ []
      → stop_sqe o false (record w { sessions = remove_session fd w.sessions })
        ≡ record { sessions = []; shared = o.stop_nop w.shared }
  unfolding stop_sqe
  asks_last fd w last = rw last refl

  asks_nothing :
      (fd : ℕ) (w : Worker o.S R)
      → remove_session fd w.sessions ≢ []
      → stop_sqe o false (record w { sessions = remove_session fd w.sessions })
        ≡ record w { sessions = remove_session fd w.sessions }
  unfolding stop_sqe
  asks_nothing fd w more = rw (length_of_ne_nil (remove_session fd w.sessions) more) refl

  run_nothing : (i : ℕ) (v : Srv o) → run o i [] v ≡ ok (false, v)
  unfolding run
  run_nothing i v = refl

  -- In a stopped server, the completions that say that the descriptors of a worker's sessions were
  -- closed, in any order, lead within them to a state in which the worker has no session and has
  -- made the request of StopSQE once; and the next completion that carries a context ends its
  -- loop.
  pub shutdown_lem :
      (i : ℕ) (fds : List ℕ) (w : Worker o.S R) (v : Srv o)
      → v.running ≡ false
      → get_elem? v.workers i ≡ some w
      → w.sessions ≢ []
      → Covers fds w.sessions
      → (used : List ℕ) × (unused : List ℕ) × (v' : Srv o) × (fds ≡ used ++ unused)
        × (run o i (closed used) v ≡ ok (false, v'))
        × Finishes i w v'
  shutdown_lem i [] w v stopped here some_left covers =
      absurd (some_left (nothing_covered w.sessions covers))
  shutdown_lem i (fd ∷ fds) w v stopped here some_left covers =
      let turn = closing_turn i fd in
      elim (empty_or (remove_session fd w.sessions)) [
        | inl last ↦
            let done : Worker o.S R = record { sessions = []; shared = o.stop_nop w.shared } in
            (
              fd ∷ [],
              fds,
              set_worker i done v,
              refl,
              turn [] w v stopped here some_left
                  ∙ run_nothing i _
                  ∙ ap (λ x. ok (false, set_worker i x v)) (asks_last fd w last),
              (
                stopped,
                get_elem?-set_same v.workers i w done here,
                λ r₁ r₂ res flags context rest.
                    ends_now i r₁ r₂ res flags context rest done (set_worker i done v) stopped
                      (get_elem?-set_same v.workers i w done here) refl,
              ),
            )
        | inr more ↦
            let left : Worker o.S R = record w { sessions = remove_session fd w.sessions } in
            let (used, unused, v', split, runs, finishes) =
              shutdown_lem i fds left (set_worker i left v) stopped
                (get_elem?-set_same v.workers i w left here) more
                (remove_session-Covers fd fds w.sessions covers) in
            (
              fd ∷ used,
              unused,
              v',
              ap (λ xs. fd ∷ xs) split,
              turn (closed used) w v stopped here some_left
                  ∙ ap (λ x. run o i (closed used) (set_worker i x v)) (asks_nothing fd w more)
                  ∙ runs,
              finishes,
            )
      ]
