-- ===== src/Buffer/Fifo.antt =====
-- Buffer.cpp as a byte queue: any sequence of writes, reads, consumptions and resets is that
-- sequence on a plain list.
use yuwibo_server.Prelude.{
  ℕ, ◌+◌, ◌^◌, ◌<◌, ◌≡◌, refl, ap, List, [], ◌∷◌, ◌++◌, arith, length, take, drop, Outcome, ok,
  ◌>>=◌,
}
use yuwibo_server.Buffer.{Buffer, write, read, on_read, reset, contents}
use yuwibo_server.Buffer.Laws.{IsValid, write-Stores, length-contents}
use yuwibo_server.Buffer.Consuming.{read_lem, on_read-Drops, reset-Holds}

pub data Op : Type 0 where
  writes : List ℕ → Op
  reads : ℕ → Op
  consumes : ℕ → Op
  resets : Op

-- The bytes that the reads of a client return, in order, and the buffer at the end.
pub run : Buffer → List Op → Outcome (List (List ℕ) × Buffer)
run b [] = ok ([], b)
run b (writes src ∷ ops) = do b' ← write b src; run b' ops
run b (reads n ∷ ops) = do (out, b') ← read b n; (outs, b'') ← run b' ops; ok (out ∷ outs, b'')
run b (consumes n ∷ ops) = do b' ← on_read b n; run b' ops
run b (resets ∷ ops) = do b' ← reset b; run b' ops

-- The same on a list of bytes, oldest first.
pub run_queue : List ℕ → List Op → List (List ℕ) × List ℕ
run_queue q [] = ([], q)
run_queue q (writes src ∷ ops) = run_queue (q ++ src) ops
run_queue q (reads n ∷ ops) = let (outs, q') = run_queue (drop n q) ops in (take n q ∷ outs, q')
run_queue q (consumes n ∷ ops) = run_queue (drop n q) ops
run_queue q (resets ∷ ops) = run_queue [] ops

-- The bytes that the operations write, and the largest single consumption, in one measure.
abbrev pub volume : List Op → ℕ
volume [] = 0
volume (writes src ∷ ops) = length src + volume ops
volume (reads n ∷ ops) = volume ops
volume (consumes n ∷ ops) = n + volume ops
volume (resets ∷ ops) = volume ops

abbrev pub Refines : Outcome (List (List ℕ) × Buffer) → List (List ℕ) × List ℕ → Type 0
Refines out (outs, q) = (b' : Buffer) × (out ≡ ok (outs, b')) × IsValid b' × (contents b' ≡ q)

Refines-step :
    (ops : List Op) {b' : Buffer} {q : List ℕ} {out : Outcome Buffer}
    → out ≡ ok b'
    → contents b' ≡ q
    → Refines (run b' ops) (run_queue (contents b') ops)
    → Refines (out >>= λ b. run b ops) (run_queue q ops)
Refines-step ops e c r = rw (e, ← c) r

-- From a valid buffer, no sequence of writes, reads, consumptions and resets whose total stays
-- below 2 ^ 62 bytes faults or blocks; its reads return what a plain byte queue returns, and it
-- ends valid, holding the queue's bytes.
pub run-Refines :
    (ops : List Op) {b : Buffer}
    → IsValid b
    → b.write_pos + volume ops < 2 ^ 62
    → Refines (run b ops) (run_queue (contents b) ops)
unfolding run run_queue
run-Refines [] {b} v h = (b, refl, v, refl)
run-Refines (writes src ∷ ops) {b} v h =
    let (b', e, v', c, _, _, w) = write-Stores {b = b} src v (omega arith) in
    Refines-step ops e c (run-Refines ops {b = b'} v' (omega arith))
run-Refines (reads n ∷ ops) {b} v h =
    let (b', e, v', c, w) = read_lem {b = b} n v in
    let (b'', e', v'', c') = run-Refines ops {b = b'} v' (omega arith) in
    rw (e, ← c) (b'', rw e', v'', c')
run-Refines (consumes n ∷ ops) {b} v h =
    let (b', e, v', c, w) = on_read-Drops {b = b} n v (omega arith) in
    Refines-step ops e c (run-Refines ops {b = b'} v' (omega arith))
run-Refines (resets ∷ ops) {b} v h =
    let (b', e, v', c, r) = reset-Holds {b = b} v in
    Refines-step ops e c
      (run-Refines ops {b = b'} v' (omega (arith, r, ap length c, length-contents v')))
