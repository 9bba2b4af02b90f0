-- ===== src/Buffer/Whole.antt =====
-- Buffer.cpp: a buffer of which nothing was read, looked at as a whole.
use mathlib.Core.Path.{ap₂}
use yuwibo_server.Prelude.{ℕ, ◌-◌, ◌≡◌, sym, ◌∙◌, some, arith, length}
use yuwibo_server.Buffer.{Buffer, contents, read_at}
use yuwibo_server.Buffer.Laws.{IsValid, length-contents, read_at-slice}

-- All of a valid buffer of which nothing was read.
pub read_all :
    (b : Buffer) (n : ℕ)
    → IsValid b
    → b.read_pos ≡ 0
    → n ≡ length (contents b)
    → read_at b.bytes 0 n ≡ some (contents b)
read_all b n v r e =
    ap₂ (λ p k. read_at b.bytes p k) (sym r) (e ∙ length-contents v)
    ∙ read_at-slice b.bytes b.read_pos (b.write_pos - b.read_pos) (omega arith)

-- The stored bytes of a valid buffer.
pub read_stored :
    {b : Buffer}
    → IsValid b
    → read_at b.bytes b.read_pos (b.write_pos - b.read_pos) ≡ some (contents b)
read_stored {b} v = read_at-slice b.bytes b.read_pos (b.write_pos - b.read_pos) (omega arith)
