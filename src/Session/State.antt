-- ===== src/Session/State.antt =====
-- Session.h: the members of a session, with those of its worker that it uses.
use yuwibo_server.Prelude.{ℕ, Bool, List}
use yuwibo_server.Buffer.{Buffer}

-- io_uring: whether `io_uring_get_sqe` returns an entry, and what that and a submission do to it.
pub record Uring : Type 1 where
  pub Ring : Type 0
  pub get_sqe : Ring → Bool × Ring
  pub submit : Ring → Ring

-- What the code asks of io_uring, in order.
pub data Request : Type 0 where
  recv_multishot : ℕ → Request
  send_data : ℕ → List ℕ → Request
  -- A send whose completion carries a `char*` and no RequestContext.
  send_raw : ℕ → List ℕ → Request
  cancel_recv : ℕ → Request
  close_fd : ℕ → Request
  nop : Request
  submitted : Request
  -- A receive buffer is given back to the kernel, with its size.
  provide : ℕ → ℕ → Request

pub record Session (R T W : Type 0) : Type 0 where
  pub fd : ℕ
  pub tls : T
  pub handshaking : Bool
  -- `_pendingRecvBufId`, an `int`.
  pub pending : ℕ
  pub send_queue : List Buffer
  pub send_count : ℕ
  pub canceling : Bool
  pub is_sending : Bool
  pub closing : Bool
  -- The worker's.
  pub ring : R
  pub requests : List Request
  pub pool : List Buffer
  -- All that the packet handlers change.
  pub lobby : W
