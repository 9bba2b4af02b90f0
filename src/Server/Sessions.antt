-- ===== src/Server/Sessions.antt =====
-- Session.cpp behind the interface that a worker uses: what one session has of its own, and what it
-- shares with the worker's other sessions.
use yuwibo_server.Prelude.{
  ℕ, Bool, true, false, ◌||◌, List, [], ◌∷◌, ◌++◌, Option, none, some, ◌==◌, if◌then◌else◌,
  is_negative, Outcome, ok, ◌>>=◌,
}
use yuwibo_server.Buffer.{Buffer}
use yuwibo_server.Tls.{Ssl}
use yuwibo_server.Session.{
  Uring, Request, nop, submitted, Conn, start_recv, on_recv, on_send, close, start_close,
}
use yuwibo_server.Server.{SessionOps}

-- The members of Session.
pub record Own (T : Type 0) : Type 0 where
  pub fd : ℕ
  pub tls : T
  pub handshaking : Bool
  pub pending : ℕ
  pub send_queue : List Buffer
  pub send_count : ℕ
  pub canceling : Bool
  pub is_sending : Bool
  pub closing : Bool

-- The members of Worker that its sessions use, and what the packet handlers change.
pub record Shared (R W : Type 0) : Type 0 where
  pub ring : R
  pub requests : List Request
  pub pool : List Buffer
  pub lobby : W

-- A result that is not positive is `none`.
unfoldable pub positive : ℕ → Option ℕ
positive res = if res == 0 || is_negative res then none else some res

module _ (u : Uring) (ssl : Ssl) (W : Type 0) where
  abbrev pub own : Conn u ssl W → Own ssl.State
  own c = record {
    fd = c.fd;
    tls = c.tls;
    handshaking = c.handshaking;
    pending = c.pending;
    send_queue = c.send_queue;
    send_count = c.send_count;
    canceling = c.canceling;
    is_sending = c.is_sending;
    closing = c.closing;
  }

  abbrev pub shared : Conn u ssl W → Shared u.Ring W
  shared c = record { ring = c.ring; requests = c.requests; pool = c.pool; lobby = c.lobby }

  abbrev pub conn : Own ssl.State → Shared u.Ring W → Conn u ssl W
  conn s r = record {
    fd = s.fd;
    tls = s.tls;
    handshaking = s.handshaking;
    pending = s.pending;
    send_queue = s.send_queue;
    send_count = s.send_count;
    canceling = s.canceling;
    is_sending = s.is_sending;
    closing = s.closing;
    ring = r.ring;
    requests = r.requests;
    pool = r.pool;
    lobby = r.lobby;
  }

  abbrev pub method :
      (Conn u ssl W → Outcome (Conn u ssl W))
      → Own ssl.State
      → Shared u.Ring W
      → Outcome (Own ssl.State × Shared u.Ring W)
  method f s r = f (conn s r) >>= λ c. ok (own c, shared c)

  -- The nop of Worker::StopSQE, if there is an entry.
  unfoldable pub stop_nop : Shared u.Ring W → Shared u.Ring W
  stop_nop r =
      let (found, ring) = u.get_sqe r.ring in
      if found
      then record r {
        ring = u.submit ring;
        requests = (r.requests ++ (nop ∷ [])) ++ (submitted ∷ []);
      }
      else record r { ring = ring }

  -- Session::Session; `tls` is the new TLS object, and `unset` what stands in `_pendingRecvBufId`.
  unfoldable pub new_session : ssl.State → ℕ → ℕ → Own ssl.State
  new_session tls unset fd = record {
    fd = fd;
    tls = tls;
    handshaking = true;
    pending = unset;
    send_queue = [];
    send_count = 0;
    canceling = false;
    is_sending = false;
    closing = false;
  }

  module _ (tls : ssl.State) (unset : ℕ)
      (handle : List ℕ → ℕ → Conn u ssl W → Outcome (Conn u ssl W)) where
    abbrev pub session_ops : SessionOps (Shared u.Ring W)
    session_ops = record {
      S = Own ssl.State;
      new_session = new_session tls unset;
      strat = method (start_recv u ssl W);
      on_recv = λ res id. method (on_recv u ssl W handle (positive res) id);
      on_send = λ res. method (on_send u ssl W (positive res));
      close = λ check. method (close u ssl W check);
      start_close = λ submits. method (start_close u ssl W submits);
      submit = λ r. record r { ring = u.submit r.ring; requests = r.requests ++ (submitted ∷ []) };
      stop_nop = stop_nop;
    }
