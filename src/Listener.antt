-- ===== src/Listener.antt =====
-- Listener.h, Listener.cpp and RequestContext.h: the chain of requests that opens the listening
-- socket, and the two that close it. A request carries the context that its completion gets back.
pub mod Chain
use yuwibo_server.Prelude.{
  ℕ, ◌%◌, Bool, true, false, List, [], ◌∷◌, ◌++◌, Option, none, some, if◌then◌else◌, u16_mod,
}
use yuwibo_server.Framing.{htons_bytes}

-- RequestContext and the types derived from it. A session stands for the `Session*`.
pub data Context : Type 0 where
  accept accept_cancel listener_close worker_stop : Context
  -- SocketSetupChainContext, with the port as it stands in `bind_addr.sin_port`.
  socket_setup_chain_start : List ℕ → Context
  recv recv_cancel send : ℕ → Context
  -- SessionCloseContext
  session_close : ℕ → Context

-- The `RequestType` member.
pub data RequestType : Type 0 where
  req_type_create_socket req_type_socket_setup_chain_start req_type_accept : RequestType
  req_type_accept_cancel req_type_session_close req_type_send req_type_recv : RequestType
  req_type_recv_cancel req_type_listener_close req_type_worker_stop : RequestType

unfoldable pub request_type : Context → RequestType
request_type accept = req_type_accept
request_type accept_cancel = req_type_accept_cancel
request_type listener_close = req_type_listener_close
request_type worker_stop = req_type_worker_stop
request_type (socket_setup_chain_start port) = req_type_socket_setup_chain_start
request_type (recv s) = req_type_recv
request_type (recv_cancel s) = req_type_recv_cancel
request_type (send s) = req_type_send
request_type (session_close fd) = req_type_session_close

unfoldable pub new_socket_setup_chain_context : ℕ → Context
new_socket_setup_chain_context port = socket_setup_chain_start (htons_bytes (port % u16_mod))

pub data Operation : Type 0 where
  socket_direct set_sock_opt bind_socket listen_socket multishot_accept : Operation
  cancel_accept close_direct nop_operation : Operation

-- A prepared request: what it does, its user data, whether the next one waits for it (`IO_LINK` or
-- `IO_HARDLINK`), and whether it holds a pointer into the chain's context.
pub record Sqe : Type 0 where
  pub operation : Operation
  pub user_data : Option Context
  pub linked : Bool
  pub borrows : Bool

-- The requests prepared by the code, whether they were submitted, and whether the chain's context
-- was freed by an early return.
pub record Prepared : Type 0 where
  pub sqes : List Sqe
  pub is_submitted : Bool
  pub context_freed : Bool

abbrev pub nothing_prepared : Prepared
nothing_prepared = record { sqes = []; is_submitted = false; context_freed = false }

abbrev prepare : Sqe → Prepared → Prepared
prepare sqe p = record p { sqes = p.sqes ++ (sqe ∷ []) }

abbrev pub socket_sqe : Sqe
socket_sqe = record { operation = socket_direct; user_data = none; linked = true; borrows = false }

abbrev pub set_sock_opt_sqe : Sqe
set_sock_opt_sqe = record {
  operation = set_sock_opt;
  user_data = none;
  linked = true;
  borrows = true;
}

abbrev pub bind_sqe : Sqe
bind_sqe = record { operation = bind_socket; user_data = none; linked = true; borrows = true }

abbrev pub listen_sqe : ℕ → Sqe
listen_sqe port = record {
  operation = listen_socket;
  user_data = some (socket_setup_chain_start (htons_bytes (port % u16_mod)));
  linked = true;
  borrows = false;
}

abbrev pub accept_sqe : Sqe
accept_sqe = record {
  operation = multishot_accept;
  user_data = some accept;
  linked = false;
  borrows = false;
}

-- StartAccept, given for each call of `io_uring_get_sqe` whether it returns an entry: the result and
-- what was prepared. After the first entry the chain's context exists, until `release`.
unfoldable pub start_accept : Bool → Bool → Bool → Bool → Bool → ℕ → Prepared → Bool × Prepared
start_accept false b c d e port p = (false, p)
start_accept true false c d e port p =
    (false, record (prepare socket_sqe p) { context_freed = true })
start_accept true true false d e port p =
    (false, record (prepare set_sock_opt_sqe (prepare socket_sqe p)) { context_freed = true })
start_accept true true true false e port p = (
  false,
  record (prepare bind_sqe (prepare set_sock_opt_sqe (prepare socket_sqe p))) {
    context_freed = true;
  },
)
start_accept true true true true false port p = (
  false,
  prepare (listen_sqe port) (prepare bind_sqe (prepare set_sock_opt_sqe (prepare socket_sqe p))),
)
start_accept true true true true true port p = (
  true,
  record (prepare accept_sqe (
      prepare (listen_sqe port)
        (prepare bind_sqe (prepare set_sock_opt_sqe (prepare socket_sqe p))))) {
          is_submitted = true;
        },
)

abbrev pub cancel_sqe : Sqe
cancel_sqe = record {
  operation = cancel_accept;
  user_data = some accept_cancel;
  linked = true;
  borrows = false;
}

abbrev pub close_sqe : Sqe
close_sqe = record {
  operation = close_direct;
  user_data = some listener_close;
  linked = false;
  borrows = false;
}

-- StartStop, given the results of the two calls of `io_uring_get_sqe`.
unfoldable pub start_stop : Bool → Bool → Prepared → Prepared
start_stop first second p =
    let p = if first then prepare cancel_sqe p else p in
    let p = if second then prepare close_sqe p else p in record p { is_submitted = true }
