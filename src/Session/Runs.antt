-- ===== src/Session/Runs.antt =====
-- Any sequence of calls that the worker, the handlers and the rooms make on one session.
use yuwibo_server.Prelude.{
  ℕ, ◌≡◌, Bool, List, [], ◌∷◌, Option, Outcome, ok, ◌>>=◌, Always, ok-Always, bind-Always,
}
use yuwibo_server.Tls.{Ssl}
use yuwibo_server.Session.{
  Uring, Conn, start_recv, send_text, send_message, start_close, close, on_send, on_recv,
}
use yuwibo_server.Session.Invariant.{
  IsSound, start_recv-IsSound, send_text-IsSound, start_close-IsSound, close-IsSound,
}
use yuwibo_server.Session.Invariant.Queue.{send_message-IsSound, on_send-IsSound}
use yuwibo_server.Session.Receiving.{on_recv-IsSound}

pub data Call : Type 0 where
  starts : Call
  says : List ℕ → Call
  sends : ℕ → List ℕ → Call
  cancels : Bool → Call
  closes_now : Bool → Call
  -- A completed send, with its result, and a reception, with its result and buffer.
  completes : Option ℕ → Call
  receives : Option ℕ → ℕ → Call

module _ (u : Uring) (ssl : Ssl) (W : Type 0)
    (handle : List ℕ → ℕ → Conn u ssl W → Outcome (Conn u ssl W)) where
  abbrev pub perform : Call → Conn u ssl W → Outcome (Conn u ssl W)
  perform starts c = start_recv u ssl W c
  perform (says bytes) c = send_text u ssl W bytes c
  perform (sends id bytes) c = send_message u ssl W id bytes c
  perform (cancels submits) c = start_close u ssl W submits c
  perform (closes_now checks) c = close u ssl W checks c
  perform (completes result) c = on_send u ssl W result c
  perform (receives result id) c = on_recv u ssl W handle result id c

  abbrev pub perform_all : List Call → Conn u ssl W → Outcome (Conn u ssl W)
  perform_all [] c = ok c
  perform_all (call ∷ calls) c = perform call c >>= perform_all calls

  module _
      (keeps : (memory : List ℕ) (len : ℕ) (c : Conn u ssl W)
        → IsSound c
        → Always {A = Conn u ssl W} IsSound (handle memory len c)) where
    perform-IsSound :
        (call : Call) (c : Conn u ssl W)
        → IsSound c
        → Always {A = Conn u ssl W} IsSound (perform call c)
    perform-IsSound starts c i = start_recv-IsSound u ssl W c i
    perform-IsSound (says bytes) c i = send_text-IsSound u ssl W bytes c i
    perform-IsSound (sends id bytes) c i = send_message-IsSound u ssl W id bytes c i
    perform-IsSound (cancels submits) c i = start_close-IsSound u ssl W submits c i
    perform-IsSound (closes_now checks) c i = close-IsSound u ssl W checks c i
    perform-IsSound (completes result) c i = on_send-IsSound u ssl W result c i
    perform-IsSound (receives result id) c i = on_recv-IsSound u ssl W handle keeps result id c i

    perform_all-Always :
        (calls : List Call) (c : Conn u ssl W)
        → IsSound c
        → Always {A = Conn u ssl W} IsSound (perform_all calls c)
    perform_all-Always [] c i = ok-Always i
    perform_all-Always (call ∷ calls) c i =
        bind-Always _ (perform-IsSound call c i) (λ c' i'. perform_all-Always calls c' i')

    -- If the packet handlers keep it, every sequence of calls on a session that returns keeps
    -- this: the session is sending exactly while something is queued, and its descriptor was
    -- closed once at most, and only if it is closing.
    pub perform_all-IsSound :
        (calls : List Call) (c c' : Conn u ssl W)
        → IsSound c
        → perform_all calls c ≡ ok c'
        → IsSound c'
    perform_all-IsSound calls c c' i e = (perform_all-Always calls c i).of_result c' e
