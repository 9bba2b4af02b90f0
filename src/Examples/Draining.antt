-- ===== src/Examples/Draining.antt =====
-- A queue of two buffers that leaves in four sends.
use yuwibo_server.Prelude.{ℕ, suc, refl, true, false, [], ◌∷◌, arith, minus_one}
use yuwibo_server.Buffer.{Buffer}
use yuwibo_server.Buffer.Laws.{IsValid}
use yuwibo_server.Session.{Uring, Conn}
use yuwibo_server.Session.Draining.{Drains, on_sends, on_sends-Drains}
use yuwibo_server.Session.Draining.Acks.{AcksFit, texts}
use yuwibo_server.Session.Draining.Completions.{IsSending}
use yuwibo_server.Examples.Wire.{pipe}

-- A ring that counts its submissions and always has an entry.
abbrev endless : Uring
endless = record { Ring = ℕ; get_sqe = λ n. (true, n); submit = λ n. suc n }

abbrev front : Buffer
front = record { bytes = 5 ∷ 6 ∷ 7 ∷ 0 ∷ []; write_pos = 3; read_pos = 0; locked = false }

abbrev next : Buffer
next = record { bytes = 0 ∷ 8 ∷ 9 ∷ 0 ∷ []; write_pos = 3; read_pos = 1; locked = false }

abbrev sender : Conn endless pipe (Unit {0})
sender = record {
  fd = 9;
  tls = ([], []);
  handshaking = false;
  pending = minus_one;
  send_queue = front ∷ next ∷ [];
  send_count = 1;
  canceling = false;
  is_sending = true;
  closing = false;
  ring = 0;
  requests = [];
  pool = [];
  lobby = tt;
}

front-IsValid : IsValid front
front-IsValid = record {
  ordered = omega arith;
  inside = omega arith;
  small = omega arith;
  free = refl;
}

next-IsValid : IsValid next
next-IsValid = record {
  ordered = omega arith;
  inside = omega arith;
  small = omega arith;
  free = refl;
}

sender-IsSending : IsSending endless pipe (Unit {0}) (λ q. refl) sender
sender-IsSending = record {
  going = refl;
  sending = refl;
  valid = (front-IsValid, (next-IsValid, tt));
  some_left = ((λ e. cc), ((λ e. cc), tt));
}

acks-AcksFit : AcksFit (1 ∷ 2 ∷ 1 ∷ 1 ∷ []) (texts sender.send_queue)
acks-AcksFit = (
  omega arith,
  5 ∷ 6 ∷ 7 ∷ [],
  (8 ∷ 9 ∷ []) ∷ [],
  refl,
  omega arith,
  (
    omega arith,
    6 ∷ 7 ∷ [],
    (8 ∷ 9 ∷ []) ∷ [],
    refl,
    omega arith,
    (
      omega arith,
      8 ∷ 9 ∷ [],
      [],
      refl,
      omega arith,
      (omega arith, 9 ∷ [], [], refl, omega arith, tt),
    ),
  ),
)

on_sends-Drains_example :
    Drains endless pipe
      (Unit {0})
      (λ q. refl)
      (1 ∷ 2 ∷ 1 ∷ 1 ∷ [])
      sender
      (on_sends endless pipe (Unit {0}) (λ q. refl) (1 ∷ 2 ∷ 1 ∷ 1 ∷ []) sender)
on_sends-Drains_example =
    on_sends-Drains endless pipe (Unit {0}) (λ q. refl) (1 ∷ 2 ∷ 1 ∷ 1 ∷ []) sender sender-IsSending
      acks-AcksFit
