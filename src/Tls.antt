-- ===== src/Tls.antt =====
-- TLS.h and TLS.cpp: a connection's OpenSSL object, with two memory BIOs. OpenSSL is the parameter
-- `Ssl`; an `int` result that is not positive is modelled by the error that `SSL_get_error` gives.
pub mod Drain
pub mod Setup
use yuwibo_server.Prelude.{
  ℕ, zero, suc, Bool, List, [], ◌∷◌, ◌==◌, if◌then◌else◌, length, Outcome, ok, spins, ◌>>=◌,
  or_fault,
}
use yuwibo_server.Buffer.{
  Buffer, write_at, get_write_buffer, get_remaining_size, get_stored_size, on_write,
}

pub data SslError : Type 0 where
  error_none error_want_read error_want_write error_other : SslError

-- The C functions of OpenSSL. Reads return the bytes stored, none of them for a result that is not
-- positive; the Boolean of `write` is whether its result is positive, and that of `do_handshake`
-- whether it is 1. `bio_write` returns the number of bytes taken, 0 for a failure.
pub record Ssl : Type 1 where
  pub State : Type 0
  pub write : List ℕ → State → Bool × SslError × State
  pub do_handshake : State → Bool × SslError × State
  pub read : ℕ → State → List ℕ × SslError × State
  pub bio_write : List ℕ → State → ℕ × State
  pub bio_read : ℕ → State → List ℕ × State

module _ {S : Type 0} {E : Type 0} (reader : ℕ → S → List ℕ × E × S) where
  -- `while (buf.GetRemainingSize())`: read behind the stored bytes until nothing comes, or the
  -- vector is full. `err` is the error of the read that ended the loop.
  unfoldable pub drain : ℕ → Buffer → E → S → Outcome (E × Buffer × S)
  drain zero b err st = spins
  drain (suc fuel) b err st = do
    remaining ← get_remaining_size b
    pos ← get_write_buffer b
    let (bytes, e, st') = reader remaining st
    if remaining == 0 then ok (err, b, st) else (elim bytes [
      | [] ↦ ok (e, b, st')
      | x ∷ xs ↦ do
        stored ← or_fault (write_at b.bytes pos (x ∷ xs))
        b ← on_write (record b { bytes = stored }) (suc (length xs))
        drain fuel b err st'
    ])

module _ (ssl : Ssl) where
  -- TLS::GetRecvText: the stored size and `err`. Each round stores a byte at least.
  unfoldable pub get_recv_text : Buffer → ssl.State → Outcome (ℕ × SslError × Buffer × ssl.State)
  get_recv_text b st = do
    (err, b, st) ← drain ssl.read (suc (length b.bytes)) b error_none st
    n ← get_stored_size b
    ok (n, err, b, st)

  -- TLS::GetSecretText.
  unfoldable pub get_secret_text : Buffer → ssl.State → Outcome (ℕ × Buffer × ssl.State)
  get_secret_text b st = do
    (err, b, st) ←
        drain (λ n st. let (bytes, st') = ssl.bio_read n st in (bytes, tt, st'))
          (suc (length b.bytes)) b (let unit : Unit {0} = tt in unit) st
    n ← get_stored_size b
    ok (n, b, st)
