-- ===== src/Tls/Setup.antt =====
-- SslContextManager.cpp, and the construction of a connection's OpenSSL object in TLS.h and TLS.cpp.
use yuwibo_server.Prelude.{Bool, true, false, not, if◌then◌else◌}

-- The C functions of OpenSSL: whether `SSL_CTX_new` and `SSL_new` return an object, and whether the
-- results of the other two are positive.
pub record Openssl : Type 1 where
  pub State : Type 0
  pub ctx_new : State → Bool × State
  pub use_certificate_file : State → Bool × State
  pub use_private_key_file : State → Bool × State
  pub ssl_new : State → Bool × State

-- TLS: whether `ssl` holds an object, whether `rbio` and `wbio` were assigned, whether the object
-- was told to accept, and `handshaking`.
pub record TlsObject : Type 0 where
  pub has_ssl : Bool
  pub has_bios : Bool
  pub accepts : Bool
  pub handshaking : Bool

module _ (x : Openssl) where
  -- SslContextManager::Init: its result, and whether `ctx` holds a context after it.
  unfoldable pub init_context : x.State → Bool × Bool × x.State
  init_context st =
      let (made, st) = x.ctx_new st in
      if not made
      then (false, false, st)
      else (let (certified, st) = x.use_certificate_file st in
          if not certified
          then (false, true, st)
          else (let (keyed, st) = x.use_private_key_file st in
              if not keyed then (false, true, st) else (true, true, st)))

  -- TLS::TLS
  unfoldable pub new_tls : x.State → TlsObject × x.State
  new_tls st =
      let (made, st) = x.ssl_new st in
      if not made
      then (record { has_ssl = false; has_bios = false; accepts = false; handshaking = true }, st)
      else (record { has_ssl = true; has_bios = true; accepts = true; handshaking = true }, st)
