-- ===== src/Handshake/Connection.antt =====
-- One end of a connection during its handshake: the stream, and the context that the socket
-- belongs to; with `HandshakeResult` of crates/libzmq-core/src/socket.rs. Without the feature
-- gssapi its `gssapi_session` is always `None`, and left out.
use libzmq_ru.Base.{ℕ, Bool, Option, List}
use libzmq_ru.Error.{Result, ok, err}
use libzmq_ru.Handshake.Authorize.{Context}
use libzmq_ru.Handshake.Session.{CurveSession}
use libzmq_ru.Handshake.Stream.{Stream, Io}

pub record HandshakeResult : Type 0 where
  pub peer_greeting_done : Bool
  pub peer_ready : Bool
  pub peer_identity : Option (List ℕ)
  pub curve_session : Option CurveSession

pub record Connection : Type 0 where
  pub stream : Stream
  pub context : Context

abbrev pub Act : Type 0 → Type 0
Act A = Connection → Result A × Connection

module _ {A B : Type 0} where
  abbrev pub and_then : Result A × Connection → (A → Act B) → Result B × Connection
  and_then (ok a, c) k = k a c
  and_then (err e, c) k = (err e, c)

  infixl 5 ◌>>=◌ ◌>>◌
  abbrev pub ◌>>=◌ : Act A → (A → Act B) → Act B
  m >>= k = λ c. and_then (m c) k

  abbrev pub ◌>>◌ : Act A → Act B → Act B
  m >> k = m >>= λ _. k

module _ {A : Type 0} where
  -- `?` on a result that touches neither.
  abbrev pub lift : Result A → Act A
  lift r c = (r, c)

  abbrev pub on_stream : Io A → Act A
  on_stream m c = let (r, s) = m c.stream in (r, record c { stream = s })

  abbrev pub on_context : (Context → Context × Result A) → Act A
  on_context f c = let (context, r) = f c.context in (r, record c { context = context })
