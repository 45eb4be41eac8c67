-- ===== src/Handshake/Stream.antt =====
-- What a handshake reads from and writes to a connection (`read_exact`, `write_all` and
-- `read_zmtp_frame_tcp` of crates/libzmq-core/src/socket.rs). A stream is one where the peer sends
-- the bytes `incoming` and then closes its side; `outgoing` collects the bytes written. A write
-- never fails. Runs where a peer keeps the connection open and sends too little are not modelled:
-- with no read timeout set, the code waits there without end.
pub mod Frames
pub mod Progress
use libzmq_ru.Base.{
  ℕ, ◌+◌, ◌%◌, ◌^◌, Bool, true, false, not, List, [], ◌∷◌, ◌++◌, length, take, drop, get_or, ltb,
  leb, ◌==◌, if◌then◌else◌,
}
use libzmq_ru.Base.Wire.{to_be_bytes, from_be_bytes}
use libzmq_ru.Error.{Result, ok, err, invalid_socket}
use libzmq_ru.Zmtp.Frame.{ZmtpFrame, command_frame, encode_v3, decode_v3}
use Prim.Native.Nat.{bit_and}

pub record Stream : Type 0 where
  pub incoming : List ℕ
  pub outgoing : List ℕ

abbrev pub Io : Type 0 → Type 0
Io A = Stream → Result A × Stream

module _ {A B : Type 0} where
  abbrev pub and_then : Result A × Stream → (A → Io B) → Result B × Stream
  and_then (ok a, s) k = k a s
  and_then (err e, s) k = (err e, s)

  infixl 5 ◌>>=◌ ◌>>◌
  abbrev pub ◌>>=◌ : Io A → (A → Io B) → Io B
  m >>= k = λ s. and_then (m s) k

  abbrev pub ◌>>◌ : Io A → Io B → Io B
  m >> k = m >>= λ _. k

-- `?` on a result that does not touch the stream.
abbrev pub lift : {A : Type 0} → Result A → Io A
lift r s = (r, s)

-- The end of the stream is an `UnexpectedEof`, which `map_io_error` turns into `InvalidSocket`;
-- the bytes before it are lost.
unfoldable pub read_exact : ℕ → Io (List ℕ)
read_exact n s =
    if ltb (length s.incoming) n
    then (err invalid_socket, record s { incoming = [] })
    else (ok (take n s.incoming), record s { incoming = drop n s.incoming })

unfoldable pub write_all : List ℕ → Io (Unit {0})
write_all bytes s = (ok tt, record s { outgoing = s.outgoing ++ bytes })

-- The length of the body: eight bytes or one.
unfoldable pub read_body_len : Bool → Io ℕ
unfolding read_exact
read_body_len true = do len ← read_exact 8; lift (ok (from_be_bytes len))
read_body_len false = do len ← read_exact 1; lift (ok (get_or len 0 0))

-- The code makes room for the whole body first, and panics where the length is 2^63 or more; here
-- such a length is that of a body that the stream does not have.
unfoldable pub read_zmtp_frame_bytes : Io (List ℕ)
unfolding read_exact read_body_len
read_zmtp_frame_bytes = do
  flags ← read_exact 1
  let long = not (bit_and (get_or flags 0 0) 2 == 0)
  body_len ← read_body_len long
  body ← read_exact body_len
  lift (
      ok (
        get_or flags 0 0
        ∷ ((if long then to_be_bytes 8 (body_len % 2 ^ 64) else body_len % 2 ^ 8 ∷ []) ++ body)))

unfoldable pub read_zmtp_frame : Io ZmtpFrame
read_zmtp_frame = do encoded ← read_zmtp_frame_bytes; lift (decode_v3 encoded)

-- `stream.write_all(&ZmtpFrame::command(body).encode_v3())`
unfoldable pub write_command : List ℕ → Io (Unit {0})
write_command body = write_all (encode_v3 (command_frame body))

unfoldable pub read_zmtp_frame_body : Io (List ℕ)
unfolding read_exact read_body_len
read_zmtp_frame_body = do
  flags ← read_exact 1
  body_len ← read_body_len (not (bit_and (get_or flags 0 0) 2 == 0))
  read_exact body_len
