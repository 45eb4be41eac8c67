-- ===== src/Zmtp/Greeting.antt =====
-- `ZmtpGreeting` of crates/libzmq-core/src/transport.rs: the 64 bytes that open a connection.
pub mod RoundTrip
use libzmq_ru.Base.{
  ℕ, zero, suc, Bool, true, false, ◌&&◌, ◌||◌, not, List, [], ◌∷◌, length, get_or, take, drop, set,
  replicate, min, ◌==◌, if◌then◌else◌,
}
use libzmq_ru.Base.Utf8.{is_utf8}
use libzmq_ru.Constants.{zmtp_greeting_size}
use libzmq_ru.Error.{Result, ok, err, invalid_argument}

pub record ZmtpGreeting : Type 0 where
  pub major : ℕ
  pub minor : ℕ
  pub mechanism : List ℕ
  pub as_server : Bool

unfoldable pub new : List ℕ → Bool → ZmtpGreeting
new mechanism as_server = record {
  major = 3;
  minor = 1;
  mechanism = mechanism;
  as_server = as_server;
}

abbrev pub null_name : List ℕ
null_name = b'N' ∷ b'U' ∷ b'L' ∷ b'L' ∷ []

unfoldable pub null_client : ZmtpGreeting
unfolding new
null_client = new null_name false

unfoldable pub null_server : ZmtpGreeting
unfolding new
null_server = new null_name true

-- `dst[..src.len()].copy_from_slice(src)`
abbrev copy_into : List ℕ → List ℕ → List ℕ
copy_into [] dst = dst
copy_into (s ∷ src) [] = []
copy_into (s ∷ src) (d ∷ dst) = s ∷ copy_into src dst

-- `dst[i..i + src.len()].copy_from_slice(src)`
abbrev copy_at : ℕ → List ℕ → List ℕ → List ℕ
copy_at zero src dst = copy_into src dst
copy_at (suc i) src [] = []
copy_at (suc i) src (d ∷ dst) = d ∷ copy_at i src dst

abbrev u8_from : Bool → ℕ
u8_from true = 1
u8_from false = 0

unfoldable pub encode : ZmtpGreeting → List ℕ
encode g =
    let bytes0 = set (set (set (replicate zmtp_greeting_size 0) 0 0xff) 8 0x01) 9 0x7f in
    let bytes1 = set (set bytes0 10 g.major) 11 g.minor in
    let len = min (length g.mechanism) 20 in
    let bytes2 = copy_at 12 (take len g.mechanism) bytes1 in set bytes2 32 (u8_from g.as_server)

-- `split(|byte| *byte == 0).next()`
abbrev pub until_zero : List ℕ → List ℕ
until_zero [] = []
until_zero (b ∷ bs) = let rest = until_zero bs in if b == 0 then [] else b ∷ rest

unfoldable pub decode : List ℕ → Result ZmtpGreeting
decode bytes =
    if not (length bytes == zmtp_greeting_size)
      || not (get_or bytes 0 0 == 0xff)
      || not (get_or bytes 9 0 == 0x7f)
    then err invalid_argument
    else (let mechanism = until_zero (take 20 (drop 12 bytes)) in
        if not (is_utf8 mechanism)
        then err invalid_argument
        else ok (record {
          major = get_or bytes 10 0;
          minor = get_or bytes 11 0;
          mechanism = mechanism;
          as_server = not (get_or bytes 32 0 == 0);
        }))
