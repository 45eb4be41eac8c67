-- ===== src/Security.antt =====
-- The security options of a socket (`SecurityOptions` of crates/libzmq-core/src/socket.rs): the
-- mechanism that they choose, and the clients that they let in. That the options are overwritten
-- when they are dropped has no effect on any result.
pub mod Keys
mod Examples
use libzmq_ru.Base.{
  ℕ, Bool, true, false, not, ◌&&◌, ◌||◌, List, [], ◌∷◌, is_empty, length, ◌==◌, bytes_eq,
  if◌then◌else◌,
}
use libzmq_ru.Base.Int.{ℤ, pos}
use libzmq_ru.Base.Utf8.{is_utf8}
use libzmq_ru.Constants.{zmq_null, zmq_plain, zmq_curve, zmq_gssapi, zmq_gssapi_nt_hostbased}
use libzmq_ru.Error.{Result, ok, err, invalid_argument, ◌>>=◌}
use libzmq_ru.Z85.{z85_decode}

pub record SecurityOptions : Type 0 where
  pub plain_server : Bool
  pub plain_username : List ℕ
  pub plain_password : List ℕ
  pub curve_server : Bool
  pub curve_publickey : List ℕ
  pub curve_secretkey : List ℕ
  pub curve_serverkey : List ℕ
  pub zap_domain : List ℕ
  pub gssapi_server : Bool
  pub gssapi_principal : List ℕ
  pub gssapi_service_principal : List ℕ
  pub gssapi_plaintext : Bool
  pub gssapi_principal_nametype : ℤ
  pub gssapi_service_principal_nametype : ℤ
  pub zap_enforce_domain : Bool

unfoldable pub default_security : SecurityOptions
default_security = record {
  plain_server = false;
  plain_username = [];
  plain_password = [];
  curve_server = false;
  curve_publickey = [];
  curve_secretkey = [];
  curve_serverkey = [];
  zap_domain = [];
  gssapi_server = false;
  gssapi_principal = [];
  gssapi_service_principal = [];
  gssapi_plaintext = false;
  gssapi_principal_nametype = pos zmq_gssapi_nt_hostbased;
  gssapi_service_principal_nametype = pos zmq_gssapi_nt_hostbased;
  zap_enforce_domain = false;
}

abbrev pub wants_gssapi : SecurityOptions → Bool
wants_gssapi o =
    o.gssapi_server
    || not (is_empty o.gssapi_principal)
    || not (is_empty o.gssapi_service_principal)

abbrev pub wants_curve : SecurityOptions → Bool
wants_curve o =
    o.curve_server
    || not (is_empty o.curve_publickey)
    || not (is_empty o.curve_secretkey)
    || not (is_empty o.curve_serverkey)

abbrev pub wants_plain : SecurityOptions → Bool
wants_plain o = o.plain_server || not (is_empty o.plain_username) || not (is_empty o.plain_password)

unfoldable pub mechanism : SecurityOptions → ℕ
mechanism o =
    if wants_gssapi o
    then zmq_gssapi
    else if wants_curve o
    then zmq_curve
    else if wants_plain o
    then zmq_plain
    else zmq_null

-- "PLAIN", "CURVE", "GSSAPI" and "NULL".
unfoldable pub mechanism_name : SecurityOptions → List ℕ
mechanism_name o =
    if mechanism o == zmq_plain
    then 80 ∷ 76 ∷ 65 ∷ 73 ∷ 78 ∷ []
    else if mechanism o == zmq_curve
    then 67 ∷ 85 ∷ 82 ∷ 86 ∷ 69 ∷ []
    else if mechanism o == zmq_gssapi
    then 71 ∷ 83 ∷ 83 ∷ 65 ∷ 80 ∷ 73 ∷ []
    else 78 ∷ 85 ∷ 76 ∷ 76 ∷ []

pub record PlainCredentials : Type 0 where
  pub username : List ℕ
  pub password : List ℕ

unfoldable pub authorize_plain : SecurityOptions → PlainCredentials → Result (Unit {0})
authorize_plain o c =
    if not (is_empty o.plain_username) && not (bytes_eq o.plain_username c.username)
    then err invalid_argument
    else if not (is_empty o.plain_password) && not (bytes_eq o.plain_password c.password)
    then err invalid_argument
    else ok tt

-- The bytes of a key that is given as they are, or printed.
printed_key : List ℕ → Result (List ℕ)
printed_key value = if is_utf8 value then z85_decode value else err invalid_argument

unfoldable pub curve_option_key : List ℕ → Result (List ℕ)
unfolding printed_key
curve_option_key value = (if length value == 40 then printed_key value else ok value) >>= λ bytes.
    if not (length bytes == 32) then err invalid_argument else ok bytes

unfoldable pub authorize_curve : SecurityOptions → List ℕ → Result (Unit {0})
authorize_curve o public_key =
    if is_empty o.curve_publickey
    then ok tt
    else curve_option_key o.curve_publickey >>= λ expected.
        if not (bytes_eq expected public_key) then err invalid_argument else ok tt

-- Without the feature gssapi.
unfoldable pub authorize_gssapi : SecurityOptions → List ℕ → Result (Unit {0})
authorize_gssapi o principal =
    if not (is_empty o.gssapi_principal) && not (bytes_eq o.gssapi_principal principal)
    then err invalid_argument
    else ok tt

-- The new value of the option.
unfoldable pub set_curve_key : List ℕ → List ℕ → List ℕ × Result (Unit {0})
set_curve_key target value =
    if not (length value == 32 || length value == 40)
    then (target, err invalid_argument)
    else (value, ok tt)
