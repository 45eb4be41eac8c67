-- ===== src/Zap.antt =====
-- The ZAP messages of crates/libzmq-core/src/security.rs (`ZapRequest` and `ZapReply`), by which a
-- server asks whether a client may connect. A string is its bytes, which are valid UTF-8.
pub mod RoundTrip
mod Examples
use libzmq_ru.Base.{ℕ, Bool, true, not, List, [], ◌∷◌, ◌++◌, bytes_eq, if◌then◌else◌}
use libzmq_ru.Base.Utf8.{is_utf8}
use libzmq_ru.Error.{Result, ok, err, invalid_argument, ◌>>=◌}

pub record ZapRequest : Type 0 where
  pub version : List ℕ
  pub request_id : List ℕ
  pub domain : List ℕ
  pub address : List ℕ
  pub identity : List ℕ
  pub mechanism : List ℕ
  pub credentials : List (List ℕ)

pub record ZapReply : Type 0 where
  pub version : List ℕ
  pub request_id : List ℕ
  pub status_code : List ℕ
  pub status_text : List ℕ
  pub user_id : List ℕ
  pub metadata : List ℕ

-- The bytes of "1.0".
abbrev pub zap_version : List ℕ
zap_version = 49 ∷ 46 ∷ 48 ∷ []

unfoldable pub new_request :
    (request_id domain address identity mechanism : List ℕ) (credentials : List (List ℕ))
    → ZapRequest
new_request id domain address identity mechanism credentials = record {
  version = zap_version;
  request_id = id;
  domain = domain;
  address = address;
  identity = identity;
  mechanism = mechanism;
  credentials = credentials;
}

unfoldable pub new_reply : (request_id status_code status_text user_id metadata : List ℕ) → ZapReply
new_reply id status_code status_text user_id metadata = record {
  version = zap_version;
  request_id = id;
  status_code = status_code;
  status_text = status_text;
  user_id = user_id;
  metadata = metadata;
}

unfoldable pub decode_utf8 : List ℕ → Result (List ℕ)
decode_utf8 bytes = if is_utf8 bytes then ok bytes else err invalid_argument

unfoldable pub encode_request : ZapRequest → List (List ℕ)
encode_request r =
    r.version ∷ r.request_id ∷ r.domain ∷ r.address ∷ r.identity ∷ r.mechanism ∷ r.credentials

-- The record of the frames, once their number and the version are checked.
request_of :
    (version request_id domain address identity mechanism : List ℕ)
    → List (List ℕ)
    → Result ZapRequest
unfolding decode_utf8
request_of version id domain address identity mechanism credentials =
    decode_utf8 version >>= λ version'. decode_utf8 id >>= λ id'.
    decode_utf8 mechanism >>= λ mechanism'. ok (record {
      version = version';
      request_id = id';
      domain = domain;
      address = address;
      identity = identity;
      mechanism = mechanism';
      credentials = credentials;
    })

-- Fewer than six frames are refused.
unfoldable pub decode_request : List (List ℕ) → Result ZapRequest
unfolding request_of
decode_request (version ∷ id ∷ domain ∷ address ∷ identity ∷ mechanism ∷ credentials) =
    if not (bytes_eq version zap_version)
    then err invalid_argument
    else request_of version id domain address identity mechanism credentials
decode_request _ = err invalid_argument

unfoldable pub encode_reply : ZapReply → List (List ℕ)
encode_reply r =
    r.version ∷ r.request_id ∷ r.status_code ∷ r.status_text ∷ r.user_id ∷ r.metadata ∷ []

reply_of : (version request_id status_code status_text user_id metadata : List ℕ) → Result ZapReply
unfolding decode_utf8
reply_of version id status_code status_text user_id metadata = decode_utf8 version >>= λ version'.
    decode_utf8 id >>= λ id'. decode_utf8 status_code >>= λ status_code'.
    decode_utf8 status_text >>= λ status_text'. ok (record {
      version = version';
      request_id = id';
      status_code = status_code';
      status_text = status_text';
      user_id = user_id;
      metadata = metadata;
    })

-- Any number of frames but six is refused.
unfoldable pub decode_reply : List (List ℕ) → Result ZapReply
unfolding reply_of
decode_reply (version ∷ id ∷ status_code ∷ status_text ∷ user_id ∷ metadata ∷ []) =
    if not (bytes_eq version zap_version)
    then err invalid_argument
    else reply_of version id status_code status_text user_id metadata
decode_reply _ = err invalid_argument
