-- ===== src/SocketOptions/Bytes.antt =====
-- The options that are byte strings: `set_option_bytes` and `get_option_bytes`.
use libzmq_ru.Base.{
  ℕ, ◌==◌, ◌≡◌, not, ◌||◌, ◌&&◌, Option, none, some, List, [], ◌∷◌, ◌++◌, find, is_empty, length,
  leb, if◌then◌else◌, arith,
}
use libzmq_ru.Base.Int.{ℤ, pos, negsuc}
use libzmq_ru.Constants.{
  zmq_routing_id, zmq_connect_routing_id, zmq_xpub_welcome_msg, zmq_plain_username,
  zmq_plain_password, zmq_curve_publickey, zmq_curve_secretkey, zmq_curve_serverkey, zmq_zap_domain,
  zmq_gssapi_principal, zmq_gssapi_service_principal, zmq_socks_proxy, zmq_socks_username,
  zmq_socks_password, zmq_bindtodevice, zmq_hello_msg, zmq_disconnect_msg, zmq_hiccup_msg,
  zmq_last_endpoint,
}
use libzmq_ru.Error.{Result, ok, err, invalid_argument, not_supported}
use libzmq_ru.Security.{SecurityOptions, set_curve_key}
use libzmq_ru.SocketOptions.{SocketOptions, OptionSocket}
use libzmq_ru.SocketType.{type_eq, router, stream, xpub}

pub data BytesOption : Type 0 where
  routing_id connect_routing_id xpub_welcome_msg plain_username plain_password : BytesOption
  curve_publickey curve_secretkey curve_serverkey zap_domain gssapi_principal : BytesOption
  gssapi_service_principal socks_proxy socks_username socks_password : BytesOption
  bindtodevice hello_msg disconnect_msg hiccup_msg last_endpoint : BytesOption

unfoldable pub bytes_code : BytesOption → ℕ
bytes_code routing_id = zmq_routing_id
bytes_code connect_routing_id = zmq_connect_routing_id
bytes_code xpub_welcome_msg = zmq_xpub_welcome_msg
bytes_code plain_username = zmq_plain_username
bytes_code plain_password = zmq_plain_password
bytes_code curve_publickey = zmq_curve_publickey
bytes_code curve_secretkey = zmq_curve_secretkey
bytes_code curve_serverkey = zmq_curve_serverkey
bytes_code zap_domain = zmq_zap_domain
bytes_code gssapi_principal = zmq_gssapi_principal
bytes_code gssapi_service_principal = zmq_gssapi_service_principal
bytes_code socks_proxy = zmq_socks_proxy
bytes_code socks_username = zmq_socks_username
bytes_code socks_password = zmq_socks_password
bytes_code bindtodevice = zmq_bindtodevice
bytes_code hello_msg = zmq_hello_msg
bytes_code disconnect_msg = zmq_disconnect_msg
bytes_code hiccup_msg = zmq_hiccup_msg
bytes_code last_endpoint = zmq_last_endpoint

abbrev bytes_options : List BytesOption
bytes_options =
    routing_id ∷ connect_routing_id ∷ xpub_welcome_msg ∷ plain_username ∷ plain_password
    ∷ curve_publickey ∷ curve_secretkey ∷ curve_serverkey ∷ zap_domain ∷ gssapi_principal
    ∷ gssapi_service_principal ∷ socks_proxy ∷ socks_username ∷ socks_password ∷ bindtodevice
    ∷ hello_msg ∷ disconnect_msg ∷ hiccup_msg ∷ last_endpoint ∷ []

unfoldable pub bytes_named : ℤ → Option BytesOption
unfolding find bytes_code
bytes_named (pos code) = find (λ o. bytes_code o == code) bytes_options
bytes_named (negsuc n) = none

-- No code names two options.
pub bytes_named-bytes_code : (o : BytesOption) → bytes_named (pos (bytes_code o)) ≡ some o
unfolding find bytes_code bytes_named
bytes_named-bytes_code o = ground arith

abbrev set : OptionSocket → SocketOptions → OptionSocket
set s options = record s { options = options }

abbrev secure : OptionSocket → SecurityOptions → OptionSocket
secure s security = record s { options = record s.options { security = security } }

-- The arms, by the option.
unfoldable pub set_bytes_known :
    OptionSocket → BytesOption → List ℕ → OptionSocket × Result (Unit {0})
set_bytes_known s routing_id value =
    if not (is_empty value) && leb (length value) 255
    then (set s (record s.options { routing_id = value }), ok tt)
    else (s, err invalid_argument)
set_bytes_known s connect_routing_id value =
    if (type_eq s.socket_type router || type_eq s.socket_type stream) && not (is_empty value)
    then (set s (record s.options { connect_routing_id = value }), ok tt)
    else (s, err invalid_argument)
set_bytes_known s xpub_welcome_msg value =
    if type_eq s.socket_type xpub
    then (record s { welcome = some value }, ok tt)
    else (s, err not_supported)
set_bytes_known s plain_username value =
    (secure s (record s.options.security { plain_username = value }), ok tt)
set_bytes_known s plain_password value =
    (secure s (record s.options.security { plain_password = value }), ok tt)
set_bytes_known s curve_publickey value =
    let (key, result) = set_curve_key s.options.security.curve_publickey value in
    (secure s (record s.options.security { curve_publickey = key }), result)
set_bytes_known s curve_secretkey value =
    let (key, result) = set_curve_key s.options.security.curve_secretkey value in
    (secure s (record s.options.security { curve_secretkey = key }), result)
set_bytes_known s curve_serverkey value =
    let (key, result) = set_curve_key s.options.security.curve_serverkey value in
    (secure s (record s.options.security { curve_serverkey = key }), result)
set_bytes_known s zap_domain value =
    (secure s (record s.options.security { zap_domain = value }), ok tt)
set_bytes_known s gssapi_principal value =
    (secure s (record s.options.security { gssapi_principal = value }), ok tt)
set_bytes_known s gssapi_service_principal value =
    (secure s (record s.options.security { gssapi_service_principal = value }), ok tt)
set_bytes_known s socks_proxy value = (set s (record s.options { socks_proxy = value }), ok tt)
set_bytes_known s socks_username value =
    (set s (record s.options { socks_username = value }), ok tt)
set_bytes_known s socks_password value =
    (set s (record s.options { socks_password = value }), ok tt)
set_bytes_known s bindtodevice value = (set s (record s.options { bind_to_device = value }), ok tt)
set_bytes_known s hello_msg value = (set s (record s.options { hello_msg = value }), ok tt)
set_bytes_known s disconnect_msg value =
    (record (set s (record s.options { disconnect_msg = value })) { disconnect_msg = value }, ok tt)
set_bytes_known s hiccup_msg value = (set s (record s.options { hiccup_msg = value }), ok tt)
set_bytes_known s last_endpoint value = (s, err invalid_argument)

unfoldable pub set_bytes_named :
    OptionSocket → Option BytesOption → List ℕ → OptionSocket × Result (Unit {0})
unfolding set_bytes_known
set_bytes_named s none value = (s, err invalid_argument)
set_bytes_named s (some o) value = set_bytes_known s o value

unfoldable pub set_option_bytes : OptionSocket → ℤ → List ℕ → OptionSocket × Result (Unit {0})
unfolding set_bytes_named
set_option_bytes s option value = set_bytes_named s (bytes_named option) value

abbrev pub c_string_option : List ℕ → List ℕ
c_string_option value = value ++ (0 ∷ [])

unfoldable pub read_bytes : OptionSocket → BytesOption → Result (List ℕ)
read_bytes s routing_id = ok s.options.routing_id
read_bytes s last_endpoint = ok (c_string_option s.options.last_endpoint)
read_bytes s plain_username = ok s.options.security.plain_username
read_bytes s plain_password = ok s.options.security.plain_password
read_bytes s curve_publickey = ok s.options.security.curve_publickey
read_bytes s curve_secretkey = ok s.options.security.curve_secretkey
read_bytes s curve_serverkey = ok s.options.security.curve_serverkey
read_bytes s zap_domain = ok s.options.security.zap_domain
read_bytes s gssapi_principal = ok s.options.security.gssapi_principal
read_bytes s gssapi_service_principal = ok s.options.security.gssapi_service_principal
read_bytes s socks_proxy = ok (c_string_option s.options.socks_proxy)
read_bytes s socks_username = ok (c_string_option s.options.socks_username)
read_bytes s socks_password = ok (c_string_option s.options.socks_password)
read_bytes s bindtodevice = ok (c_string_option s.options.bind_to_device)
read_bytes s _ = err invalid_argument

unfoldable pub read_bytes_named : OptionSocket → Option BytesOption → Result (List ℕ)
unfolding read_bytes
read_bytes_named s none = err invalid_argument
read_bytes_named s (some o) = read_bytes s o

unfoldable pub get_option_bytes : OptionSocket → ℤ → Result (List ℕ)
unfolding read_bytes_named
get_option_bytes s option = read_bytes_named s (bytes_named option)
