-- ===== src/SocketType.antt =====
-- `SocketType` of crates/libzmq-core/src/socket.rs, its numbers, and the predicates on types of
-- socket.rs and context.rs. `pub` is a reserved word here: the type Pub is `pub_type`.
pub mod Codes
mod Examples
use libzmq_ru.Base.{ℕ, Bool, true, false, ◌==◌, ◌||◌, List, [], ◌∷◌, if◌then◌else◌}
use libzmq_ru.Base.Int.{ℤ, pos, negsuc, is_code}
use libzmq_ru.Constants.{
  zmq_pair, zmq_pub, zmq_sub, zmq_req, zmq_rep, zmq_dealer, zmq_router, zmq_pull, zmq_push,
  zmq_xpub, zmq_xsub, zmq_stream, zmq_server, zmq_client, zmq_radio, zmq_dish, zmq_gather,
  zmq_scatter, zmq_dgram, zmq_peer, zmq_channel,
}
use libzmq_ru.Error.{Result, ok, err, invalid_argument}

pub data SocketType : Type 0 where
  pair pub_type sub req rep dealer router pull push xpub xsub stream : SocketType
  server client radio dish gather scatter dgram peer channel : SocketType

-- The discriminant of the `#[repr(i32)]` enum.
unfoldable pub code_of : SocketType → ℕ
code_of pair = zmq_pair
code_of pub_type = zmq_pub
code_of sub = zmq_sub
code_of req = zmq_req
code_of rep = zmq_rep
code_of dealer = zmq_dealer
code_of router = zmq_router
code_of pull = zmq_pull
code_of push = zmq_push
code_of xpub = zmq_xpub
code_of xsub = zmq_xsub
code_of stream = zmq_stream
code_of server = zmq_server
code_of client = zmq_client
code_of radio = zmq_radio
code_of dish = zmq_dish
code_of gather = zmq_gather
code_of scatter = zmq_scatter
code_of dgram = zmq_dgram
code_of peer = zmq_peer
code_of channel = zmq_channel

unfoldable pub try_from : ℤ → Result SocketType
try_from value =
    if is_code value zmq_pair
    then ok pair
    else if is_code value zmq_pub
    then ok pub_type
    else if is_code value zmq_sub
    then ok sub
    else if is_code value zmq_req
    then ok req
    else if is_code value zmq_rep
    then ok rep
    else if is_code value zmq_dealer
    then ok dealer
    else if is_code value zmq_router
    then ok router
    else if is_code value zmq_pull
    then ok pull
    else if is_code value zmq_push
    then ok push
    else if is_code value zmq_xpub
    then ok xpub
    else if is_code value zmq_xsub
    then ok xsub
    else if is_code value zmq_stream
    then ok stream
    else if is_code value zmq_server
    then ok server
    else if is_code value zmq_client
    then ok client
    else if is_code value zmq_radio
    then ok radio
    else if is_code value zmq_dish
    then ok dish
    else if is_code value zmq_gather
    then ok gather
    else if is_code value zmq_scatter
    then ok scatter
    else if is_code value zmq_dgram
    then ok dgram
    else if is_code value zmq_peer
    then ok peer
    else if is_code value zmq_channel
    then ok channel
    else err invalid_argument

-- The derived `==`.
unfoldable pub type_eq : SocketType → SocketType → Bool
unfolding code_of
type_eq a b = code_of a == code_of b

unfoldable pub inproc_types_compatible : SocketType → SocketType → Bool
inproc_types_compatible pair pair = true
inproc_types_compatible push pull = true
inproc_types_compatible pull push = true
inproc_types_compatible dealer router = true
inproc_types_compatible router dealer = true
inproc_types_compatible req rep = true
inproc_types_compatible rep req = true
inproc_types_compatible server client = true
inproc_types_compatible client server = true
inproc_types_compatible pub_type sub = true
inproc_types_compatible sub pub_type = true
inproc_types_compatible xpub xsub = true
inproc_types_compatible xsub xpub = true
inproc_types_compatible stream stream = true
inproc_types_compatible channel channel = true
inproc_types_compatible peer peer = true
inproc_types_compatible radio dish = true
inproc_types_compatible dish radio = true
inproc_types_compatible scatter gather = true
inproc_types_compatible gather scatter = true
inproc_types_compatible _ _ = false

-- The types that can send: all but Sub, Pull, Dish and Gather.
unfoldable pub can_send : SocketType → Bool
can_send pair = true
can_send push = true
can_send dealer = true
can_send router = true
can_send req = true
can_send rep = true
can_send server = true
can_send client = true
can_send peer = true
can_send pub_type = true
can_send xpub = true
can_send xsub = true
can_send stream = true
can_send channel = true
can_send scatter = true
can_send radio = true
can_send dgram = true
can_send _ = false

unfoldable pub can_recv : SocketType → Bool
can_recv pair = true
can_recv pull = true
can_recv dealer = true
can_recv router = true
can_recv req = true
can_recv rep = true
can_recv server = true
can_recv client = true
can_recv peer = true
can_recv sub = true
can_recv xpub = true
can_recv xsub = true
can_recv stream = true
can_recv channel = true
can_recv gather = true
can_recv dish = true
can_recv dgram = true
can_recv _ = false
