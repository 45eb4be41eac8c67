-- ===== src/SocketOptions.antt =====
-- The options of a socket (`SocketOptions` of crates/libzmq-core/src/socket.rs), and the parts of a
-- socket that its calls on options read and write.
pub mod Codes
pub mod Setting
pub mod Getting
pub mod Bytes
pub mod BytesBack
pub mod ReadBack
pub mod Coherence
mod Examples
use libzmq_ru.Base.{ℕ, Bool, true, false, Option, none, List, [], if◌then◌else◌}
use libzmq_ru.Base.Int.{ℤ, pos, negsuc}
use libzmq_ru.Constants.{zmq_norm_cc}
use libzmq_ru.Inproc.{XpubSubscriptionPolicyState}
use libzmq_ru.Security.{SecurityOptions, default_security}
use libzmq_ru.SocketType.{SocketType}
use libzmq_ru.Subscriptions.{SubscriptionState, default_state}

pub record SocketOptions : Type 0 where
  pub linger : ℤ
  pub sndhwm : ℤ
  pub rcvhwm : ℤ
  pub affinity : ℕ
  pub maxmsgsize : ℤ
  pub routing_id : List ℕ
  pub connect_routing_id : List ℕ
  pub last_endpoint : List ℕ
  pub socks_proxy : List ℕ
  pub socks_username : List ℕ
  pub socks_password : List ℕ
  pub bind_to_device : List ℕ
  pub hello_msg : List ℕ
  pub disconnect_msg : List ℕ
  pub hiccup_msg : List ℕ
  pub rate : ℤ
  pub recovery_ivl : ℤ
  pub sndbuf : ℤ
  pub rcvbuf : ℤ
  pub reconnect_ivl : ℤ
  pub reconnect_ivl_max : ℤ
  pub reconnect_stop : ℤ
  pub backlog : ℤ
  pub priority : ℤ
  pub in_batch_size : ℤ
  pub out_batch_size : ℤ
  pub busy_poll : ℤ
  pub multicast_hops : ℤ
  pub multicast_maxtpdu : ℤ
  pub multicast_loop : Bool
  pub tos : ℤ
  pub connect_timeout : ℤ
  pub tcp_maxrt : ℤ
  pub tcp_keepalive : ℤ
  pub tcp_keepalive_cnt : ℤ
  pub tcp_keepalive_idle : ℤ
  pub tcp_keepalive_intvl : ℤ
  pub handshake_ivl : ℤ
  pub heartbeat_ivl : ℤ
  pub heartbeat_ttl : ℤ
  pub heartbeat_timeout : ℤ
  pub use_fd : ℤ
  pub sndtimeo : ℤ
  pub rcvtimeo : ℤ
  pub ipv6 : Bool
  pub immediate : Bool
  pub invert_matching : Bool
  pub loopback_fastpath : Bool
  pub conflate : Bool
  pub probe_router : Bool
  pub router_raw : Bool
  pub router_mandatory : Bool
  pub router_handover : Bool
  pub stream_notify : Bool
  pub req_correlate : Bool
  pub req_relaxed : Bool
  pub xpub_verbose : Bool
  pub xpub_verboser : Bool
  pub xpub_nodrop : Bool
  pub xpub_manual : Bool
  pub xpub_manual_last_value : Bool
  pub xsub_verbose_unsubscribe : Bool
  pub only_first_subscribe : Bool
  pub norm_mode : ℤ
  pub norm_unicast_nack : Bool
  pub norm_buffer_size : ℤ
  pub norm_segment_size : ℤ
  pub norm_block_size : ℤ
  pub norm_num_parity : ℤ
  pub norm_num_autoparity : ℤ
  pub norm_push : Bool
  pub security : SecurityOptions

unfoldable pub default_options : SocketOptions
default_options = record {
  linger = negsuc 0;
  sndhwm = pos 1000;
  rcvhwm = pos 1000;
  affinity = 0;
  maxmsgsize = negsuc 0;
  routing_id = [];
  connect_routing_id = [];
  last_endpoint = [];
  socks_proxy = [];
  socks_username = [];
  socks_password = [];
  bind_to_device = [];
  hello_msg = [];
  disconnect_msg = [];
  hiccup_msg = [];
  rate = pos 100;
  recovery_ivl = pos 10000;
  sndbuf = negsuc 0;
  rcvbuf = negsuc 0;
  reconnect_ivl = pos 100;
  reconnect_ivl_max = pos 0;
  reconnect_stop = pos 0;
  backlog = pos 100;
  priority = pos 0;
  in_batch_size = pos 8192;
  out_batch_size = pos 8192;
  busy_poll = pos 0;
  multicast_hops = pos 1;
  multicast_maxtpdu = pos 1500;
  multicast_loop = true;
  tos = pos 0;
  connect_timeout = pos 0;
  tcp_maxrt = pos 0;
  tcp_keepalive = negsuc 0;
  tcp_keepalive_cnt = negsuc 0;
  tcp_keepalive_idle = negsuc 0;
  tcp_keepalive_intvl = negsuc 0;
  handshake_ivl = pos 30000;
  heartbeat_ivl = pos 0;
  heartbeat_ttl = pos 0;
  heartbeat_timeout = negsuc 0;
  use_fd = negsuc 0;
  sndtimeo = negsuc 0;
  rcvtimeo = negsuc 0;
  ipv6 = false;
  immediate = false;
  invert_matching = false;
  loopback_fastpath = false;
  conflate = false;
  probe_router = false;
  router_raw = false;
  router_mandatory = false;
  router_handover = false;
  stream_notify = true;
  req_correlate = false;
  req_relaxed = false;
  xpub_verbose = false;
  xpub_verboser = false;
  xpub_nodrop = false;
  xpub_manual = false;
  xpub_manual_last_value = false;
  xsub_verbose_unsubscribe = false;
  only_first_subscribe = false;
  norm_mode = pos zmq_norm_cc;
  norm_unicast_nack = false;
  norm_buffer_size = pos 2048;
  norm_segment_size = pos 1400;
  norm_block_size = pos 16;
  norm_num_parity = pos 4;
  norm_num_autoparity = pos 0;
  norm_push = false;
  security = default_security;
}

-- The mutexes and shared cells that only this socket's options are about are fields here.
pub record OptionSocket : Type 0 where
  pub socket_type : SocketType
  pub options : SocketOptions
  pub policy : XpubSubscriptionPolicyState
  pub welcome : Option (List ℕ)
  pub disconnect_msg : List ℕ
  pub subscriptions : SubscriptionState
  pub inproc_fast_send_enabled : Bool
  pub last_recv_more : Bool

abbrev pub no_policy : XpubSubscriptionPolicyState
no_policy = record {
  verbose_subscribe = false;
  verbose_unsubscribe = false;
  manual = false;
  manual_last_value = false;
}

-- A new socket, with the `ipv6` and `blocky` of its context.
unfoldable pub new_socket : SocketType → (ipv6 blocky : Bool) → OptionSocket
unfolding default_options
new_socket t ipv6 blocky = record {
  socket_type = t;
  options = record default_options { linger = if blocky then negsuc 0 else pos 0; ipv6 = ipv6 };
  policy = no_policy;
  welcome = none;
  disconnect_msg = [];
  subscriptions = default_state;
  inproc_fast_send_enabled = true;
  last_recv_more = false;
}
