-- ===== src/SocketOptions/Codes.antt =====
-- The codes of the options that are numbers. The code's `match` on a code is the option of the code
-- here, and then a clause for the option.
use libzmq_ru.Base.{none, ℕ, ◌==◌, ◌≡◌, Option, some, List, [], ◌∷◌, find, arith}
use libzmq_ru.Base.Int.{ℤ, pos, negsuc}
use libzmq_ru.Constants.{
  zmq_linger, zmq_sndhwm, zmq_rcvhwm, zmq_rate, zmq_recovery_ivl, zmq_sndbuf, zmq_rcvbuf,
  zmq_reconnect_ivl, zmq_reconnect_ivl_max, zmq_reconnect_stop, zmq_backlog, zmq_priority,
  zmq_in_batch_size, zmq_out_batch_size, zmq_busy_poll, zmq_multicast_hops, zmq_multicast_maxtpdu,
  zmq_multicast_loop, zmq_tos, zmq_connect_timeout, zmq_tcp_maxrt, zmq_tcp_keepalive,
  zmq_tcp_keepalive_cnt, zmq_tcp_keepalive_idle, zmq_tcp_keepalive_intvl, zmq_handshake_ivl,
  zmq_heartbeat_ivl, zmq_heartbeat_ttl, zmq_heartbeat_timeout, zmq_use_fd, zmq_sndtimeo,
  zmq_rcvtimeo, zmq_ipv6, zmq_immediate, zmq_invert_matching, zmq_loopback_fastpath, zmq_conflate,
  zmq_probe_router, zmq_router_raw, zmq_router_mandatory, zmq_router_handover, zmq_stream_notify,
  zmq_req_correlate, zmq_req_relaxed, zmq_xpub_verbose, zmq_xpub_verboser, zmq_xpub_nodrop,
  zmq_xpub_manual, zmq_xpub_manual_last_value, zmq_only_first_subscribe,
  zmq_xsub_verbose_unsubscribe, zmq_norm_mode, zmq_norm_unicast_nack, zmq_norm_buffer_size,
  zmq_norm_segment_size, zmq_norm_block_size, zmq_norm_num_parity, zmq_norm_num_autoparity,
  zmq_norm_push, zmq_plain_server, zmq_curve_server, zmq_gssapi_server, zmq_gssapi_plaintext,
  zmq_gssapi_principal_nametype, zmq_gssapi_service_principal_nametype, zmq_zap_enforce_domain,
  zmq_type, zmq_topics_count, zmq_mechanism, zmq_fd, zmq_events, zmq_rcvmore, zmq_thread_safe,
}

pub data I32Option : Type 0 where
  linger sndhwm rcvhwm rate recovery_ivl sndbuf rcvbuf reconnect_ivl : I32Option
  reconnect_ivl_max reconnect_stop backlog priority in_batch_size : I32Option
  out_batch_size busy_poll multicast_hops multicast_maxtpdu multicast_loop tos : I32Option
  connect_timeout tcp_maxrt tcp_keepalive tcp_keepalive_cnt tcp_keepalive_idle : I32Option
  tcp_keepalive_intvl handshake_ivl heartbeat_ivl heartbeat_ttl : I32Option
  heartbeat_timeout use_fd sndtimeo rcvtimeo ipv6 immediate invert_matching : I32Option
  loopback_fastpath conflate probe_router router_raw router_mandatory : I32Option
  router_handover stream_notify req_correlate req_relaxed xpub_verbose : I32Option
  xpub_verboser xpub_nodrop xpub_manual xpub_manual_last_value : I32Option
  only_first_subscribe xsub_verbose_unsubscribe norm_mode norm_unicast_nack : I32Option
  norm_buffer_size norm_segment_size norm_block_size norm_num_parity : I32Option
  norm_num_autoparity norm_push plain_server curve_server gssapi_server : I32Option
  gssapi_plaintext gssapi_principal_nametype gssapi_service_principal_nametype : I32Option
  zap_enforce_domain type_option topics_count mechanism_option fd events_option : I32Option
  rcvmore thread_safe : I32Option

unfoldable pub option_code : I32Option → ℕ
option_code linger = zmq_linger
option_code sndhwm = zmq_sndhwm
option_code rcvhwm = zmq_rcvhwm
option_code rate = zmq_rate
option_code recovery_ivl = zmq_recovery_ivl
option_code sndbuf = zmq_sndbuf
option_code rcvbuf = zmq_rcvbuf
option_code reconnect_ivl = zmq_reconnect_ivl
option_code reconnect_ivl_max = zmq_reconnect_ivl_max
option_code reconnect_stop = zmq_reconnect_stop
option_code backlog = zmq_backlog
option_code priority = zmq_priority
option_code in_batch_size = zmq_in_batch_size
option_code out_batch_size = zmq_out_batch_size
option_code busy_poll = zmq_busy_poll
option_code multicast_hops = zmq_multicast_hops
option_code multicast_maxtpdu = zmq_multicast_maxtpdu
option_code multicast_loop = zmq_multicast_loop
option_code tos = zmq_tos
option_code connect_timeout = zmq_connect_timeout
option_code tcp_maxrt = zmq_tcp_maxrt
option_code tcp_keepalive = zmq_tcp_keepalive
option_code tcp_keepalive_cnt = zmq_tcp_keepalive_cnt
option_code tcp_keepalive_idle = zmq_tcp_keepalive_idle
option_code tcp_keepalive_intvl = zmq_tcp_keepalive_intvl
option_code handshake_ivl = zmq_handshake_ivl
option_code heartbeat_ivl = zmq_heartbeat_ivl
option_code heartbeat_ttl = zmq_heartbeat_ttl
option_code heartbeat_timeout = zmq_heartbeat_timeout
option_code use_fd = zmq_use_fd
option_code sndtimeo = zmq_sndtimeo
option_code rcvtimeo = zmq_rcvtimeo
option_code ipv6 = zmq_ipv6
option_code immediate = zmq_immediate
option_code invert_matching = zmq_invert_matching
option_code loopback_fastpath = zmq_loopback_fastpath
option_code conflate = zmq_conflate
option_code probe_router = zmq_probe_router
option_code router_raw = zmq_router_raw
option_code router_mandatory = zmq_router_mandatory
option_code router_handover = zmq_router_handover
option_code stream_notify = zmq_stream_notify
option_code req_correlate = zmq_req_correlate
option_code req_relaxed = zmq_req_relaxed
option_code xpub_verbose = zmq_xpub_verbose
option_code xpub_verboser = zmq_xpub_verboser
option_code xpub_nodrop = zmq_xpub_nodrop
option_code xpub_manual = zmq_xpub_manual
option_code xpub_manual_last_value = zmq_xpub_manual_last_value
option_code only_first_subscribe = zmq_only_first_subscribe
option_code xsub_verbose_unsubscribe = zmq_xsub_verbose_unsubscribe
option_code norm_mode = zmq_norm_mode
option_code norm_unicast_nack = zmq_norm_unicast_nack
option_code norm_buffer_size = zmq_norm_buffer_size
option_code norm_segment_size = zmq_norm_segment_size
option_code norm_block_size = zmq_norm_block_size
option_code norm_num_parity = zmq_norm_num_parity
option_code norm_num_autoparity = zmq_norm_num_autoparity
option_code norm_push = zmq_norm_push
option_code plain_server = zmq_plain_server
option_code curve_server = zmq_curve_server
option_code gssapi_server = zmq_gssapi_server
option_code gssapi_plaintext = zmq_gssapi_plaintext
option_code gssapi_principal_nametype = zmq_gssapi_principal_nametype
option_code gssapi_service_principal_nametype = zmq_gssapi_service_principal_nametype
option_code zap_enforce_domain = zmq_zap_enforce_domain
option_code type_option = zmq_type
option_code topics_count = zmq_topics_count
option_code mechanism_option = zmq_mechanism
option_code fd = zmq_fd
option_code events_option = zmq_events
option_code rcvmore = zmq_rcvmore
option_code thread_safe = zmq_thread_safe

abbrev i32_options : List I32Option
i32_options =
    linger ∷ sndhwm ∷ rcvhwm ∷ rate ∷ recovery_ivl ∷ sndbuf ∷ rcvbuf ∷ reconnect_ivl
    ∷ reconnect_ivl_max ∷ reconnect_stop ∷ backlog ∷ priority ∷ in_batch_size ∷ out_batch_size
    ∷ busy_poll ∷ multicast_hops ∷ multicast_maxtpdu ∷ multicast_loop ∷ tos ∷ connect_timeout
    ∷ tcp_maxrt ∷ tcp_keepalive ∷ tcp_keepalive_cnt ∷ tcp_keepalive_idle ∷ tcp_keepalive_intvl
    ∷ handshake_ivl ∷ heartbeat_ivl ∷ heartbeat_ttl ∷ heartbeat_timeout ∷ use_fd ∷ sndtimeo
    ∷ rcvtimeo ∷ ipv6 ∷ immediate ∷ invert_matching ∷ loopback_fastpath ∷ conflate ∷ probe_router
    ∷ router_raw ∷ router_mandatory ∷ router_handover ∷ stream_notify ∷ req_correlate ∷ req_relaxed
    ∷ xpub_verbose ∷ xpub_verboser ∷ xpub_nodrop ∷ xpub_manual ∷ xpub_manual_last_value
    ∷ only_first_subscribe ∷ xsub_verbose_unsubscribe ∷ norm_mode ∷ norm_unicast_nack
    ∷ norm_buffer_size ∷ norm_segment_size ∷ norm_block_size ∷ norm_num_parity ∷ norm_num_autoparity
    ∷ norm_push ∷ plain_server ∷ curve_server ∷ gssapi_server ∷ gssapi_plaintext
    ∷ gssapi_principal_nametype ∷ gssapi_service_principal_nametype ∷ zap_enforce_domain
    ∷ type_option ∷ topics_count ∷ mechanism_option ∷ fd ∷ events_option ∷ rcvmore ∷ thread_safe
    ∷ []

unfoldable pub option_named : ℤ → Option I32Option
unfolding find option_code
option_named (pos code) = find (λ o. option_code o == code) i32_options
option_named (negsuc n) = none

-- No code names two options.
pub option_named-option_code : (o : I32Option) → option_named (pos (option_code o)) ≡ some o
unfolding find option_code option_named
option_named-option_code o = ground arith
