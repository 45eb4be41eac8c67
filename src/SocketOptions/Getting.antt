-- ===== src/SocketOptions/Getting.antt =====
-- `get_option_i32`, `get_option_u64` and `get_option_i64`. `events` is the result of the call of
-- that name (Exchange.Send).
use libzmq_ru.Base.{ℕ, ◌%◌, ◌^◌, ◌-◌, ltb, ◌||◌, Option, none, some, if◌then◌else◌}
use libzmq_ru.Base.Int.{ℤ, pos, negsuc, is_code, int_of}
use libzmq_ru.Constants.{zmq_affinity, zmq_maxmsgsize}
use libzmq_ru.Error.{Result, ok, err, invalid_argument}
use libzmq_ru.Security.{mechanism}
use libzmq_ru.SocketOptions.{OptionSocket}
use libzmq_ru.SocketOptions.Codes.{
  I32Option, option_named, linger, sndhwm, rcvhwm, rate, recovery_ivl, sndbuf, rcvbuf,
  reconnect_ivl, reconnect_ivl_max, reconnect_stop, backlog, priority, in_batch_size,
  out_batch_size, multicast_hops, multicast_maxtpdu, tos, connect_timeout, tcp_maxrt, tcp_keepalive,
  tcp_keepalive_cnt, tcp_keepalive_idle, tcp_keepalive_intvl, handshake_ivl, heartbeat_ivl,
  heartbeat_ttl, heartbeat_timeout, use_fd, sndtimeo, rcvtimeo, norm_mode, norm_buffer_size,
  norm_segment_size, norm_block_size, norm_num_parity, norm_num_autoparity,
  gssapi_principal_nametype, gssapi_service_principal_nametype, multicast_loop, ipv6, immediate,
  invert_matching, loopback_fastpath, conflate, router_mandatory, router_handover, req_correlate,
  req_relaxed, xpub_verbose, xpub_verboser, xpub_nodrop, xpub_manual, norm_unicast_nack, norm_push,
  plain_server, curve_server, gssapi_server, gssapi_plaintext, zap_enforce_domain, type_option,
  topics_count, mechanism_option, fd, events_option, rcvmore, thread_safe,
}
use libzmq_ru.SocketType.{type_eq, code_of, xpub, xsub}
use libzmq_ru.Subscriptions.{count}

-- `as i32`
abbrev as_i32 : ℕ → ℤ
as_i32 n = let low = n % 2 ^ 32 in if ltb low (2 ^ 31) then pos low else negsuc (2 ^ 32 - 1 - low)

unfoldable pub read : Result ℤ → OptionSocket → I32Option → Result ℤ
unfolding mechanism code_of
read events s linger = ok s.options.linger
read events s sndhwm = ok s.options.sndhwm
read events s rcvhwm = ok s.options.rcvhwm
read events s rate = ok s.options.rate
read events s recovery_ivl = ok s.options.recovery_ivl
read events s sndbuf = ok s.options.sndbuf
read events s rcvbuf = ok s.options.rcvbuf
read events s reconnect_ivl = ok s.options.reconnect_ivl
read events s reconnect_ivl_max = ok s.options.reconnect_ivl_max
read events s reconnect_stop = ok s.options.reconnect_stop
read events s backlog = ok s.options.backlog
read events s priority = ok s.options.priority
read events s in_batch_size = ok s.options.in_batch_size
read events s out_batch_size = ok s.options.out_batch_size
read events s multicast_hops = ok s.options.multicast_hops
read events s multicast_maxtpdu = ok s.options.multicast_maxtpdu
read events s multicast_loop = ok (int_of s.options.multicast_loop)
read events s tos = ok s.options.tos
read events s connect_timeout = ok s.options.connect_timeout
read events s tcp_maxrt = ok s.options.tcp_maxrt
read events s tcp_keepalive = ok s.options.tcp_keepalive
read events s tcp_keepalive_cnt = ok s.options.tcp_keepalive_cnt
read events s tcp_keepalive_idle = ok s.options.tcp_keepalive_idle
read events s tcp_keepalive_intvl = ok s.options.tcp_keepalive_intvl
read events s handshake_ivl = ok s.options.handshake_ivl
read events s heartbeat_ivl = ok s.options.heartbeat_ivl
read events s heartbeat_ttl = ok s.options.heartbeat_ttl
read events s heartbeat_timeout = ok s.options.heartbeat_timeout
read events s use_fd = ok s.options.use_fd
read events s sndtimeo = ok s.options.sndtimeo
read events s rcvtimeo = ok s.options.rcvtimeo
read events s ipv6 = ok (int_of s.options.ipv6)
read events s immediate = ok (int_of s.options.immediate)
read events s invert_matching = ok (int_of s.options.invert_matching)
read events s loopback_fastpath = ok (int_of s.options.loopback_fastpath)
read events s conflate = ok (int_of s.options.conflate)
read events s router_mandatory = ok (int_of s.options.router_mandatory)
read events s router_handover = ok (int_of s.options.router_handover)
read events s req_correlate = ok (int_of s.options.req_correlate)
read events s req_relaxed = ok (int_of s.options.req_relaxed)
read events s xpub_verbose = ok (int_of s.options.xpub_verbose)
read events s xpub_verboser = ok (int_of s.options.xpub_verboser)
read events s xpub_nodrop = ok (int_of s.options.xpub_nodrop)
read events s xpub_manual = ok (int_of s.options.xpub_manual)
read events s norm_mode = ok s.options.norm_mode
read events s norm_unicast_nack = ok (int_of s.options.norm_unicast_nack)
read events s norm_buffer_size = ok s.options.norm_buffer_size
read events s norm_segment_size = ok s.options.norm_segment_size
read events s norm_block_size = ok s.options.norm_block_size
read events s norm_num_parity = ok s.options.norm_num_parity
read events s norm_num_autoparity = ok s.options.norm_num_autoparity
read events s norm_push = ok (int_of s.options.norm_push)
read events s plain_server = ok (int_of s.options.security.plain_server)
read events s curve_server = ok (int_of s.options.security.curve_server)
read events s gssapi_server = ok (int_of s.options.security.gssapi_server)
read events s gssapi_plaintext = ok (int_of s.options.security.gssapi_plaintext)
read events s gssapi_principal_nametype = ok s.options.security.gssapi_principal_nametype
read events s gssapi_service_principal_nametype =
    ok s.options.security.gssapi_service_principal_nametype
read events s zap_enforce_domain = ok (int_of s.options.security.zap_enforce_domain)
read events s type_option = ok (pos (code_of s.socket_type))
read events s topics_count =
    if type_eq s.socket_type xpub || type_eq s.socket_type xsub
    then ok (as_i32 (count s.subscriptions))
    else err invalid_argument
read events s mechanism_option = ok (pos (mechanism s.options.security))
read events s fd = ok (negsuc 0)
read events s events_option = events
read events s rcvmore = ok (int_of s.last_recv_more)
read events s thread_safe = ok (pos 0)
read events s _ = err invalid_argument

unfoldable pub read_known : Result ℤ → OptionSocket → Option I32Option → Result ℤ
unfolding read
read_known events s none = err invalid_argument
read_known events s (some o) = read events s o

unfoldable pub get_option_i32 : Result ℤ → OptionSocket → ℤ → Result ℤ
unfolding read_known
get_option_i32 events s option = read_known events s (option_named option)

unfoldable pub get_option_u64 : OptionSocket → ℤ → Result ℕ
get_option_u64 s option =
    if is_code option zmq_affinity then ok s.options.affinity else err invalid_argument

unfoldable pub get_option_i64 : OptionSocket → ℤ → Result ℤ
get_option_i64 s option =
    if is_code option zmq_maxmsgsize then ok s.options.maxmsgsize else err invalid_argument
