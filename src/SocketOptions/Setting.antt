-- ===== src/SocketOptions/Setting.antt =====
-- `set_option_i32`, `set_option_u64` and `set_option_i64`.
use libzmq_ru.Base.{
  ℕ, ◌/◌, ◌*◌, Bool, true, false, ◌||◌, ◌&&◌, leb, Option, none, some, if◌then◌else◌,
}
use libzmq_ru.Base.Int.{ℤ, pos, negsuc, is_code, is_nonneg, ge_minus_one, ge, le, is_nonzero}
use libzmq_ru.Constants.{
  zmq_norm_fixed, zmq_norm_cce_ecnonly, zmq_gssapi_nt_hostbased, zmq_gssapi_nt_user_name,
  zmq_gssapi_nt_krb5_principal, zmq_affinity, zmq_maxmsgsize,
}
use libzmq_ru.Error.{Result, ok, err, invalid_argument}
use libzmq_ru.Inproc.{XpubSubscriptionPolicyState}
use libzmq_ru.SocketOptions.{SocketOptions, OptionSocket}
use libzmq_ru.SocketOptions.Codes.{
  I32Option, option_named, linger, sndhwm, rcvhwm, rate, recovery_ivl, sndbuf, rcvbuf,
  reconnect_ivl, reconnect_ivl_max, reconnect_stop, backlog, priority, in_batch_size,
  out_batch_size, busy_poll, multicast_hops, multicast_maxtpdu, multicast_loop, tos,
  connect_timeout, tcp_maxrt, tcp_keepalive, tcp_keepalive_cnt, tcp_keepalive_idle,
  tcp_keepalive_intvl, handshake_ivl, heartbeat_ivl, heartbeat_ttl, heartbeat_timeout, use_fd,
  sndtimeo, rcvtimeo, ipv6, immediate, invert_matching, loopback_fastpath, conflate, probe_router,
  router_raw, router_mandatory, router_handover, stream_notify, req_correlate, req_relaxed,
  xpub_verbose, xpub_verboser, xpub_nodrop, xpub_manual, xpub_manual_last_value,
  only_first_subscribe, xsub_verbose_unsubscribe, norm_mode, norm_unicast_nack, norm_buffer_size,
  norm_segment_size, norm_block_size, norm_num_parity, norm_num_autoparity, norm_push, plain_server,
  curve_server, gssapi_server, gssapi_plaintext, gssapi_principal_nametype,
  gssapi_service_principal_nametype, zap_enforce_domain, type_option, topics_count,
  mechanism_option, fd, events_option, rcvmore, thread_safe,
}
use libzmq_ru.SocketType.{SocketType, type_eq, dealer, router, stream, xpub, xsub}

abbrev pub size_of : ℤ → ℕ
size_of (pos n) = n
size_of (negsuc n) = 0

abbrev is_valid_gssapi_nametype : ℤ → Bool
is_valid_gssapi_nametype v =
    is_code v zmq_gssapi_nt_hostbased
    || is_code v zmq_gssapi_nt_user_name
    || is_code v zmq_gssapi_nt_krb5_principal

-- The guards of the arms. The last options can only be read.
unfoldable pub accepts : SocketType → I32Option → ℤ → Bool
accepts t linger v = ge_minus_one v
accepts t sndhwm v = is_nonneg v
accepts t rcvhwm v = is_nonneg v
accepts t rate v = ge v 1
accepts t recovery_ivl v = is_nonneg v
accepts t sndbuf v = ge_minus_one v
accepts t rcvbuf v = ge_minus_one v
accepts t reconnect_ivl v = ge_minus_one v
accepts t reconnect_ivl_max v = is_nonneg v
accepts t backlog v = is_nonneg v
accepts t priority v = is_nonneg v
accepts t in_batch_size v = ge v 1
accepts t out_batch_size v = ge v 1
accepts t multicast_hops v = ge v 1
accepts t multicast_maxtpdu v = ge v 1
accepts t tos v = is_nonneg v
accepts t connect_timeout v = is_nonneg v
accepts t tcp_maxrt v = is_nonneg v
accepts t tcp_keepalive v = ge_minus_one v && le v 1
accepts t tcp_keepalive_cnt v = ge_minus_one v
accepts t tcp_keepalive_idle v = ge_minus_one v
accepts t tcp_keepalive_intvl v = ge_minus_one v
accepts t handshake_ivl v = is_nonneg v
accepts t heartbeat_ivl v = is_nonneg v
accepts t heartbeat_ttl v = is_nonneg v && leb (size_of v / 100) 65535
accepts t heartbeat_timeout v = is_nonneg v
accepts t use_fd v = ge_minus_one v
accepts t sndtimeo v = ge_minus_one v
accepts t rcvtimeo v = ge_minus_one v
accepts t ipv6 v = is_nonneg v && le v 1
accepts t immediate v = is_nonneg v && le v 1
accepts t probe_router v = (type_eq t dealer || type_eq t router) && is_nonneg v
accepts t router_raw v = type_eq t router && is_nonneg v
accepts t stream_notify v = type_eq t stream && (is_nonneg v && le v 1)
accepts t xpub_manual_last_value v = type_eq t xpub && is_nonneg v
accepts t only_first_subscribe v = (type_eq t xpub || type_eq t xsub) && is_nonneg v
accepts t xsub_verbose_unsubscribe v = type_eq t xsub
accepts t norm_mode v = ge v zmq_norm_fixed && le v zmq_norm_cce_ecnonly
accepts t norm_buffer_size v = ge v 1
accepts t norm_segment_size v = ge v 1
accepts t norm_block_size v = ge v 1 && le v 255
accepts t norm_num_parity v = is_nonneg v && le v 254
accepts t norm_num_autoparity v = is_nonneg v && le v 254
accepts t gssapi_principal_nametype v = is_valid_gssapi_nametype v
accepts t gssapi_service_principal_nametype v = is_valid_gssapi_nametype v
accepts t type_option v = false
accepts t topics_count v = false
accepts t mechanism_option v = false
accepts t fd v = false
accepts t events_option v = false
accepts t rcvmore v = false
accepts t thread_safe v = false
accepts t _ v = true

abbrev set : OptionSocket → SocketOptions → OptionSocket
set s options = record s { options = options }

abbrev slow : OptionSocket → OptionSocket
slow s = record s { inproc_fast_send_enabled = false }

abbrev follow : OptionSocket → XpubSubscriptionPolicyState → OptionSocket
follow s policy = record s { policy = policy }

-- The bodies of the arms.
unfoldable pub store : OptionSocket → I32Option → ℤ → OptionSocket
store s linger v = set s (record s.options { linger = v })
store s sndhwm v = slow (set s (record s.options { sndhwm = v }))
store s rcvhwm v = set s (record s.options { rcvhwm = v })
store s rate v = set s (record s.options { rate = v })
store s recovery_ivl v = set s (record s.options { recovery_ivl = v })
store s sndbuf v = set s (record s.options { sndbuf = v })
store s rcvbuf v = set s (record s.options { rcvbuf = v })
store s reconnect_ivl v = set s (record s.options { reconnect_ivl = v })
store s reconnect_ivl_max v = set s (record s.options { reconnect_ivl_max = v })
store s reconnect_stop v = set s (record s.options { reconnect_stop = v })
store s backlog v = set s (record s.options { backlog = v })
store s priority v = set s (record s.options { priority = v })
store s in_batch_size v = set s (record s.options { in_batch_size = v })
store s out_batch_size v = set s (record s.options { out_batch_size = v })
store s busy_poll v = set s (record s.options { busy_poll = v })
store s multicast_hops v = set s (record s.options { multicast_hops = v })
store s multicast_maxtpdu v = set s (record s.options { multicast_maxtpdu = v })
store s multicast_loop v = set s (record s.options { multicast_loop = is_nonzero v })
store s tos v = set s (record s.options { tos = v })
store s connect_timeout v = set s (record s.options { connect_timeout = v })
store s tcp_maxrt v = set s (record s.options { tcp_maxrt = v })
store s tcp_keepalive v = set s (record s.options { tcp_keepalive = v })
store s tcp_keepalive_cnt v = set s (record s.options { tcp_keepalive_cnt = v })
store s tcp_keepalive_idle v = set s (record s.options { tcp_keepalive_idle = v })
store s tcp_keepalive_intvl v = set s (record s.options { tcp_keepalive_intvl = v })
store s handshake_ivl v = set s (record s.options { handshake_ivl = v })
store s heartbeat_ivl v = set s (record s.options { heartbeat_ivl = v })
store s heartbeat_ttl v = set s (record s.options { heartbeat_ttl = pos (size_of v / 100 * 100) })
store s heartbeat_timeout v = set s (record s.options { heartbeat_timeout = v })
store s use_fd v = set s (record s.options { use_fd = v })
store s sndtimeo v = set s (record s.options { sndtimeo = v })
store s rcvtimeo v = set s (record s.options { rcvtimeo = v })
store s ipv6 v = set s (record s.options { ipv6 = is_nonzero v })
store s immediate v = set s (record s.options { immediate = is_nonzero v })
store s invert_matching v = set s (record s.options { invert_matching = is_nonzero v })
store s loopback_fastpath v = set s (record s.options { loopback_fastpath = is_nonzero v })
store s conflate v = slow (set s (record s.options { conflate = is_nonzero v }))
store s probe_router v = set s (record s.options { probe_router = is_nonzero v })
store s router_raw v = set s (record s.options { router_raw = is_nonzero v })
store s router_mandatory v = set s (record s.options { router_mandatory = is_nonzero v })
store s router_handover v = set s (record s.options { router_handover = is_nonzero v })
store s stream_notify v = set s (record s.options { stream_notify = is_nonzero v })
store s req_correlate v = set s (record s.options { req_correlate = is_nonzero v })
store s req_relaxed v = set s (record s.options { req_relaxed = is_nonzero v })
store s xpub_verbose v =
    follow (set s (record s.options { xpub_verbose = is_nonzero v }))
      (record s.policy { verbose_subscribe = is_nonzero v; verbose_unsubscribe = false })
store s xpub_verboser v =
    follow (set s (record s.options { xpub_verboser = is_nonzero v }))
      (record s.policy { verbose_subscribe = is_nonzero v; verbose_unsubscribe = is_nonzero v })
store s xpub_nodrop v = set s (record s.options { xpub_nodrop = is_nonzero v })
store s xpub_manual v =
    follow (set s (record s.options { xpub_manual = is_nonzero v }))
      (record s.policy { manual = is_nonzero v; manual_last_value = false })
store s xpub_manual_last_value v =
    follow
      (set s
        (record s.options { xpub_manual = is_nonzero v; xpub_manual_last_value = is_nonzero v }))
      (record s.policy { manual = is_nonzero v; manual_last_value = is_nonzero v })
store s only_first_subscribe v = set s (record s.options { only_first_subscribe = is_nonzero v })
store s xsub_verbose_unsubscribe v =
    set s (record s.options { xsub_verbose_unsubscribe = is_nonzero v })
store s norm_mode v = set s (record s.options { norm_mode = v })
store s norm_unicast_nack v = set s (record s.options { norm_unicast_nack = is_nonzero v })
store s norm_buffer_size v = set s (record s.options { norm_buffer_size = v })
store s norm_segment_size v = set s (record s.options { norm_segment_size = v })
store s norm_block_size v = set s (record s.options { norm_block_size = v })
store s norm_num_parity v = set s (record s.options { norm_num_parity = v })
store s norm_num_autoparity v = set s (record s.options { norm_num_autoparity = v })
store s norm_push v = set s (record s.options { norm_push = is_nonzero v })
store s plain_server v =
    set s
      (record s.options { security = record s.options.security { plain_server = is_nonzero v } })
store s curve_server v =
    set s
      (record s.options { security = record s.options.security { curve_server = is_nonzero v } })
store s gssapi_server v =
    set s
      (record s.options { security = record s.options.security { gssapi_server = is_nonzero v } })
store s gssapi_plaintext v =
    set s (record s.options {
      security = record s.options.security { gssapi_plaintext = is_nonzero v };
    })
store s gssapi_principal_nametype v =
    set s
      (record s.options { security = record s.options.security { gssapi_principal_nametype = v } })
store s gssapi_service_principal_nametype v = set s (record s.options {
  security = record s.options.security { gssapi_service_principal_nametype = v };
})
store s zap_enforce_domain v = set s (record s.options {
  security = record s.options.security { zap_enforce_domain = is_nonzero v };
})
store s _ v = s

unfoldable pub set_known : OptionSocket → Option I32Option → ℤ → OptionSocket × Result (Unit {0})
unfolding accepts store
set_known s none v = (s, err invalid_argument)
set_known s (some o) v =
    if accepts s.socket_type o v then (store s o v, ok tt) else (s, err invalid_argument)

unfoldable pub set_option_i32 : OptionSocket → (option value : ℤ) → OptionSocket × Result (Unit {0})
unfolding set_known
set_option_i32 s option value = set_known s (option_named option) value

unfoldable pub set_option_u64 : OptionSocket → ℤ → ℕ → OptionSocket × Result (Unit {0})
set_option_u64 s option value =
    if is_code option zmq_affinity
    then (set s (record s.options { affinity = value }), ok tt)
    else (s, err invalid_argument)

unfoldable pub set_option_i64 : OptionSocket → (option value : ℤ) → OptionSocket × Result (Unit {0})
set_option_i64 s option value =
    if is_code option zmq_maxmsgsize
    then (set s (record s.options { maxmsgsize = value }), ok tt)
    else (s, err invalid_argument)
