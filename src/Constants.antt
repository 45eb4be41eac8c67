-- ===== src/Constants.antt =====
-- crates/libzmq-core/src/constants.rs, and the constants of the crate's other files.
-- All of them are positive or zero; the two negative defaults stand in Context.Options.
use libzmq_ru.Base.{ℕ, ◌+◌}

abbrev pub zmq_hausnumero : ℕ
zmq_hausnumero = 156_384_712

abbrev pub enotsup : ℕ
enotsup = zmq_hausnumero + 1

abbrev pub eprotonosupport : ℕ
eprotonosupport = zmq_hausnumero + 2

abbrev pub enotsock : ℕ
enotsock = zmq_hausnumero + 9

abbrev pub ehostunreach : ℕ
ehostunreach = zmq_hausnumero + 17

abbrev pub efsm : ℕ
efsm = zmq_hausnumero + 51

abbrev pub eterm : ℕ
eterm = zmq_hausnumero + 53

abbrev pub einval : ℕ
einval = 22

abbrev pub enomem : ℕ
enomem = 12

abbrev pub efault : ℕ
efault = 14

abbrev pub eagain : ℕ
eagain = 11

abbrev pub zmq_pair : ℕ
zmq_pair = 0

abbrev pub zmq_pub : ℕ
zmq_pub = 1

abbrev pub zmq_sub : ℕ
zmq_sub = 2

abbrev pub zmq_req : ℕ
zmq_req = 3

abbrev pub zmq_rep : ℕ
zmq_rep = 4

abbrev pub zmq_dealer : ℕ
zmq_dealer = 5

abbrev pub zmq_router : ℕ
zmq_router = 6

abbrev pub zmq_pull : ℕ
zmq_pull = 7

abbrev pub zmq_push : ℕ
zmq_push = 8

abbrev pub zmq_xpub : ℕ
zmq_xpub = 9

abbrev pub zmq_xsub : ℕ
zmq_xsub = 10

abbrev pub zmq_stream : ℕ
zmq_stream = 11

abbrev pub zmq_server : ℕ
zmq_server = 12

abbrev pub zmq_client : ℕ
zmq_client = 13

abbrev pub zmq_radio : ℕ
zmq_radio = 14

abbrev pub zmq_dish : ℕ
zmq_dish = 15

abbrev pub zmq_gather : ℕ
zmq_gather = 16

abbrev pub zmq_scatter : ℕ
zmq_scatter = 17

abbrev pub zmq_dgram : ℕ
zmq_dgram = 18

abbrev pub zmq_peer : ℕ
zmq_peer = 19

abbrev pub zmq_channel : ℕ
zmq_channel = 20

abbrev pub zmq_group_max_length : ℕ
zmq_group_max_length = 255

abbrev pub zmq_io_threads : ℕ
zmq_io_threads = 1

abbrev pub zmq_max_sockets : ℕ
zmq_max_sockets = 2

abbrev pub zmq_socket_limit : ℕ
zmq_socket_limit = 3

abbrev pub zmq_thread_priority : ℕ
zmq_thread_priority = 3

abbrev pub zmq_thread_sched_policy : ℕ
zmq_thread_sched_policy = 4

abbrev pub zmq_max_msgsz : ℕ
zmq_max_msgsz = 5

abbrev pub zmq_msg_t_size : ℕ
zmq_msg_t_size = 6

abbrev pub zmq_thread_affinity_cpu_add : ℕ
zmq_thread_affinity_cpu_add = 7

abbrev pub zmq_thread_affinity_cpu_remove : ℕ
zmq_thread_affinity_cpu_remove = 8

abbrev pub zmq_thread_name_prefix : ℕ
zmq_thread_name_prefix = 9

abbrev pub zmq_zero_copy_recv : ℕ
zmq_zero_copy_recv = 10

abbrev pub zmq_io_threads_dflt : ℕ
zmq_io_threads_dflt = 1

abbrev pub zmq_max_sockets_dflt : ℕ
zmq_max_sockets_dflt = 1023

abbrev pub zmq_affinity : ℕ
zmq_affinity = 4

abbrev pub zmq_rate : ℕ
zmq_rate = 8

abbrev pub zmq_recovery_ivl : ℕ
zmq_recovery_ivl = 9

abbrev pub zmq_sndbuf : ℕ
zmq_sndbuf = 11

abbrev pub zmq_rcvbuf : ℕ
zmq_rcvbuf = 12

abbrev pub zmq_routing_id : ℕ
zmq_routing_id = 5

abbrev pub zmq_rcvmore : ℕ
zmq_rcvmore = 13

abbrev pub zmq_fd : ℕ
zmq_fd = 14

abbrev pub zmq_events : ℕ
zmq_events = 15

abbrev pub zmq_type : ℕ
zmq_type = 16

abbrev pub zmq_linger : ℕ
zmq_linger = 17

abbrev pub zmq_reconnect_ivl : ℕ
zmq_reconnect_ivl = 18

abbrev pub zmq_backlog : ℕ
zmq_backlog = 19

abbrev pub zmq_reconnect_ivl_max : ℕ
zmq_reconnect_ivl_max = 21

abbrev pub zmq_maxmsgsize : ℕ
zmq_maxmsgsize = 22

abbrev pub zmq_multicast_hops : ℕ
zmq_multicast_hops = 25

abbrev pub zmq_last_endpoint : ℕ
zmq_last_endpoint = 32

abbrev pub zmq_sndhwm : ℕ
zmq_sndhwm = 23

abbrev pub zmq_rcvhwm : ℕ
zmq_rcvhwm = 24

abbrev pub zmq_rcvtimeo : ℕ
zmq_rcvtimeo = 27

abbrev pub zmq_sndtimeo : ℕ
zmq_sndtimeo = 28

abbrev pub zmq_router_mandatory : ℕ
zmq_router_mandatory = 33

abbrev pub zmq_tcp_keepalive : ℕ
zmq_tcp_keepalive = 34

abbrev pub zmq_tcp_keepalive_cnt : ℕ
zmq_tcp_keepalive_cnt = 35

abbrev pub zmq_tcp_keepalive_idle : ℕ
zmq_tcp_keepalive_idle = 36

abbrev pub zmq_tcp_keepalive_intvl : ℕ
zmq_tcp_keepalive_intvl = 37

abbrev pub zmq_immediate : ℕ
zmq_immediate = 39

abbrev pub zmq_xpub_verbose : ℕ
zmq_xpub_verbose = 40

abbrev pub zmq_router_raw : ℕ
zmq_router_raw = 41

abbrev pub zmq_ipv6 : ℕ
zmq_ipv6 = 42

abbrev pub zmq_mechanism : ℕ
zmq_mechanism = 43

abbrev pub zmq_plain_server : ℕ
zmq_plain_server = 44

abbrev pub zmq_plain_username : ℕ
zmq_plain_username = 45

abbrev pub zmq_plain_password : ℕ
zmq_plain_password = 46

abbrev pub zmq_curve_server : ℕ
zmq_curve_server = 47

abbrev pub zmq_curve_publickey : ℕ
zmq_curve_publickey = 48

abbrev pub zmq_curve_secretkey : ℕ
zmq_curve_secretkey = 49

abbrev pub zmq_curve_serverkey : ℕ
zmq_curve_serverkey = 50

abbrev pub zmq_probe_router : ℕ
zmq_probe_router = 51

abbrev pub zmq_req_correlate : ℕ
zmq_req_correlate = 52

abbrev pub zmq_req_relaxed : ℕ
zmq_req_relaxed = 53

abbrev pub zmq_conflate : ℕ
zmq_conflate = 54

abbrev pub zmq_zap_domain : ℕ
zmq_zap_domain = 55

abbrev pub zmq_router_handover : ℕ
zmq_router_handover = 56

abbrev pub zmq_tos : ℕ
zmq_tos = 57

abbrev pub zmq_connect_routing_id : ℕ
zmq_connect_routing_id = 61

abbrev pub zmq_gssapi_server : ℕ
zmq_gssapi_server = 62

abbrev pub zmq_gssapi_principal : ℕ
zmq_gssapi_principal = 63

abbrev pub zmq_gssapi_service_principal : ℕ
zmq_gssapi_service_principal = 64

abbrev pub zmq_gssapi_plaintext : ℕ
zmq_gssapi_plaintext = 65

abbrev pub zmq_handshake_ivl : ℕ
zmq_handshake_ivl = 66

abbrev pub zmq_socks_proxy : ℕ
zmq_socks_proxy = 68

abbrev pub zmq_xpub_nodrop : ℕ
zmq_xpub_nodrop = 69

abbrev pub zmq_blocky : ℕ
zmq_blocky = 70

abbrev pub zmq_xpub_manual : ℕ
zmq_xpub_manual = 71

abbrev pub zmq_xpub_welcome_msg : ℕ
zmq_xpub_welcome_msg = 72

abbrev pub zmq_stream_notify : ℕ
zmq_stream_notify = 73

abbrev pub zmq_invert_matching : ℕ
zmq_invert_matching = 74

abbrev pub zmq_heartbeat_ivl : ℕ
zmq_heartbeat_ivl = 75

abbrev pub zmq_heartbeat_ttl : ℕ
zmq_heartbeat_ttl = 76

abbrev pub zmq_heartbeat_timeout : ℕ
zmq_heartbeat_timeout = 77

abbrev pub zmq_xpub_verboser : ℕ
zmq_xpub_verboser = 78

abbrev pub zmq_connect_timeout : ℕ
zmq_connect_timeout = 79

abbrev pub zmq_tcp_maxrt : ℕ
zmq_tcp_maxrt = 80

abbrev pub zmq_thread_safe : ℕ
zmq_thread_safe = 81

abbrev pub zmq_multicast_maxtpdu : ℕ
zmq_multicast_maxtpdu = 84

abbrev pub zmq_use_fd : ℕ
zmq_use_fd = 89

abbrev pub zmq_gssapi_principal_nametype : ℕ
zmq_gssapi_principal_nametype = 90

abbrev pub zmq_gssapi_service_principal_nametype : ℕ
zmq_gssapi_service_principal_nametype = 91

abbrev pub zmq_bindtodevice : ℕ
zmq_bindtodevice = 92

abbrev pub zmq_zap_enforce_domain : ℕ
zmq_zap_enforce_domain = 93

abbrev pub zmq_loopback_fastpath : ℕ
zmq_loopback_fastpath = 94

abbrev pub zmq_multicast_loop : ℕ
zmq_multicast_loop = 96

abbrev pub zmq_xpub_manual_last_value : ℕ
zmq_xpub_manual_last_value = 98

abbrev pub zmq_socks_username : ℕ
zmq_socks_username = 99

abbrev pub zmq_socks_password : ℕ
zmq_socks_password = 100

abbrev pub zmq_in_batch_size : ℕ
zmq_in_batch_size = 101

abbrev pub zmq_out_batch_size : ℕ
zmq_out_batch_size = 102

abbrev pub zmq_only_first_subscribe : ℕ
zmq_only_first_subscribe = 108

abbrev pub zmq_reconnect_stop : ℕ
zmq_reconnect_stop = 109

abbrev pub zmq_hello_msg : ℕ
zmq_hello_msg = 110

abbrev pub zmq_disconnect_msg : ℕ
zmq_disconnect_msg = 111

abbrev pub zmq_priority : ℕ
zmq_priority = 112

abbrev pub zmq_busy_poll : ℕ
zmq_busy_poll = 113

abbrev pub zmq_hiccup_msg : ℕ
zmq_hiccup_msg = 114

abbrev pub zmq_xsub_verbose_unsubscribe : ℕ
zmq_xsub_verbose_unsubscribe = 115

abbrev pub zmq_topics_count : ℕ
zmq_topics_count = 116

abbrev pub zmq_norm_mode : ℕ
zmq_norm_mode = 117

abbrev pub zmq_norm_unicast_nack : ℕ
zmq_norm_unicast_nack = 118

abbrev pub zmq_norm_buffer_size : ℕ
zmq_norm_buffer_size = 119

abbrev pub zmq_norm_segment_size : ℕ
zmq_norm_segment_size = 120

abbrev pub zmq_norm_block_size : ℕ
zmq_norm_block_size = 121

abbrev pub zmq_norm_num_parity : ℕ
zmq_norm_num_parity = 122

abbrev pub zmq_norm_num_autoparity : ℕ
zmq_norm_num_autoparity = 123

abbrev pub zmq_norm_push : ℕ
zmq_norm_push = 124

abbrev pub zmq_norm_fixed : ℕ
zmq_norm_fixed = 0

abbrev pub zmq_norm_cc : ℕ
zmq_norm_cc = 1

abbrev pub zmq_norm_cce_ecnonly : ℕ
zmq_norm_cce_ecnonly = 4

abbrev pub zmq_null : ℕ
zmq_null = 0

abbrev pub zmq_plain : ℕ
zmq_plain = 1

abbrev pub zmq_curve : ℕ
zmq_curve = 2

abbrev pub zmq_gssapi : ℕ
zmq_gssapi = 3

abbrev pub zmq_gssapi_nt_hostbased : ℕ
zmq_gssapi_nt_hostbased = 0

abbrev pub zmq_gssapi_nt_user_name : ℕ
zmq_gssapi_nt_user_name = 1

abbrev pub zmq_gssapi_nt_krb5_principal : ℕ
zmq_gssapi_nt_krb5_principal = 2

abbrev pub zmq_pollout : ℕ
zmq_pollout = 2

-- The constants of message.rs, transport.rs and context.rs.
abbrev pub inline_capacity : ℕ
inline_capacity = 32

abbrev pub zmtp_greeting_size : ℕ
zmtp_greeting_size = 64

abbrev pub zmtp_flag_more : ℕ
zmtp_flag_more = 0x01

abbrev pub zmtp_flag_long : ℕ
zmtp_flag_long = 0x02

abbrev pub zmtp_flag_command : ℕ
zmtp_flag_command = 0x04

abbrev pub state_running : ℕ
state_running = 0

abbrev pub state_shutting_down : ℕ
state_shutting_down = 1

abbrev pub state_terminated : ℕ
state_terminated = 2
