-- ===== src/SocketOptions/ReadBack.antt =====
-- What an option that is a number reads back as after it is set, and what a refused value changes.
use libzmq_ru.Base.{◌/◌, ◌*◌, ◌≡◌, ◌⊎◌, inl, inr, Bool, true, false, some, refl, arith, Bool-cases}
use libzmq_ru.Base.Int.{ℤ, pos, is_nonzero, int_of}
use libzmq_ru.Error.{Result, ok, err, invalid_argument}
use libzmq_ru.SocketOptions.{OptionSocket}
use libzmq_ru.SocketOptions.Codes.{
  I32Option, option_code, option_named-option_code, heartbeat_ttl, multicast_loop, ipv6, immediate,
  invert_matching, loopback_fastpath, conflate, probe_router, router_raw, router_mandatory,
  router_handover, stream_notify, req_correlate, req_relaxed, xpub_verbose, xpub_verboser,
  xpub_nodrop, xpub_manual, xpub_manual_last_value, only_first_subscribe, xsub_verbose_unsubscribe,
  norm_unicast_nack, norm_push, plain_server, curve_server, gssapi_server, gssapi_plaintext,
  zap_enforce_domain, busy_poll,
}
use libzmq_ru.SocketOptions.Getting.{read, read_known, get_option_i32}
use libzmq_ru.SocketOptions.Setting.{size_of, accepts, store, set_known, set_option_i32}

abbrev pub is_readable : I32Option → Bool
is_readable busy_poll = false
is_readable probe_router = false
is_readable router_raw = false
is_readable stream_notify = false
is_readable xpub_manual_last_value = false
is_readable only_first_subscribe = false
is_readable xsub_verbose_unsubscribe = false
is_readable _ = true

-- What is read back: a switch as 0 or 1, a time to live in whole tenths of a second.
abbrev pub stored : I32Option → ℤ → ℤ
stored heartbeat_ttl v = pos (size_of v / 100 * 100)
stored multicast_loop v = int_of (is_nonzero v)
stored ipv6 v = int_of (is_nonzero v)
stored immediate v = int_of (is_nonzero v)
stored invert_matching v = int_of (is_nonzero v)
stored loopback_fastpath v = int_of (is_nonzero v)
stored conflate v = int_of (is_nonzero v)
stored probe_router v = int_of (is_nonzero v)
stored router_raw v = int_of (is_nonzero v)
stored router_mandatory v = int_of (is_nonzero v)
stored router_handover v = int_of (is_nonzero v)
stored stream_notify v = int_of (is_nonzero v)
stored req_correlate v = int_of (is_nonzero v)
stored req_relaxed v = int_of (is_nonzero v)
stored xpub_verbose v = int_of (is_nonzero v)
stored xpub_verboser v = int_of (is_nonzero v)
stored xpub_nodrop v = int_of (is_nonzero v)
stored xpub_manual v = int_of (is_nonzero v)
stored xpub_manual_last_value v = int_of (is_nonzero v)
stored only_first_subscribe v = int_of (is_nonzero v)
stored xsub_verbose_unsubscribe v = int_of (is_nonzero v)
stored norm_unicast_nack v = int_of (is_nonzero v)
stored norm_push v = int_of (is_nonzero v)
stored plain_server v = int_of (is_nonzero v)
stored curve_server v = int_of (is_nonzero v)
stored gssapi_server v = int_of (is_nonzero v)
stored gssapi_plaintext v = int_of (is_nonzero v)
stored zap_enforce_domain v = int_of (is_nonzero v)
stored _ v = v

stored_back :
    (events : Result ℤ) (s : OptionSocket) (o : I32Option) (v : ℤ)
    → is_readable o ≡ true
    → accepts s.socket_type o v ≡ true
    → read events (store s o v) o ≡ ok (stored o v)
unfolding accepts read store
stored_back events s o v readable accepted = ground arith

-- The two outcomes of a call.
abbrev pub Outcome : Result ℤ → OptionSocket → I32Option → ℤ → Type 0
Outcome events s o v =
    let (s', result) = set_option_i32 s (pos (option_code o)) v in
    ((accepts s.socket_type o v ≡ true)
      × (result ≡ ok tt)
      × (is_readable o ≡ true → get_option_i32 events s' (pos (option_code o)) ≡ ok (stored o v)))
    ⊎ ((accepts s.socket_type o v ≡ false) × (result ≡ err invalid_argument) × (s' ≡ s))

known_outcome :
    (events : Result ℤ) (s : OptionSocket) (o : I32Option) (v : ℤ)
    → let (s', result) = set_known s (some o) v in
      ((accepts s.socket_type o v ≡ true)
        × (result ≡ ok tt)
        × (is_readable o ≡ true → read events s' o ≡ ok (stored o v)))
      ⊎ ((accepts s.socket_type o v ≡ false) × (result ≡ err invalid_argument) × (s' ≡ s))
unfolding set_known
known_outcome events s o v = elim (Bool-cases (accepts s.socket_type o v)) [
  | inl taken ↦ inl (rw (taken) (refl, refl, λ readable. stored_back events s o v readable taken))
  | inr refused ↦ inr (rw (refused) (refl, refl, refl))
]

-- A value that an option accepts is stored, and is what the option reads back as if it can be read:
-- a switch as 0 or 1, a time to live rounded down to tenths of a second, any other as itself. A
-- value that it does not accept is an invalid argument and changes nothing.
pub set_option_i32-Outcome :
    (events : Result ℤ) (s : OptionSocket) (o : I32Option) (v : ℤ) → Outcome events s o v
unfolding set_option_i32 get_option_i32 read_known
set_option_i32-Outcome events s o v = rw (option_named-option_code o) (known_outcome events s o v)
