-- ===== src/SocketOptions/Coherence.antt =====
-- What holds of a socket's options and of what they set elsewhere, after any calls on options.
use libzmq_ru.Base.{
  inl, inr, Bool-cases, ℕ, ◌≡◌, refl, Bool, true, not, ◌||◌, ◌&&◌, Option, none, some, List, [],
  ◌∷◌, arith,
}
use libzmq_ru.Base.Int.{ℤ, is_code, is_nonneg}
use libzmq_ru.Security.{set_curve_key}
use libzmq_ru.SocketOptions.{OptionSocket, new_socket, default_options}
use libzmq_ru.SocketOptions.Bytes.{
  BytesOption, bytes_named, set_bytes_known, set_bytes_named, set_option_bytes,
}
use libzmq_ru.SocketOptions.Codes.{I32Option, option_named}
use libzmq_ru.SocketOptions.Setting.{
  accepts, store, set_known, set_option_i32, set_option_u64, set_option_i64,
}
use libzmq_ru.SocketType.{SocketType}

abbrev implies : Bool → Bool → Bool
implies a b = not a || b

-- What follows from the options of what they set outside their record, and what does not: the
-- option for verbose unsubscriptions may stay on when the policy has dropped them.
pub record IsCoherent (s : OptionSocket) : Type 0 where
  pub manual : s.policy.manual ≡ s.options.xpub_manual
  pub last_value : implies s.policy.manual_last_value s.policy.manual ≡ true
  pub last_value_chosen : implies s.policy.manual_last_value s.options.xpub_manual_last_value ≡ true
  pub unsubscribe : implies s.policy.verbose_unsubscribe s.policy.verbose_subscribe ≡ true
  pub subscribe :
      implies s.policy.verbose_subscribe (s.options.xpub_verbose || s.options.xpub_verboser) ≡ true
  pub verboser : implies s.policy.verbose_unsubscribe s.options.xpub_verboser ≡ true
  pub fast :
      implies s.inproc_fast_send_enabled (is_code s.options.sndhwm 1000 && not s.options.conflate)
      ≡ true
  pub hwm : is_nonneg s.options.sndhwm ≡ true
  pub disconnect : s.disconnect_msg ≡ s.options.disconnect_msg

new-IsCoherent : (t : SocketType) (ipv6 blocky : Bool) → IsCoherent (new_socket t ipv6 blocky)
unfolding new_socket default_options
new-IsCoherent t ipv6 blocky = record {
  manual = refl;
  last_value = refl;
  last_value_chosen = refl;
  unsubscribe = refl;
  subscribe = refl;
  verboser = refl;
  fast = refl;
  hwm = refl;
  disconnect = refl;
}

store-IsCoherent :
    (s : OptionSocket) (o : I32Option) (v : ℤ)
    → accepts s.socket_type o v ≡ true
    → IsCoherent s
    → IsCoherent (store s o v)
unfolding accepts store
store-IsCoherent s o v accepted h = record {
  manual = ground (arith, h.manual);
  last_value = ground (arith, h.last_value);
  last_value_chosen = ground (arith, h.last_value_chosen);
  unsubscribe = ground (arith, h.unsubscribe);
  subscribe = ground (arith, h.subscribe);
  verboser = ground (arith, h.verboser);
  fast = ground (arith, h.fast);
  hwm = ground (arith, h.hwm);
  disconnect = ground (arith, h.disconnect);
}

known-IsCoherent :
    (s : OptionSocket) (o : Option I32Option) (v : ℤ)
    → IsCoherent s
    → IsCoherent (set_known s o v).0
unfolding set_known
known-IsCoherent s none v h = h
known-IsCoherent s (some o) v h = elim (Bool-cases (accepts s.socket_type o v)) [
  | inl taken ↦ rw (taken) (store-IsCoherent s o v taken h)
  | inr refused ↦ rw (refused) h
]

bytes-IsCoherent :
    (s : OptionSocket) (o : Option BytesOption) (value : List ℕ)
    → IsCoherent s
    → IsCoherent (set_bytes_named s o value).0
unfolding set_bytes_named set_bytes_known set_curve_key
bytes-IsCoherent s none value h = h
bytes-IsCoherent s (some o) value h = record {
  manual = ground (arith, h.manual);
  last_value = ground (arith, h.last_value);
  last_value_chosen = ground (arith, h.last_value_chosen);
  unsubscribe = ground (arith, h.unsubscribe);
  subscribe = ground (arith, h.subscribe);
  verboser = ground (arith, h.verboser);
  fast = ground (arith, h.fast);
  hwm = ground (arith, h.hwm);
  disconnect = ground (arith, h.disconnect);
}

-- A call on an option, whatever its code and its value.
pub data OptionCall : Type 0 where
  sets_i32 : (option value : ℤ) → OptionCall
  sets_u64 : (option : ℤ) (value : ℕ) → OptionCall
  sets_i64 : (option value : ℤ) → OptionCall
  sets_bytes : (option : ℤ) (value : List ℕ) → OptionCall

abbrev pub after_option_call : OptionSocket → OptionCall → OptionSocket
after_option_call s (sets_i32 option value) = (set_option_i32 s option value).0
after_option_call s (sets_u64 option value) = (set_option_u64 s option value).0
after_option_call s (sets_i64 option value) = (set_option_i64 s option value).0
after_option_call s (sets_bytes option value) = (set_option_bytes s option value).0

abbrev pub after_option_calls : OptionSocket → List OptionCall → OptionSocket
after_option_calls s [] = s
after_option_calls s (call ∷ calls) = after_option_calls (after_option_call s call) calls

wide-IsCoherent :
    (s : OptionSocket) (option : ℤ) (value : ℕ)
    → IsCoherent s
    → IsCoherent (set_option_u64 s option value).0
unfolding set_option_u64
wide-IsCoherent s option value h = record {
  manual = ground (arith, h.manual);
  last_value = ground (arith, h.last_value);
  last_value_chosen = ground (arith, h.last_value_chosen);
  unsubscribe = ground (arith, h.unsubscribe);
  subscribe = ground (arith, h.subscribe);
  verboser = ground (arith, h.verboser);
  fast = ground (arith, h.fast);
  hwm = ground (arith, h.hwm);
  disconnect = ground (arith, h.disconnect);
}

long-IsCoherent :
    (s : OptionSocket) (option : ℤ) (value : ℤ)
    → IsCoherent s
    → IsCoherent (set_option_i64 s option value).0
unfolding set_option_i64
long-IsCoherent s option value h = record {
  manual = ground (arith, h.manual);
  last_value = ground (arith, h.last_value);
  last_value_chosen = ground (arith, h.last_value_chosen);
  unsubscribe = ground (arith, h.unsubscribe);
  subscribe = ground (arith, h.subscribe);
  verboser = ground (arith, h.verboser);
  fast = ground (arith, h.fast);
  hwm = ground (arith, h.hwm);
  disconnect = ground (arith, h.disconnect);
}

option_call-IsCoherent :
    (s : OptionSocket) (call : OptionCall) → IsCoherent s → IsCoherent (after_option_call s call)
unfolding set_option_i32 set_option_bytes set_option_i64
option_call-IsCoherent s (sets_i32 option value) h =
    known-IsCoherent s (option_named option) value h
option_call-IsCoherent s (sets_u64 option value) h = wide-IsCoherent s option value h
option_call-IsCoherent s (sets_i64 option value) h = long-IsCoherent s option value h
option_call-IsCoherent s (sets_bytes option value) h =
    bytes-IsCoherent s (bytes_named option) value h

calls_keep :
    (s : OptionSocket) (calls : List OptionCall)
    → IsCoherent s
    → IsCoherent (after_option_calls s calls)
calls_keep s [] h = h
calls_keep s (call ∷ calls) h =
    calls_keep (after_option_call s call) calls (option_call-IsCoherent s call h)

-- After any calls on the options of a new socket, accepted or refused: the policy of an XPUB socket
-- is manual just if the option says so, and sends to the last peer only if it is manual and that
-- option is on; it passes on repeated subscriptions only if one of the two options for that is on,
-- and unsubscriptions only if it passes on repeated subscriptions and the option for both is on;
-- the fast path is open only while the high water mark is 1000 and conflation is off; the high
-- water mark is not negative; and the message that endpoints send when a peer leaves is the option.
pub option_calls-IsCoherent :
    (t : SocketType) (ipv6 blocky : Bool) (calls : List OptionCall)
    → IsCoherent (after_option_calls (new_socket t ipv6 blocky) calls)
option_calls-IsCoherent t ipv6 blocky calls =
    calls_keep (new_socket t ipv6 blocky) calls (new-IsCoherent t ipv6 blocky)
