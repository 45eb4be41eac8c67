-- ===== src/SocketOptions/Examples.antt =====
-- Sockets whose options are set, and the theorems at them.
use libzmq_ru.Base.{◌≡◌, refl, true, false, List, [], ◌∷◌}
use libzmq_ru.Base.Int.{pos, negsuc}
use libzmq_ru.Constants.{
  zmq_sndhwm, zmq_xpub_verbose, zmq_xpub_verboser, zmq_xpub_manual_last_value,
}
use libzmq_ru.Error.{ok, err, invalid_argument}
use libzmq_ru.SocketOptions.{OptionSocket, new_socket}
use libzmq_ru.SocketOptions.Bytes.{bytes_code, set_option_bytes, get_option_bytes, socks_proxy}
use libzmq_ru.SocketOptions.BytesBack.{get_option_bytes-set_option_bytes}
use libzmq_ru.SocketOptions.Codes.{option_code, heartbeat_ttl, xpub_verboser, heartbeat_timeout}
use libzmq_ru.SocketOptions.Coherence.{
  IsCoherent, OptionCall, sets_i32, after_option_calls, option_calls-IsCoherent,
}
use libzmq_ru.SocketOptions.Getting.{get_option_i32}
use libzmq_ru.SocketOptions.ReadBack.{Outcome, set_option_i32-Outcome}
use libzmq_ru.SocketOptions.Setting.{set_option_i32}
use libzmq_ru.SocketType.{SocketType, xpub, push}

abbrev fresh : SocketType → OptionSocket
fresh t = new_socket t false true

set_option_i32-Outcome_example : Outcome (ok (pos 0)) (fresh push) heartbeat_ttl (pos 1234)
set_option_i32-Outcome_example =
    set_option_i32-Outcome (ok (pos 0)) (fresh push) heartbeat_ttl (pos 1234)

get_option_bytes-set_option_bytes_example :
    get_option_bytes
      (set_option_bytes (fresh push) (pos (bytes_code socks_proxy)) (b'a' ∷ b'b' ∷ [])).0
      (pos (bytes_code socks_proxy))
    ≡ ok (b'a' ∷ b'b' ∷ 0 ∷ [])
unfolding set_option_bytes libzmq_ru.SocketOptions.Bytes.bytes_named
get_option_bytes-set_option_bytes_example =
    get_option_bytes-set_option_bytes (fresh push) socks_proxy (b'a' ∷ b'b' ∷ []) refl refl

abbrev calls : List OptionCall
calls =
    sets_i32 (pos zmq_xpub_verboser) (pos 1)
    ∷ sets_i32 (pos zmq_xpub_verbose) (pos 0)
    ∷ sets_i32 (pos zmq_xpub_manual_last_value) (pos 1)
    ∷ sets_i32 (pos zmq_sndhwm) (negsuc 4)
    ∷ []

option_calls-IsCoherent_example : IsCoherent (after_option_calls (fresh xpub) calls)
option_calls-IsCoherent_example = option_calls-IsCoherent xpub false true calls

-- The option for verbose unsubscriptions reads as on when the policy no longer has it.
verboser_left :
    (get_option_i32 (ok (pos 0)) (after_option_calls (fresh xpub) calls) (pos zmq_xpub_verboser)
      ≡ ok (pos 1))
    × ((after_option_calls (fresh xpub) calls).policy.verbose_unsubscribe ≡ false)
unfolding get_option_i32 libzmq_ru.SocketOptions.Codes.option_named set_option_i32
    libzmq_ru.SocketType.type_eq new_socket
verboser_left = (refl, refl)

-- The value that a new socket has is refused.
default_refused :
    (get_option_i32 (ok (pos 0)) (fresh push) (pos (option_code heartbeat_timeout)) ≡ ok (negsuc 0))
    × ((set_option_i32 (fresh push) (pos (option_code heartbeat_timeout)) (negsuc 0)).1
        ≡ err invalid_argument)
unfolding get_option_i32 libzmq_ru.SocketOptions.Codes.option_named new_socket set_option_i32
default_refused = (refl, refl)
