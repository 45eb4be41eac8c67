-- ===== src/Pattern.antt =====
-- The turns of REQ and REP sockets (`PatternState` of crates/libzmq-core/src/socket.rs, and the
-- checks before and after a frame is sent or received). The other types have no turns.
pub mod Turns
pub mod Conversation
mod Examples
use libzmq_ru.Base.{Bool, true, false, not, ◌||◌, ◌&&◌, Option, none, some, if◌then◌else◌}
use libzmq_ru.Error.{Result, ok, err, invalid_state, ◌>>=◌}
use libzmq_ru.SocketType.{SocketType, type_eq, req, rep}

pub data PatternState : Type 0 where
  ready_to_send ready_to_recv : PatternState

-- The fields of a socket that these operations read and write.
pub record PatternSocket : Type 0 where
  pub socket_type : SocketType
  pub req_relaxed : Bool
  pub pattern_state : Option PatternState

abbrev pub takes_turns : SocketType → Bool
takes_turns t = type_eq t req || type_eq t rep

-- The guard of a REQ socket that may send again before it has its reply.
abbrev pub is_relaxed : PatternSocket → Bool
is_relaxed s = type_eq s.socket_type req && s.req_relaxed

-- The state of a new socket.
unfoldable pub initial_state : SocketType → Option PatternState
initial_state req = some ready_to_send
initial_state rep = some ready_to_recv
initial_state _ = none

unfoldable pub ensure_can_send_for_pattern : PatternSocket → Result (Unit {0})
ensure_can_send_for_pattern s =
    if not (takes_turns s.socket_type) then ok tt else elim s.pattern_state [
      | some ready_to_recv ↦ if is_relaxed s then ok tt else err invalid_state
      | some ready_to_send ↦ ok tt
      | none ↦ ok tt
    ]

unfoldable pub set_pattern_state : PatternSocket → PatternState → PatternSocket
set_pattern_state s state = record s { pattern_state = some state }

unfoldable pub after_pattern_send : PatternSocket → Bool → PatternSocket × Result (Unit {0})
unfolding set_pattern_state
after_pattern_send s more =
    if not (takes_turns s.socket_type) then (s, ok tt) else elim s.pattern_state [
      | some ready_to_send ↦ if more then (s, ok tt) else (set_pattern_state s ready_to_recv, ok tt)
      | some ready_to_recv ↦
          if is_relaxed s
          then (set_pattern_state s ready_to_recv, ok tt)
          else (s, err invalid_state)
      | none ↦ (s, ok tt)
    ]

unfoldable pub ensure_can_recv_for_pattern : PatternSocket → Result (Unit {0})
ensure_can_recv_for_pattern s =
    if not (takes_turns s.socket_type) then ok tt else elim s.pattern_state [
      | some ready_to_send ↦ err invalid_state
      | some ready_to_recv ↦ ok tt
      | none ↦ ok tt
    ]

unfoldable pub after_pattern_recv : PatternSocket → Bool → PatternSocket × Result (Unit {0})
unfolding set_pattern_state
after_pattern_recv s more =
    if not (takes_turns s.socket_type) then (s, ok tt) else elim s.pattern_state [
      | some ready_to_recv ↦ if more then (s, ok tt) else (set_pattern_state s ready_to_send, ok tt)
      | some ready_to_send ↦ (s, err invalid_state)
      | none ↦ (s, ok tt)
    ]
