-- ===== src/Pattern/Turns.antt =====
-- The checks before and after a frame agree.
use libzmq_ru.Base.{◌≡◌, Bool, arith}
use libzmq_ru.Pattern.{
  PatternSocket, ensure_can_send_for_pattern, after_pattern_send, ensure_can_recv_for_pattern,
  after_pattern_recv, set_pattern_state,
}

-- The check after a frame is sent fails exactly when the check before it does, with the same
-- error, and likewise for a frame that is received: no frame passes the first check to be refused
-- once it is on its way.
pub turns_agree :
    (s : PatternSocket) (more : Bool)
    → ((after_pattern_send s more).1 ≡ ensure_can_send_for_pattern s)
      × ((after_pattern_recv s more).1 ≡ ensure_can_recv_for_pattern s)
unfolding after_pattern_send ensure_can_send_for_pattern after_pattern_recv
    ensure_can_recv_for_pattern set_pattern_state
turns_agree s more = ground arith
