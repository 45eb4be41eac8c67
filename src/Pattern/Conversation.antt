-- ===== src/Pattern/Conversation.antt =====
-- REQ and REP sockets take turns: a multipart message goes one way, then one the other way.
use libzmq_ru.Base.{
  ◌≡◌, refl, sym, ◌∙◌, Bool, true, false, not, Option, some, List, [], ◌∷◌, map, if◌then◌else◌,
}
use libzmq_ru.Error.{Result, ok, err}
use libzmq_ru.Pattern.{
  PatternSocket, PatternState, ready_to_send, ready_to_recv, initial_state,
  ensure_can_send_for_pattern, after_pattern_send, ensure_can_recv_for_pattern, after_pattern_recv,
  set_pattern_state,
}
use libzmq_ru.SocketType.{SocketType, type_eq, req, rep}

-- A frame that is sent or received, and whether more frames of its message follow.
pub data Event : Type 0 where
  sends recvs : Bool → Event

abbrev pub new_socket : SocketType → Bool → PatternSocket
new_socket t relaxed = record {
  socket_type = t;
  req_relaxed = relaxed;
  pattern_state = initial_state t;
}

-- A frame goes through if the check before it passes.
abbrev pub guard_of : PatternSocket → Event → Result (Unit {0})
guard_of s (sends more) = ensure_can_send_for_pattern s
guard_of s (recvs more) = ensure_can_recv_for_pattern s

abbrev pub after_event : PatternSocket → Event → PatternSocket
after_event s (sends more) = (after_pattern_send s more).0
after_event s (recvs more) = (after_pattern_recv s more).0

abbrev succeeds : Result (Unit {0}) → Bool
succeeds (ok u) = true
succeeds (err e) = false

-- Whether all frames go through, one after the other.
abbrev pub accepts : PatternSocket → List Event → Bool
accepts s [] = true
accepts s (e ∷ es) =
    let rest = accepts (after_event s e) es in if succeeds (guard_of s e) then rest else false

-- The specification: whose turn it is changes with the last frame of a message.
abbrev pub alternates : Bool → List Event → Bool
alternates sending [] = true
alternates sending (sends more ∷ es) =
    let rest = alternates more es in if sending then rest else false
alternates sending (recvs more ∷ es) =
    let rest = alternates (not more) es in if sending then false else rest

abbrev turn_of : Bool → Option PatternState
turn_of true = some ready_to_send
turn_of false = some ready_to_recv

abbrev at_turn : SocketType → Bool → Bool → PatternSocket
at_turn t relaxed sending = record {
  socket_type = t;
  req_relaxed = relaxed;
  pattern_state = turn_of sending;
}

req-alternates :
    (es : List Event) (sending : Bool)
    → accepts (at_turn req false sending) es ≡ alternates sending es
unfolding ensure_can_send_for_pattern after_pattern_send ensure_can_recv_for_pattern
    after_pattern_recv set_pattern_state type_eq
req-alternates [] sending = refl
req-alternates (sends true ∷ es) true = req-alternates es true
req-alternates (sends false ∷ es) true = req-alternates es false
req-alternates (sends more ∷ es) false = refl
req-alternates (recvs more ∷ es) true = refl
req-alternates (recvs true ∷ es) false = req-alternates es false
req-alternates (recvs false ∷ es) false = req-alternates es true

rep-alternates :
    (es : List Event) (relaxed sending : Bool)
    → accepts (at_turn rep relaxed sending) es ≡ alternates sending es
unfolding ensure_can_send_for_pattern after_pattern_send ensure_can_recv_for_pattern
    after_pattern_recv set_pattern_state type_eq
rep-alternates [] relaxed sending = refl
rep-alternates (sends true ∷ es) relaxed true = rep-alternates es relaxed true
rep-alternates (sends false ∷ es) relaxed true = rep-alternates es relaxed false
rep-alternates (sends more ∷ es) relaxed false = refl
rep-alternates (recvs more ∷ es) relaxed true = refl
rep-alternates (recvs true ∷ es) relaxed false = rep-alternates es relaxed false
rep-alternates (recvs false ∷ es) relaxed false = rep-alternates es relaxed true

-- A new REQ socket that is not relaxed lets a sequence of frames through exactly when whole
-- messages go out and come in by turns, a request first; a new REP socket exactly when they do,
-- a request that comes in first, whatever its option says.
pub accepts-alternates :
    (relaxed : Bool) (es : List Event)
    → (accepts (new_socket req false) es ≡ alternates true es)
      × (accepts (new_socket rep relaxed) es ≡ alternates false es)
unfolding initial_state
accepts-alternates relaxed es = (req-alternates es true, rep-alternates es relaxed false)

-- The same frame at the other end.
abbrev pub mirror : Event → Event
mirror (sends more) = recvs more
mirror (recvs more) = sends more

alternates-mirror :
    (es : List Event) (sending : Bool)
    → alternates (not sending) (map mirror es) ≡ alternates sending es
alternates-mirror [] sending = refl
alternates-mirror (sends true ∷ es) true = alternates-mirror es true
alternates-mirror (sends false ∷ es) true = alternates-mirror es false
alternates-mirror (sends more ∷ es) false = refl
alternates-mirror (recvs more ∷ es) true = refl
alternates-mirror (recvs true ∷ es) false = alternates-mirror es false
alternates-mirror (recvs false ∷ es) false = alternates-mirror es true

-- A REQ socket that is not relaxed and the REP socket at the other end let the same conversations
-- through: where one may send the other may receive, frame by frame.
pub accepts-mirror :
    (relaxed : Bool) (es : List Event)
    → accepts (new_socket rep relaxed) (map mirror es) ≡ accepts (new_socket req false) es
accepts-mirror relaxed es =
    (accepts-alternates relaxed (map mirror es)).1
    ∙ alternates-mirror es true
    ∙ sym (accepts-alternates relaxed es).0
